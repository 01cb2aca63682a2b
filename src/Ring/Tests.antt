-- ===== src/Ring/Tests.antt =====
-- Operations on a ring with the head 0.
use mipt_informatics.Base.{◌+◌, ◌≡◌, refl, [], ◌∷◌, ◌++◌, arith, ◌==◌, if◌then◌else◌}
use mipt_informatics.Base.Int.{pos, negsuc}
use mipt_informatics.Base.Run.{done}
use mipt_informatics.Ring.{list_print, Store, list_push_back, list_pop_front}
use mipt_informatics.Ring.Chain.{IsRing, values}
use mipt_informatics.Ring.Walks.{list_print-list_sum}
use mipt_informatics.Ring.Push.{list_push_back-IsRing}
use mipt_informatics.Ring.Remove.{list_pop_front-IsRing}

abbrev blank : Store
blank = record { next = λ i. 9; prev = λ i. 9; value = λ i. pos 0 }

-- the nodes 1 and 2 behind the head
abbrev two_nodes : Store
two_nodes = record {
  next = λ i. if i == 2 then 0 else i + 1;
  prev = λ i. if i == 0 then 2 else if i == 2 then 1 else 0;
  value = λ i. pos (10 + i);
}

two_nodes-IsRing : IsRing two_nodes 0 (1 ∷ 2 ∷ [])
two_nodes-IsRing = record {
  chain = (refl, refl, (refl, refl, (refl, refl)));
  distinct = (((λ e. omega arith), ((λ e. omega arith), tt)), (((λ e. omega arith), tt), (tt, tt)));
}

list_push_back-IsRing_example :
    IsRing (list_push_back two_nodes 0 5 (negsuc 0)) 0 (1 ∷ 2 ∷ 5 ∷ [])
    × (values (list_push_back two_nodes 0 5 (negsuc 0)) (1 ∷ 2 ∷ 5 ∷ [])
        ≡ values two_nodes (1 ∷ 2 ∷ []) ++ negsuc 0 ∷ [])
list_push_back-IsRing_example =
    list_push_back-IsRing two_nodes 0 5 (negsuc 0) (1 ∷ 2 ∷ []) two_nodes-IsRing
      ((λ e. omega arith), ((λ e. omega arith), ((λ e. omega arith), tt)))

list_pop_front-IsRing_example :
    ((list_pop_front two_nodes 0).0 ≡ two_nodes.value 1)
    × IsRing (list_pop_front two_nodes 0).1 0 (2 ∷ [])
    × (values (list_pop_front two_nodes 0).1 (2 ∷ []) ≡ values two_nodes (2 ∷ []))
list_pop_front-IsRing_example = list_pop_front-IsRing two_nodes 0 1 (2 ∷ []) two_nodes-IsRing

list_print_run : list_print 3 two_nodes 0 ≡ done (values two_nodes (1 ∷ 2 ∷ []))
list_print_run = (list_print-list_sum 3 two_nodes 0 (1 ∷ 2 ∷ []) (omega arith) two_nodes-IsRing).0
