-- ===== src/Ring/Clear.antt =====
-- The loop that frees the nodes of a ring.
use mipt_informatics.Base.{ℕ, zero, suc, ◌<◌, ◌≡◌, List, [], ◌∷◌, arith, length}
use mipt_informatics.Base.Run.{done}
use mipt_informatics.Ring.{Store, list_init, clear_from, list_clear}
use mipt_informatics.Ring.Chain.{Fresh, Chain, IsRing}
use mipt_informatics.Ring.Remove.{list_init-IsRing}

clear_from-nodes :
    (fuel : ℕ) (h : Store) (list a : ℕ) (xs : List ℕ)
    → length xs < fuel
    → Chain h a xs list
    → Fresh list xs
    → clear_from fuel h list (h.next a) ≡ done xs
unfolding clear_from
clear_from-nodes zero h list a xs long c f = absurd (omega arith)
clear_from-nodes (suc fuel) h list a [] long c f = ground (arith, c.0)
clear_from-nodes (suc fuel) h list a (x ∷ xs) long c f =
    let rest = clear_from-nodes fuel h list x xs (omega arith) c.2 f.1 in
    ground (arith, c.0, rest, f.0)

-- With a round for each node and one more, `list_clear` ends, frees each node of the ring once, in
-- order, and leaves the ring without nodes.
pub list_clear_lem :
    (fuel : ℕ) (h : Store) (list : ℕ) (xs : List ℕ)
    → length xs < fuel
    → IsRing h list xs
    → (h' : Store) × (list_clear fuel h list ≡ done (xs, h')) × IsRing h' list []
unfolding list_clear
list_clear_lem fuel h list xs long r = (
  list_init h list,
  rw (clear_from-nodes fuel h list list xs long r.chain r.distinct.0),
  list_init-IsRing h list,
)
