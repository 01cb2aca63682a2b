-- ===== src/Ring.antt =====
-- The ring lists of course1-1/10-seminar-lists/list_3.c, which joseph.c and
-- 11-seminar-tree/tree_7_breadth_first_search.c copy. The nodes stand in a store; a pointer is the
-- address of a node, and `malloc` gives the address `node` of a new one.
pub mod Chain
pub mod Push
pub mod Remove
pub mod Clear
pub mod Walks
pub mod Tests
use mipt_informatics.Base.{ℕ, zero, suc, Bool, ◌&&◌, List, [], ◌∷◌, ◌++◌, ◌==◌, if◌then◌else◌}
use mipt_informatics.Base.Int.{ℤ, pos, ◌+ℤ◌}
use mipt_informatics.Base.Run.{Run, done, out_of_fuel, ◌>>=◌}

-- the fields of the nodes
pub record Store : Type 0 where
  pub next : ℕ → ℕ
  pub prev : ℕ → ℕ
  pub value : ℕ → ℤ

abbrev pub set_next : Store → ℕ → ℕ → Store
set_next h p q = record h { next = λ i. if i == p then q else h.next i }

abbrev pub set_prev : Store → ℕ → ℕ → Store
set_prev h p q = record h { prev = λ i. if i == p then q else h.prev i }

abbrev pub set_data : Store → ℕ → ℤ → Store
set_data h p d = record h { value = λ i. if i == p then d else h.value i }

pub list_init : Store → ℕ → Store
list_init h list = set_prev (set_next h list list) list list

-- `t->prev = list; t->next = list->next; t->prev->next = t; t->next->prev = t;`
pub list_insert : Store → ℕ → ℕ → Store
list_insert h list t =
    let h1 = set_prev h t list in
    let h2 = set_next h1 t (h1.next list) in
    let h3 = set_next h2 (h2.prev t) t in set_prev h3 (h3.next t) t

pub list_insert_before : Store → ℕ → ℕ → Store
list_insert_before h list t =
    let h1 = set_prev h t (h.prev list) in
    let h2 = set_next h1 t list in let h3 = set_next h2 (h2.prev t) t in set_prev h3 (h3.next t) t

pub list_remove : Store → ℕ → Store
list_remove h t =
    let prev = h.prev t in let next = h.next t in set_prev (set_next h prev next) next prev

pub list_push_front : Store → ℕ → (node : ℕ) → ℤ → Store
unfolding list_insert
list_push_front h list node d = list_insert (set_data h node d) list node

pub list_push_back : Store → ℕ → (node : ℕ) → ℤ → Store
unfolding list_insert_before
list_push_back h list node d = list_insert_before (set_data h node d) list node

-- the value, and the store behind the removal; the node is then free
pub list_delete : Store → ℕ → ℤ × Store
unfolding list_remove
list_delete h t = (h.value t, list_remove h t)

pub list_pop_front : Store → ℕ → ℤ × Store
unfolding list_delete
list_pop_front h list = list_delete h (h.next list)

pub list_pop_back : Store → ℕ → ℤ × Store
unfolding list_delete
list_pop_back h list = list_delete h (h.prev list)

-- the loop of `list_foreach` from `cur` on, where `func` changes the memory at `param`
pub foreach_from : {P : Type 0} → ℕ → Store → ℕ → ℕ → (ℤ → P → P) → P → Run P
foreach_from zero h list cur func param = out_of_fuel
foreach_from (suc fuel) h list cur func param =
    let rest = foreach_from fuel h list (h.next cur) func (func (h.value cur) param) in
    if cur == list then done param else rest

pub list_foreach : {P : Type 0} → ℕ → Store → ℕ → (ℤ → P → P) → P → Run P
unfolding foreach_from
list_foreach fuel h list func param = foreach_from fuel h list (h.next list) func param

-- the numbers that `list_print` prints, in front of the end of the line
pub list_print : ℕ → Store → ℕ → Run (List ℤ)
unfolding list_foreach
list_print fuel h list = list_foreach fuel h list (λ d printed. printed ++ d ∷ []) []

pub list_sum : ℕ → Store → ℕ → Run ℤ
unfolding list_foreach
list_sum fuel h list = list_foreach fuel h list (λ d sum. sum +ℤ d) (pos 0)

pub list_is_empty : Store → ℕ → Bool
list_is_empty h list = h.prev list == list && h.next list == list

-- the loop of `list_clear` from `cur` on: the nodes that it frees, in order
pub clear_from : ℕ → Store → ℕ → ℕ → Run (List ℕ)
clear_from zero h list cur = out_of_fuel
clear_from (suc fuel) h list cur =
    let rest = clear_from fuel h list (h.next cur) in
    if cur == list then done [] else rest >>= λ freed. done (cur ∷ freed)

pub list_clear : ℕ → Store → ℕ → Run (List ℕ × Store)
unfolding clear_from list_init
list_clear fuel h list = do
  freed ← clear_from fuel h list (h.next list)
  done (freed, list_init h list)
