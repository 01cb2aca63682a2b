-- ===== src/Multiplexer/Flow/Moves.antt =====
-- A write and a read of the parent keep the bytes that are under way in their order.
use mipt_informatics.Base.{
  ℕ, zero, suc, ◌-◌, ◌<◌, ◌≤◌, ◌≡◌, refl, sym, ap, ◌∙◌, inl, inr, Bool, true, false, Bool-cases,
  List, [], ◌++◌, length, ◌==◌, if◌then◌else◌, arith,
}
use native.Mathlib.Decide.{dec_lt}
use mathlib.Core.List.{append_assoc}
use mipt_informatics.Multiplexer.{Parent, System, update}
use mipt_informatics.Multiplexer.Actions.{pending, write_out, source, set_source, read_in}
use mipt_informatics.Multiplexer.Flow.{held, passing, behind, whole, behind_cong, whole_above}
use mipt_informatics.Multiplexer.Flow.Slices.{slice-fill, slice-pending, update_self, update_ne}

replaced_ne :
    (b : Bool) (f : ℕ → List ℕ) (i j : ℕ) (l : List ℕ)
    → (i == j) ≡ false
    → (if b then f else update f j l) i ≡ f i
replaced_ne true f i j l e = refl
replaced_ne false f i j l e = update_ne f i j l e

regroup : (a b c x y : List ℕ) → (a ++ (b ++ (c ++ x))) ++ y ≡ (a ++ (b ++ c)) ++ (x ++ y)
regroup a b c x y = simp append_assoc refl

regroup_output : (o x y z : List ℕ) → (o ++ x) ++ (y ++ z) ≡ o ++ ((x ++ y) ++ z)
regroup_output o x y z = simp append_assoc refl

-- the parent writes
module _ (n : ℕ) (s : System) (j k : ℕ) (parent : Parent)
    (le : k ≤ (s.buffers j).end - (s.buffers j).begin) where
  write-place :
      (i : ℕ)
      → (i == n) ≡ false
      → passing (write_out n j k parent s) i ++ pending ((write_out n j k parent s).buffers i)
        ≡ passing s i ++ pending (s.buffers i)
  unfolding write_out
  write-place i inner = elim (Bool-cases (i == j)) [
    | inl e ↦
        let same : i ≡ j = ground arith in
        let other : (j == n) ≡ false = rw same at inner in
        rw (same, other, update_self s.buffers j, update_self s.to_child j)
          (regroup (s.from_child j) (held (s.children j)) (s.to_child j) _ _
            ∙ ap (λ l. passing s j ++ l) (slice-pending (s.buffers j) k le))
    | inr e ↦ rw (update_ne s.buffers i j _ e, replaced_ne (j == n) s.to_child i j _ e) refl
  ]

  write-behind : behind (write_out n j k parent s) n ≡ behind s n
  unfolding write_out
  write-behind =
      behind_cong s (write_out n j k parent s) n refl (λ i lt. write-place i (ground arith))

  pub write-flow :
      (write_out n j k parent s).output ++ whole (write_out n j k parent s) n
      ≡ s.output ++ whole s n
  unfolding write_out
  write-flow = elim (Bool-cases (j == n)) [
    | inl e ↦
        let same : j ≡ n = ground arith in
        rw (write-behind, e, same, update_self s.buffers n)
          (regroup_output s.output _ _ _
            ∙ ap (λ l. s.output ++ (l ++ behind s n))
                (rw same at (slice-pending (s.buffers j) k le)))
    | inr e ↦ rw (write-behind, e, update_ne s.buffers n j _ (ground arith)) refl
  ]

-- the parent reads
module _ (s : System) (bytes left : List ℕ) (parent : Parent) where
  read-pending :
      (i j : ℕ)
      → (i == j) ≡ false
      → pending ((read_in j bytes left parent s).buffers i) ≡ pending (s.buffers i)
  unfolding read_in
  read-pending i j e = rw (update_ne s.buffers i j _ e) refl

  read-pending_self : (j : ℕ) → pending ((read_in j bytes left parent s).buffers j) ≡ bytes
  unfolding read_in pending
  read-pending_self j =
      let all : length bytes - 0 ≡ length bytes = omega arith in
      rw (update_self s.buffers j, all) (slice-fill bytes (s.buffers j).buf)

  read-passing :
      (i j : ℕ) → (suc i == j) ≡ false → passing (read_in j bytes left parent s) i ≡ passing s i
  unfolding read_in set_source
  read-passing i zero e = refl
  read-passing i (suc m) e = rw (update_ne s.from_child i m left (ground arith)) refl

  read-rest : (j : ℕ) → 0 < j → (read_in j bytes left parent s).rest ≡ s.rest
  unfolding read_in set_source
  read-rest zero lt = absurd (omega arith)
  read-rest (suc m) lt = refl

  read-behind_below : (k j : ℕ) → k < j → behind (read_in j bytes left parent s) k ≡ behind s k
  read-behind_below k j lt =
      behind_cong s (read_in j bytes left parent s) k (read-rest j (omega arith))
        (λ i le. rw (read-passing i j (ground arith), read-pending i j (ground arith)) refl)

  read-behind :
      (j : ℕ)
      → source s j ≡ bytes ++ left
      → bytes ++ behind (read_in j bytes left parent s) j ≡ behind s j
  unfolding read_in set_source behind source
  read-behind zero eq = sym eq
  read-behind (suc m) eq =
      rw
        (
          read-behind_below m (suc m) (omega arith),
          update_self s.from_child m,
          read-pending m (suc m) (ground arith),
          eq,
        )
        (simp append_assoc refl)

  pub read-flow :
      (j k : ℕ)
      → pending (s.buffers j) ≡ []
      → source s j ≡ bytes ++ left
      → whole (read_in j bytes left parent s) k ≡ whole s k
  read-flow j k empty eq = elim (dec_lt k j) [
    | yes lt ↦ rw (read-behind_below k j lt, read-pending k j (ground arith)) refl
    | no ge ↦
        whole_above s (read_in j bytes left parent s) j k (omega arith)
          (rw (read-pending_self j, empty) (read-behind j eq))
          (λ i le. read-passing i j (ground arith)) (λ i lt. read-pending i j (ground arith))
  ]
