-- ===== src/Multiplexer/Shutdown/Invariant.antt =====
-- What a closed descriptor and a child that has ended tell, in every state that the program reaches.
use mipt_informatics.Base.{
  ℕ, zero, suc, ◌≡◌, ◌⊎◌, refl, sym, ◌∙◌, inl, inr, Bool, true, false, ◌||◌, Bool-cases, List, [],
  ◌∷◌, ◌++◌, if◌then◌else◌, arith,
}
use mipt_informatics.Multiplexer.{
  Buffer, BufferEvent, Child, exited, Parent, polling, moving, between, closing, waiting, ended,
  died, undefined, System,
}
use mipt_informatics.Multiplexer.Events.{Coalesced, filled, unconsumed, overflow}
use mipt_informatics.Multiplexer.Actions.{
  served, can_write, source, write_out, read_in, closes_input, closes_output, rd_open_after,
  close_ends,
}
use mipt_informatics.Multiplexer.Steps.{IsDrained, polled}
use mipt_informatics.Multiplexer.Flow.Slices.{update_ind}
use mipt_informatics.Multiplexer.Shutdown.Events.{IsFinal, AllFinal, OnFilled}
use mipt_informatics.Multiplexer.Shutdown.Drained.{Keeps, AllFinal-Keeps}

-- A buffer whose output is closed has no input and nothing to write.
pub record IsShut (b : Buffer) : Type 0 where
  pub no_input : b.rd_open ≡ false
  pub no_bytes : b.begin ≡ b.end

-- where the parent stands
abbrev pub Stands : ℕ → System → Parent → Type 0
Stands n s polling = Unit
Stands n s (moving todo done) = AllFinal s todo × AllFinal s done
Stands n s (between be todo done) = IsFinal s be × (AllFinal s todo × AllFinal s done)
Stands n s (closing bes) = AllFinal s bes
Stands n s waiting = (s.buffers n).wr_open ≡ false
Stands n s ended = (s.buffers n).wr_open ≡ false
Stands n s died = Unit
Stands n s undefined = Unit

-- what the descriptors of buffer `i` tell
abbrev pub IsTrue : System → ℕ → Buffer → Type 0
IsTrue s i b = (b.rd_open ≡ false → IsDrained s i) × (b.wr_open ≡ false → IsShut b)

-- A child that has exited has seen the end of its input.
abbrev pub HasRead : Child → List ℕ → Bool → Type 0
HasRead c to wr_open = c ≡ exited → (to ≡ []) × (wr_open ≡ false)

pub record IsClosing (n : ℕ) (s : System) : Type 0 where
  pub buffers : (i : ℕ) → IsTrue s i (s.buffers i)
  pub exits : (i : ℕ) → HasRead (s.children i) (s.to_child i) (s.buffers i).wr_open
  pub stands : Stands n s s.parent

-- The descriptors that are closed stay closed.
abbrev pub Shuts : System → System → Type 0
Shuts s t = (i : ℕ) → (s.buffers i).wr_open ≡ false → (t.buffers i).wr_open ≡ false

pub Stands-Keeps :
    (n : ℕ) (s t : System) (p : Parent) → Keeps s t → Shuts s t → Stands n s p → Stands n t p
Stands-Keeps n s t polling k h st = tt
Stands-Keeps n s t (moving todo done) k h (f, g) =
    (AllFinal-Keeps s t todo k f, AllFinal-Keeps s t done k g)
Stands-Keeps n s t (between be todo done) k h (e, (f, g)) =
    (λ c. k be.buffer (e c), (AllFinal-Keeps s t todo k f, AllFinal-Keeps s t done k g))
Stands-Keeps n s t (closing bes) k h f = AllFinal-Keeps s t bes k f
Stands-Keeps n s t waiting k h e = h n e
Stands-Keeps n s t ended k h e = h n e
Stands-Keeps n s t died k h st = tt
Stands-Keeps n s t undefined k h st = tt

pub polled-Stands :
    (n : ℕ) (s : System) (o : Coalesced) → OnFilled (AllFinal s) o → Stands n s (polled o)
unfolding polled
polled-Stands n s (filled bes) f = (f, tt)
polled-Stands n s unconsumed f = tt
polled-Stands n s overflow f = tt

pub served-Stands :
    (n : ℕ) (s : System) (be : BufferEvent) (todo done : List BufferEvent)
    → IsFinal s be
    → AllFinal s todo × AllFinal s done
    → Stands n s (served be todo done)
unfolding served
served-Stands n s be todo done f (g, h) =
    elim (Bool-cases (be.rd_have_errors || be.wr_have_errors)) [
      | inl e ↦ rw e tt
      | inr e ↦ rw e (g, (f, h))
    ]

-- a closed output and something to write exclude each other
pub can_write-absurd : (b : Buffer) (be : BufferEvent) → can_write b be ≡ true → IsShut b → ⊥
can_write-absurd b be c h = ground (arith, h.no_bytes)

source-nil : (s : System) (i : ℕ) → IsDrained s i → source s i ≡ []
unfolding source
source-nil s zero d = d
source-nil s (suc i) d = d.0

module _ (b : Buffer) (be : BufferEvent) where
  rd_open_after-false : rd_open_after b be ≡ false → (closes_input be ≡ true) ⊎ (b.rd_open ≡ false)
  unfolding rd_open_after
  rd_open_after-false e = elim (Bool-cases (closes_input be)) [
    | inl c ↦ inl c
    | inr c ↦ inr (rw c at e)
  ]

  rd_open_after-closed : b.rd_open ≡ false → rd_open_after b be ≡ false
  unfolding rd_open_after
  rd_open_after-closed e = ground arith

  wr_open_after-false :
      (if closes_output b be then false else b.wr_open) ≡ false
      → ((rd_open_after b be ≡ false) × (b.begin ≡ b.end)) ⊎ (b.wr_open ≡ false)
  unfolding closes_output
  wr_open_after-false e = elim (Bool-cases (closes_output b be)) [
    | inl c ↦ inl (ground arith)
    | inr c ↦ inr (rw c at e)
  ]

module _ (n : ℕ) (s : System) (v : IsClosing n s) where
  pub write-buffers :
      (be : BufferEvent) (k : ℕ) (p : Parent)
      → can_write (s.buffers be.buffer) be ≡ true
      → (i : ℕ) → IsTrue s i ((write_out n be.buffer k p s).buffers i)
  unfolding write_out
  write-buffers be k p c =
      update_ind (IsTrue s) s.buffers be.buffer _ v.buffers
        ((v.buffers be.buffer).0, λ w. absurd (can_write-absurd _ be c ((v.buffers be.buffer).1 w)))

  read-IsShut :
      (j : ℕ) (bytes left : List ℕ)
      → source s j ≡ bytes ++ left
      → (s.buffers j).wr_open ≡ false
      → ((s.buffers j).rd_open ≡ false) × (bytes ≡ [])
  read-IsShut j bytes left e w =
      let h = (v.buffers j).1 w in
      (h.no_input, nil_of_append bytes left (sym e ∙ source-nil s j ((v.buffers j).0 h.no_input)))
    where
      nil_of_append : (xs ys : List ℕ) → xs ++ ys ≡ [] → xs ≡ []
      nil_of_append [] ys q = refl
      nil_of_append (x ∷ xs) ys q = cc

  pub read-buffers :
      (j : ℕ) (bytes left : List ℕ) (p : Parent)
      → source s j ≡ bytes ++ left
      → (i : ℕ) → IsTrue s i ((read_in j bytes left p s).buffers i)
  unfolding read_in
  read-buffers j bytes left p e = update_ind (IsTrue s) s.buffers j _ v.buffers (
    (v.buffers j).0,
    λ w.
        let (shut, empty) = read-IsShut j bytes left e w in
        record { no_input = shut; no_bytes = rw empty refl },
  )

  pub close-buffers :
      (be : BufferEvent) (todo : List BufferEvent)
      → IsFinal s be
      → (i : ℕ) → IsTrue s i ((close_ends n be todo s).buffers i)
  unfolding close_ends
  close-buffers be todo f = update_ind (IsTrue s) s.buffers be.buffer _ v.buffers (
    (λ e. elim (rd_open_after-false b be e) [ inl c ↦ f c | inr r ↦ (v.buffers be.buffer).0 r ]),
    (λ e. elim (wr_open_after-false b be e) [
      | inl (r, same) ↦ record { no_input = r; no_bytes = same }
      | inr w ↦
          let h = (v.buffers be.buffer).1 w in
          record { no_input = rd_open_after-closed b be h.no_input; no_bytes = h.no_bytes }
    ]),
  )
    where
      b : Buffer
      b = s.buffers be.buffer
