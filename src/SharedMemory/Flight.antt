-- ===== src/SharedMemory/Flight.antt =====
-- The chunk that is under way: from the `read` of the sender to the `write` of the receiver.
use mipt_informatics.Base.{
  ℕ, zero, suc, ◌<◌, ◌≤◌, ◌≡◌, refl, sym, ap, ◌∙◌, Bool, true, false, [], ◌∷◌, ◌++◌, drop, arith,
}
use mipt_informatics.Multiplexer.Actions.{slice}
use mipt_informatics.SharedMemory.{
  rcv_ok, snd_not_done, snd_ok, snd_eof, Sender, reads, filled, amounted, stated, passed, tests_eof,
  snd_ended, snd_gone, writes, cleared, rcv_ended, System, rcv_running, Step, snd_p, snd_read,
  rcv_write, rcv_write_error,
}
use mathlib.Core.Path.{subst}
use mathlib.Core.List.{append_assoc}
use mipt_informatics.Multiplexer.Flow.Slices.{slice-fill}
use mipt_informatics.SharedMemory.Invariant.{
  guard, is_early, is_late, is_clean, is_waiting, IsTurned, Step-IsTurned,
}

-- The sender has found the end of the file.
abbrev pub is_past : Sender → Bool
is_past stated = true
is_past passed = true
is_past tests_eof = true
is_past snd_ended = true
is_past snd_gone = true
is_past _ = false

abbrev pub Fills : System → Sender → Type 0
Fills s (filled k) = slice s.bytes 0 k ≡ s.flight
Fills s amounted = slice s.bytes 0 s.data_amount ≡ s.flight
Fills s reads = s.flight ≡ []
Fills s _ = Unit

-- what the states that the processes have stored say of the chunk
pub record IsTold (s : System) : Type 0 where
  pub turned : IsTurned s
  pub early : rcv_running s.receiver ≡ true → is_early s.sender ≡ true → s.snd_state ≡ snd_not_done
  pub free : rcv_running s.receiver ≡ true → 0 < s.memory_sem → s.snd_state ≡ snd_not_done
  pub clears : s.receiver ≡ cleared → s.snd_state ≡ snd_not_done
  pub writing : s.receiver ≡ writes → s.snd_state ≡ snd_ok
  pub told :
      s.snd_state ≡ snd_ok → is_waiting s.receiver ≡ true → slice s.bytes 0 s.data_amount ≡ s.flight
  pub fills : Fills s s.sender
  pub late : is_late s.receiver ≡ true → s.flight ≡ []
  pub clean : is_clean s.sender ≡ true → s.rcv_state ≡ rcv_ok → s.flight ≡ []
  pub past : s.snd_state ≡ snd_eof → is_past s.sender ≡ true
  pub ended : s.receiver ≡ rcv_ended → s.snd_state ≡ snd_eof
  pub at_end : s.snd_state ≡ snd_eof → (s.rest ≡ []) × (s.flight ≡ [])

drop_all : (buf : ℕ → ℕ) (begin k : ℕ) → drop k (slice buf begin k) ≡ []
unfolding slice
drop_all buf begin zero = refl
drop_all buf begin (suc k) = drop_all buf (suc begin) k

slice-drop :
    (buf : ℕ → ℕ) (begin k n : ℕ)
    → k ≤ n
    → slice buf begin k ++ drop k (slice buf begin n) ≡ slice buf begin n
unfolding slice
slice-drop buf begin zero n le = refl
slice-drop buf begin (suc k) zero le = absurd (omega arith)
slice-drop buf begin (suc k) (suc n) le =
    ap (λ l. buf begin ∷ l) (slice-drop buf (suc begin) k n (omega arith))

-- The receiver writes the chunk, to the end or up to `k` bytes.
in_flight : (s : System) → IsTold s → s.receiver ≡ writes → slice s.bytes 0 s.data_amount ≡ s.flight
in_flight s v p = v.told (v.writing p) (rw p refl)

written-nil : (s : System) → IsTold s → s.receiver ≡ writes → drop s.data_amount s.flight ≡ []
written-nil s v p = rw (← in_flight s v p) (drop_all s.bytes 0 s.data_amount)

written-flight :
    (s : System) (k : ℕ)
    → IsTold s
    → s.receiver ≡ writes
    → k ≤ s.data_amount
    → slice s.bytes 0 k ++ drop k s.flight ≡ s.flight
written-flight s k v p le = rw (← in_flight s v p) (slice-drop s.bytes 0 k s.data_amount le)

read-flight : (s : System) → IsTold s → s.sender ≡ reads → s.flight ≡ []
read-flight s v p = subst (Fills s) p v.fills

Step-early :
    {s t : System}
    → Step s t
    → IsTold s
    → (rcv_running t.receiver ≡ true → is_early t.sender ≡ true → t.snd_state ≡ snd_not_done)
Step-early {s} (snd_p p lt) v = ground (arith, v.turned.baton)
Step-early st v = ground (arith, guard st, v.turned.baton)

Step-free :
    {s t : System}
    → Step s t
    → IsTold s
    → (rcv_running t.receiver ≡ true → 0 < t.memory_sem → t.snd_state ≡ snd_not_done)
Step-free {s} (snd_p p lt) v = ground (arith, v.turned.baton)
Step-free st v = ground (arith, guard st, v.turned.baton)

Step-clears :
    {s t : System} → Step s t → IsTold s → (t.receiver ≡ cleared → t.snd_state ≡ snd_not_done)
Step-clears {s} (snd_p p lt) v = ground (arith, v.turned.baton)
Step-clears st v = ground (arith, guard st, v.turned.baton)

Step-writing : {s t : System} → Step s t → IsTold s → (t.receiver ≡ writes → t.snd_state ≡ snd_ok)
Step-writing {s} (snd_p p lt) v = ground (arith, v.turned.baton)
Step-writing st v = ground (arith, guard st, v.turned.baton)

Step-told :
    {s t : System}
    → Step s t
    → IsTold s
    → (t.snd_state ≡ snd_ok
        → is_waiting t.receiver ≡ true
        → slice t.bytes 0 t.data_amount ≡ t.flight)
Step-told {s} (snd_p p lt) v = ground (arith, v.turned.baton)
Step-told st v = ground (arith, guard st, v.turned.baton)

Step-Fills : {s t : System} → Step s t → IsTold s → Fills t t.sender
Step-Fills {s} (snd_read chunk left p e ne le) v = rw (read-flight s v p) (slice-fill chunk s.bytes)
Step-Fills {s} (snd_p p lt) v = ground (arith, v.turned.baton)
Step-Fills st v = ground (arith, guard st, v.turned.baton)

Step-late : {s t : System} → Step s t → IsTold s → (is_late t.receiver ≡ true → t.flight ≡ [])
Step-late {s} (rcv_write p) v = λ h. written-nil s v p
Step-late {s} (snd_p p lt) v = ground (arith, v.turned.baton)
Step-late st v = ground (arith, guard st, v.turned.baton)

Step-clean :
    {s t : System}
    → Step s t
    → IsTold s
    → (is_clean t.sender ≡ true → t.rcv_state ≡ rcv_ok → t.flight ≡ [])
Step-clean {s} (rcv_write p) v = λ a b. written-nil s v p
Step-clean {s} (snd_p p lt) v = ground (arith, v.turned.baton)
Step-clean st v = ground (arith, guard st, v.turned.baton)

Step-at_end :
    {s t : System} → Step s t → IsTold s → (t.snd_state ≡ snd_eof → (t.rest ≡ []) × (t.flight ≡ []))
Step-at_end {s} (snd_p p lt) v = ground (arith, v.turned.baton)
Step-at_end st v = ground (arith, guard st, v.turned.baton)

Step-past : {s t : System} → Step s t → IsTold s → (t.snd_state ≡ snd_eof → is_past t.sender ≡ true)
Step-past {s} (snd_p p lt) v = ground arith
Step-past st v = ground (arith, guard st)

Step-ended : {s t : System} → Step s t → IsTold s → (t.receiver ≡ rcv_ended → t.snd_state ≡ snd_eof)
Step-ended {s} (snd_p p lt) v = ground arith
Step-ended st v = ground (arith, guard st)

pub Step-IsTold : {s t : System} → Step s t → IsTold s → IsTold t
Step-IsTold st v = record {
  turned = Step-IsTurned st v.turned;
  early = Step-early st v;
  free = Step-free st v;
  clears = Step-clears st v;
  writing = Step-writing st v;
  told = Step-told st v;
  fills = Step-Fills st v;
  late = Step-late st v;
  clean = Step-clean st v;
  past = Step-past st v;
  ended = Step-ended st v;
  at_end = Step-at_end st v;
}

-- what the three files and places of a byte hold together
pub Step-whole :
    {s t : System}
    → Step s t
    → IsTold s
    → t.output ++ (t.flight ++ t.rest) ≡ s.output ++ (s.flight ++ s.rest)
Step-whole {s} (snd_read chunk left p e ne le) v =
    rw e (ap (λ l. s.output ++ l) (append_assoc s.flight chunk left))
Step-whole {s} (rcv_write p) v =
    append_assoc s.output _ _
    ∙ ap (λ l. s.output ++ l)
        (sym (append_assoc _ _ s.rest)
          ∙ ap (λ l. l ++ s.rest) (written-flight s s.data_amount v p (omega arith)))
Step-whole {s} (rcv_write_error k p le) v =
    append_assoc s.output _ _
    ∙ ap (λ l. s.output ++ l)
        (sym (append_assoc _ _ s.rest) ∙ ap (λ l. l ++ s.rest) (written-flight s k v p le))
Step-whole other v = refl
