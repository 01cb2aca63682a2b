-- ===== src/Multiplexer/Overflow.antt =====
-- The elements of `buffer_events` that the loop fills after one `epoll_wait`.
use mipt_informatics.Base.{
  ◌⊎◌, refl, ℕ, ◌<◌, ◌≤◌, ◌≡◌, ◌≢◌, sym, ◌∙◌, inl, inr, Bool, true, false, Bool-cases, Option-cases,
  List, [], ◌∷◌, some, length, length-map, ◌==◌, if◌then◌else◌, arith,
}
use mathlib.Core.Logic.Or
use mathlib.Core.List.Perm
use mathlib.Core.List.{
  Perm, Mem, Mem-prop, map, not-mem-nil, mem-cons_self, mem-cons_of_mem, mem-append_right,
  mem-append_left, eq-or-mem_of_mem-cons,
}
use mipt_informatics.Multiplexer.{Buffer, EpollEvent, BufferEvent}
use mipt_informatics.Multiplexer.Events.{
  inject, fresh, store, advance, has_room, Coalesced, filled, unconsumed, overflow, coalesce,
}
use mipt_informatics.Multiplexer.Shutdown.Events.{rd_fake, wr_fake, store-buffer, advance-buffer}

coalesce-cons :
    (n : ℕ) (ee : EpollEvent) (ees : List EpollEvent) (bes out : List BufferEvent)
    → coalesce n (ee ∷ ees) bes ≡ filled out
    → (has_room n ee.buffer bes ≡ true)
      × (be : BufferEvent) × (store ee (advance ee.buffer bes).0 ≡ some be)
      × (coalesce n ees (be ∷ (advance ee.buffer bes).1) ≡ filled out)
unfolding coalesce
coalesce-cons n ee ees bes out e = elim (Bool-cases (has_room n ee.buffer bes)) [
  | inr full ↦ absurd (overflow-ne-filled (rw (coalesce, full) at e))
  | inl room ↦ elim (Option-cases (store ee (advance ee.buffer bes).0)) [
    | inl h ↦ absurd (unconsumed-ne-filled (rw (coalesce, room, h) at e))
    | inr (be, h) ↦ (room, be, h, rw (coalesce, room, h) at e)
  ]
]
  where
    overflow-ne-filled : overflow ≢ filled out
    overflow-ne-filled q = cc

    unconsumed-ne-filled : unconsumed ≢ filled out
    unconsumed-ne-filled q = cc

length-advance :
    (n b : ℕ) (bes : List BufferEvent)
    → has_room n b bes ≡ true
    → length bes ≤ n
    → length (advance b bes).1 < n
unfolding has_room advance
length-advance n b [] room le = ground arith
length-advance n b (be ∷ bes) room le = ground arith

-- The elements that are filled are elements of the array.
length-coalesce :
    (n : ℕ) (ees : List EpollEvent) (bes out : List BufferEvent)
    → coalesce n ees bes ≡ filled out
    → length bes ≤ n
    → length out ≤ n
unfolding coalesce
length-coalesce n [] bes out e le = let same : bes ≡ out = cc in rw same at le
length-coalesce n (ee ∷ ees) bes out e le =
    let (room, be, _, rest) = coalesce-cons n ee ees bes out e in
    let fits = length-advance n ee.buffer bes room le in
    length-coalesce n ees (be ∷ (advance ee.buffer bes).1) out rest (omega arith)

abbrev buffers_of : List BufferEvent → List ℕ
buffers_of bes = map (λ be. be.buffer) bes

mem-advance :
    (b k : ℕ) (bes : List BufferEvent)
    → Mem k (buffers_of bes)
    → Mem k ((advance b bes).0.buffer ∷ buffers_of (advance b bes).1)
unfolding advance fresh
mem-advance b k [] m = absurd (not-mem-nil m)
mem-advance b k (be ∷ bes) m = elim (Bool-cases (be.buffer == b)) [
  | inl e ↦ rw e m
  | inr e ↦ rw e (mem-cons_of_mem b m)
]

-- The buffers that the array has stay in it, and those of the events come into it.
mem-coalesce_old :
    (n k : ℕ) (ees : List EpollEvent) (bes out : List BufferEvent)
    → coalesce n ees bes ≡ filled out
    → Mem k (buffers_of bes)
    → Mem k (buffers_of out)
unfolding coalesce
mem-coalesce_old n k [] bes out e m = let same : bes ≡ out = cc in rw same at m
mem-coalesce_old n k (ee ∷ ees) bes out e m =
    let (_, be, stored, rest) = coalesce-cons n ee ees bes out e in
    mem-coalesce_old n k ees _ out rest
      (rw (store-buffer ee _ be stored) (mem-advance ee.buffer k bes m))

mem-coalesce_new :
    (n : ℕ) (ev : EpollEvent) (ees : List EpollEvent) (bes out : List BufferEvent)
    → coalesce n ees bes ≡ filled out
    → Mem ev ees
    → Mem ev.buffer (buffers_of out)
mem-coalesce_new n ev [] bes out e m = absurd (not-mem-nil m)
mem-coalesce_new n ev (ee ∷ ees) bes out e m =
    let (_, be, stored, rest) = coalesce-cons n ee ees bes out e in
    Or.elim Mem-prop (eq-or-mem_of_mem-cons m)
      (λ q.
        mem-coalesce_old n ev.buffer ees _ out rest
          (rw (store-buffer ee _ be stored, advance-buffer ee.buffer bes, q) mem-cons_self))
      (mem-coalesce_new n ev ees _ out rest)

mem-if : (b : Bool) (a : EpollEvent) → b ≡ true → Mem a (if b then a ∷ [] else [])
mem-if true a e = mem-cons_self
mem-if false a e = cc

two_members : (i j : ℕ) (l : List ℕ) → i ≢ j → Mem i l → Mem j l → 2 ≤ length l
two_members i j [] ne p q = absurd (not-mem-nil p)
two_members i j (x ∷ []) ne p q = absurd (
    Or.elim bottom_prop (eq-or-mem_of_mem-cons p)
      (λ e. Or.elim bottom_prop (eq-or-mem_of_mem-cons q) (λ f. ne (e ∙ sym f)) not-mem-nil)
      not-mem-nil)
  where
    bottom_prop : IsProp ⊥
    bottom_prop = hlevel
two_members i j (x ∷ y ∷ l) ne p q = omega arith

unfilled :
    (o : Coalesced)
    → ((bes : List BufferEvent) → o ≢ filled bes)
    → (o ≡ overflow) ⊎ (o ≡ unconsumed)
unfilled (filled bes) h = absurd (h bes refl)
unfilled unconsumed h = inr refl
unfilled overflow h = inl refl

-- With a single child, whenever neither the input nor the output is closed, and in whatever order `qsort`
-- puts the events, the loop writes an element behind the end of `buffer_events`, unless a flag that it
-- does not know makes the program die before.
pub buffer_events_overflow :
    (buffers : ℕ → Buffer) (es sorted : List EpollEvent)
    → Perm sorted (inject 1 buffers es)
    → (buffers 0).rd_open ≡ true
    → (buffers 1).wr_open ≡ true
    → (coalesce 1 sorted [] ≡ overflow) ⊎ (coalesce 1 sorted [] ≡ unconsumed)
unfolding inject
buffer_events_overflow buffers es sorted perm rd wr = unfilled (coalesce 1 sorted []) (λ bes e.
    absurd (
      omega (
        arith,
        length-coalesce 1 sorted [] bes e (omega arith),
        length-map bes (λ be. be.buffer),
        two_members 0 1 (buffers_of bes) (omega arith)
            (found bes e rd_fake
              (mem-append_left _ (mem-append_right es (mem-if (buffers 0).rd_open rd_fake rd))))
            (found bes e (wr_fake 1)
              (mem-append_right _ (mem-if (buffers 1).wr_open (wr_fake 1) wr))),
      )))
  where
    found :
        (bes : List BufferEvent)
        → coalesce 1 sorted [] ≡ filled bes
        → (ev : EpollEvent) → Mem ev (inject 1 buffers es)
        → Mem ev.buffer (buffers_of bes)
    found bes e ev m = mem-coalesce_new 1 ev sorted [] bes e (Perm.subset (Perm.symm perm) ev m)
