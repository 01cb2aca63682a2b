-- ===== src/Multiplexer/Shutdown/Events.antt =====
-- An element of `buffer_events` that closes the input of its buffer: it comes from an event whose
-- flags tell of a hang-up and of no input.
use mipt_informatics.Base.{
  ℕ, zero, suc, ◌≡◌, refl, sym, ap, inl, inr, Bool, true, false, Bool-cases, Option-cases, List, [],
  ◌∷◌, ◌++◌, some, ◌==◌, if◌then◌else◌, arith,
}
use mathlib.Core.Path.{subst}
use mathlib.Core.Logic.Or
use mathlib.Core.List.{
  Mem, mem-cons_self, mem-cons_of_mem, mem-append, eq-or-mem_of_mem-cons, not-mem-nil,
}
use mipt_informatics.Multiplexer.{
  EpollEvent, BufferEvent, Child, reading, writing, exited, failed, System,
}
use mipt_informatics.Multiplexer.Events.{
  epoll_in, epoll_hup, epoll_fake, has_flag, consume_flag, inject, fresh, store_wr, store_rd, store,
  advance, has_room, Coalesced, filled, coalesce,
}
use mipt_informatics.Multiplexer.Actions.{closes_input}
use mipt_informatics.Multiplexer.Steps.{HasEnded, IsDrained, IsReported}

-- what `epoll_wait` promises of a hang-up
abbrev pub Tells : System → EpollEvent → Type 0
Tells s e =
    e.is_wr ≡ false
    → has_flag e.events epoll_in ≡ false
    → has_flag e.events epoll_hup ≡ true
    → IsDrained s e.buffer

-- The input of the buffer is closed only at the end of the bytes.
abbrev pub IsFinal : System → BufferEvent → Type 0
IsFinal s be = closes_input be ≡ true → IsDrained s be.buffer

abbrev pub AllFinal : System → List BufferEvent → Type 0
AllFinal s [] = Unit
AllFinal s (be ∷ bes) = IsFinal s be × AllFinal s bes

abbrev pub OnFilled : (List BufferEvent → Type 0) → Coalesced → Type 0
OnFilled P (filled bes) = P bes
OnFilled P _ = Unit

closes_input-store_rd :
    (events : ℕ) (be : BufferEvent)
    → closes_input (store_rd events be).0 ≡ true
    → (has_flag events epoll_in ≡ false) × (has_flag events epoll_hup ≡ true)
unfolding store_rd consume_flag
closes_input-store_rd events be e = ground arith

abbrev pub stored : EpollEvent → BufferEvent → BufferEvent × ℕ
stored ee be = if ee.is_wr then store_wr ee.events be else store_rd ee.events be

stored_rd-buffer : (events : ℕ) (be : BufferEvent) → (store_rd events be).0.buffer ≡ be.buffer
unfolding store_rd
stored_rd-buffer events be = refl

pub store-some :
    (ee : EpollEvent) (be be' : BufferEvent) → store ee be ≡ some be' → (stored ee be).0 ≡ be'
unfolding store
store-some ee be be' e = elim (Bool-cases ((stored ee be).1 == 0)) [
  | inl h ↦ ground arith
  | inr h ↦ ground arith
]

pub store-buffer :
    (ee : EpollEvent) (be be' : BufferEvent) → store ee be ≡ some be' → be'.buffer ≡ be.buffer
unfolding store_wr store_rd
store-buffer ee be be' e = elim (Bool-cases ee.is_wr) [
  | inl w ↦ ap (λ b. b.buffer) (sym (rw w at (store-some ee be be' e)))
  | inr r ↦ ap (λ b. b.buffer) (sym (rw r at (store-some ee be be' e)))
]

stored-IsFinal :
    (s : System) (ee : EpollEvent) (be : BufferEvent)
    → be.buffer ≡ ee.buffer
    → Tells s ee
    → IsFinal s be
    → IsFinal s (stored ee be).0
unfolding store_wr
stored-IsFinal s ee be same tells f = elim (Bool-cases ee.is_wr) [
  | inl w ↦ rw w f
  | inr r ↦ rw r (λ c.
      rw (stored_rd-buffer ee.events be, same)
        (tells r (closes_input-store_rd ee.events be c).0 (closes_input-store_rd ee.events be c).1))
]

pub advance-buffer : (b : ℕ) (bes : List BufferEvent) → (advance b bes).0.buffer ≡ b
unfolding advance fresh
advance-buffer b [] = refl
advance-buffer b (be ∷ bes) = ground arith

advance-IsFinal :
    (s : System) (b : ℕ) (bes : List BufferEvent)
    → AllFinal s bes
    → IsFinal s (advance b bes).0 × AllFinal s (advance b bes).1
unfolding advance fresh
advance-IsFinal s b [] f = (λ e. cc, tt)
advance-IsFinal s b (be ∷ bes) f = elim (Bool-cases (be.buffer == b)) [
  | inl e ↦ rw e f
  | inr e ↦ rw e (λ c. cc, f)
]

pub coalesce-AllFinal :
    (n : ℕ) (s : System) (ees : List EpollEvent) (bes : List BufferEvent)
    → ((e : EpollEvent) → Mem e ees → Tells s e)
    → AllFinal s bes
    → OnFilled (AllFinal s) (coalesce n ees bes)
unfolding coalesce
coalesce-AllFinal n s [] bes tells f = f
coalesce-AllFinal n s (ee ∷ ees) bes tells f = elim (Bool-cases (has_room n ee.buffer bes)) [
  | inr full ↦ rw (OnFilled, full) tt
  | inl room ↦ elim (Option-cases (store ee (advance ee.buffer bes).0)) [
    | inl e ↦ rw (OnFilled, room, e) tt
    | inr (be, e) ↦
        rw (OnFilled, room, e)
          (coalesce-AllFinal n s ees (be ∷ (advance ee.buffer bes).1)
            (λ x m. tells x (mem-cons_of_mem ee m))
            (
              subst (IsFinal s) (store-some ee _ be e) (
                  stored-IsFinal s ee _ (advance-buffer ee.buffer bes) (tells ee mem-cons_self)
                    (advance-IsFinal s ee.buffer bes f).0),
              (advance-IsFinal s ee.buffer bes f).1,
            ))
  ]
]

HasEnded-prop : (c : Child) → IsProp (HasEnded c)
HasEnded-prop reading = hlevel
HasEnded-prop (writing _) = hlevel
HasEnded-prop exited = hlevel
HasEnded-prop (failed _) = hlevel

IsDrained-prop : (s : System) (i : ℕ) → IsProp (IsDrained s i)
IsDrained-prop s zero = hlevel
IsDrained-prop s (suc i) = hlevel (HasEnded-prop (s.children i))

Tells-prop : (s : System) (e : EpollEvent) → IsProp (Tells s e)
Tells-prop s e = hlevel (IsDrained-prop s e.buffer)

-- the two fake events
abbrev pub rd_fake : EpollEvent
rd_fake = record { buffer = 0; is_wr = false; events = epoll_fake }

abbrev pub wr_fake : ℕ → EpollEvent
wr_fake n = record { buffer = n; is_wr = true; events = epoll_fake }

module _ (s : System) where
  AllTell : List EpollEvent → Type 0
  AllTell es = (e : EpollEvent) → Mem e es → Tells s e

  AllTell-nil : AllTell []
  unfolding AllTell
  AllTell-nil e m = absurd (not-mem-nil m)

  AllTell-cons : (e : EpollEvent) (es : List EpollEvent) → Tells s e → AllTell es → AllTell (e ∷ es)
  unfolding AllTell
  AllTell-cons e es t rest x m =
      Or.elim (Tells-prop s x) (eq-or-mem_of_mem-cons m) (λ q. subst (Tells s) (sym q) t) (rest x)

  AllTell-append : (xs ys : List EpollEvent) → AllTell xs → AllTell ys → AllTell (xs ++ ys)
  unfolding AllTell
  AllTell-append xs ys f g x m = Or.elim (Tells-prop s x) (mem-append.0 m) (f x) (g x)

  AllTell-if : (b : Bool) (e : EpollEvent) → Tells s e → AllTell (if b then e ∷ [] else [])
  AllTell-if true e t = AllTell-cons e [] t AllTell-nil
  AllTell-if false e t = AllTell-nil

  pub inject-Tells :
      (n : ℕ) (es : List EpollEvent)
      → ((e : EpollEvent) → Mem e es → IsReported n s e)
      → (e : EpollEvent) → Mem e (inject n s.buffers es)
      → Tells s e
  unfolding inject AllTell
  inject-Tells n es h =
      AllTell-append _ _
        (AllTell-append es _ (λ e m. (h e m).hang_up)
          (AllTell-if (s.buffers 0).rd_open rd_fake (λ a b c. cc)))
        (AllTell-if (s.buffers n).wr_open (wr_fake n) (λ a b c. cc))
