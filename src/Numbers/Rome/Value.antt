-- ===== src/Numbers/Rome/Value.antt =====
-- The numeral of a number is read back as the number.
use mipt_informatics.Base.{
  ℕ, zero, suc, ◌+◌, ◌-◌, ◌*◌, ◌/◌, ◌%◌, ◌^◌, ◌≤◌, ◌<◌, ◌≡◌, refl, sym, ap, ◌∙◌, Bool-cases, none,
  some, inl, inr, List, [], ◌∷◌, arith, leb, ◌==◌, if◌then◌else◌,
}
use native.Mathlib.Nat.{mul-le-mul}
use mipt_informatics.Numbers.Rome.{read_rome_char, rome_loop, rome2arabic}

abbrev pub repeat : ℕ → ℕ → List ℕ → List ℕ
repeat zero c rest = rest
repeat (suc k) c rest = c ∷ repeat k c rest

-- a decimal digit in front of others, with the characters for 1, 5 and 10 of its place
abbrev pub figure : (one five ten : ℕ) → ℕ → List ℕ → List ℕ
figure one five ten d rest =
    if leb d 3
    then repeat d one rest
    else if d == 4
    then one ∷ five ∷ rest
    else if leb d 8
    then five ∷ repeat (d - 5) one rest
    else one ∷ ten ∷ rest

-- the numeral of a number below 4000
abbrev pub numeral : ℕ → List ℕ
numeral n = repeat (n / 1000) b'M' (
    figure b'C' b'D' b'M' (n / 100 % 10)
      (figure b'X' b'L' b'C' (n / 10 % 10) (figure b'I' b'V' b'X' (n % 10) [])))

-- what the loop makes of the characters: `value` and `last_digit`
abbrev Reads : List ℕ → ℕ → ℕ → Type 0
Reads word value last = rome_loop word ≡ some (value, last)

module _ (c u v l : ℕ) (rest : List ℕ) (e : read_rome_char c ≡ some u) (h : Reads rest v l) where
  rome_loop-adds : l ≤ u → v + u < 2 ^ 64 → Reads (c ∷ rest) (v + u) u
  unfolding rome_loop
  rome_loop-adds le small = rw (h, e) (ground (arith, le, small))

  rome_loop-subtracts : u < l → u ≤ v → v < 2 ^ 64 → Reads (c ∷ rest) (v - u) u
  unfolding rome_loop
  rome_loop-subtracts lt le small = rw (h, e) (ground (arith, lt, le, small))

repeat-adds :
    (c u : ℕ) (k v l : ℕ) (rest : List ℕ)
    → read_rome_char c ≡ some u
    → Reads rest v l
    → l ≤ u
    → v + k * u < 2 ^ 64
    → (l' : ℕ) × (l' ≤ u) × Reads (repeat k c rest) (v + k * u) l'
repeat-adds c u zero v l rest e h le small = (l, le, h ∙ ap (λ w. some (w, l)) (omega arith))
repeat-adds c u (suc k) v l rest e h le small =
    let (l', le', h') = repeat-adds c u k v l rest e h le (omega (arith, small)) in
    (
      u,
      omega arith,
      rome_loop-adds c u (v + k * u) l' (repeat k c rest) e h' le' (omega (arith, small))
          ∙ ap (λ w. some (w, u)) (omega arith),
    )

times-le : (d u : ℕ) → d < 10 → u ≤ 1000 → d * u ≤ 9000
times-le d u h k = mul-le-mul {n₂ = 9} {m₂ = 1000} (omega (arith, h)) k

times-four : (d u v : ℕ) → d ≡ 4 → v + 5 * u - u ≡ v + d * u
times-four d u v e =
    let at_four : v + 5 * u - u ≡ v + 4 * u = omega arith in at_four ∙ ap (λ k. v + k * u) (sym e)

times-nine : (d u v : ℕ) → d ≡ 9 → v + 10 * u - u ≡ v + d * u
times-nine d u v e =
    let at_nine : v + 10 * u - u ≡ v + 9 * u = omega arith in at_nine ∙ ap (λ k. v + k * u) (sym e)

times-more : (d m u v : ℕ) → d ≡ m + 5 → v + m * u + 5 * u ≡ v + d * u
times-more d m u v e =
    let sum : v + m * u + 5 * u ≡ v + (m + 5) * u = omega arith in sum ∙ ap (λ k. v + k * u) (sym e)

-- what a figure adds in front of lower places
figure-adds :
    (one five ten u d v l : ℕ) (rest : List ℕ)
    → read_rome_char one ≡ some u
    → read_rome_char five ≡ some (5 * u)
    → read_rome_char ten ≡ some (10 * u)
    → d < 10
    → 0 < u
    → u ≤ 1000
    → v < u
    → l < u
    → Reads rest v l
    → (l' : ℕ) × (l' < 10 * u) × Reads (figure one five ten d rest) (v + d * u) l'
figure-adds one five ten u d v l rest e1 e5 e10 ten_max p q vs ls h =
    let bound = times-le d u ten_max q in
    elim (Bool-cases (leb d 3)) [
      | inl low ↦
          let (l', le, h') =
            repeat-adds one u d v l rest e1 h (omega (arith, ls)) (omega (arith, bound, vs, q)) in
          (l', omega (arith, le, p), rw low h')
      | inr low ↦ elim (Bool-cases (d == 4)) [
        | inl four ↦
            let five_up =
              rome_loop-adds five (5 * u) v l rest e5 h (omega (arith, ls))
                (omega (arith, vs, q)) in
            let down =
              rome_loop-subtracts one u (v + 5 * u) (5 * u) (five ∷ rest) e1 five_up
                (omega (arith, p)) (omega arith) (omega (arith, vs, q)) in
            let is_four : d ≡ 4 = ground (arith, four) in
            (
              u,
              omega (arith, p),
              rw (low, four) (down ∙ ap (λ w. some (w, u)) (times-four d u v is_four)),
            )
        | inr four ↦ elim (Bool-cases (leb d 8)) [
          | inl mid ↦
              let m = d - 5 in
              let at_five : d ≡ m + 5 = ground (arith, low, four) in
              let few = times-le m u (omega (arith, ten_max)) q in
              let (l', le, h') =
                repeat-adds one u m v l rest e1 h (omega (arith, ls)) (omega (arith, few, vs, q)) in
              let up =
                rome_loop-adds five (5 * u) (v + m * u) l' (repeat m one rest) e5 h'
                  (omega (arith, le)) (omega (arith, few, vs, q)) in
              (
                5 * u,
                omega (arith, p),
                rw (low, four, mid) (up ∙ ap (λ w. some (w, 5 * u)) (times-more d m u v at_five)),
              )
          | inr mid ↦
              let ten_up =
                rome_loop-adds ten (10 * u) v l rest e10 h (omega (arith, ls))
                  (omega (arith, vs, q)) in
              let down =
                rome_loop-subtracts one u (v + 10 * u) (10 * u) (ten ∷ rest) e1 ten_up
                  (omega (arith, p)) (omega arith) (omega (arith, vs, q)) in
              let is_nine : d ≡ 9 = ground (arith, mid, ten_max) in
              (
                u,
                omega (arith, p),
                rw (low, four, mid) (down ∙ ap (λ w. some (w, u)) (times-nine d u v is_nine)),
              )
        ]
      ]
    ]

rome2arabic-Reads : (word : List ℕ) (v l : ℕ) → Reads word v l → 0 < v → rome2arabic word ≡ some v
unfolding rome2arabic
rome2arabic-Reads [] v l h p =
    let e : 0 ≡ v = ap (λ o. elim o [ none ↦ 0 | some (w, k) ↦ w ]) h in
    absurd (omega (arith, e, p))
rome2arabic-Reads (c ∷ word) v l h p = rw h

-- The program reads the Roman numeral of a number from 1 to 3999 back as the number.
pub rome2arabic-numeral : (n : ℕ) → 0 < n → n < 4000 → rome2arabic (numeral n) ≡ some n
unfolding read_rome_char rome_loop
rome2arabic-numeral n p small =
    let (l1, b1, h1) =
      figure-adds b'I' b'V' b'X' 1 (n % 10) 0 0 [] refl refl refl (omega arith) (omega arith)
        (omega arith) (omega arith) (omega arith) refl in
    let v1 = 0 + n % 10 * 1 in
    let (l2, b2, h2) =
      figure-adds b'X' b'L' b'C' 10 (n / 10 % 10) v1 l1 (figure b'I' b'V' b'X' (n % 10) []) refl
        refl refl (omega arith) (omega arith) (omega arith) (omega arith) (omega (arith, b1)) h1 in
    let v2 = v1 + n / 10 % 10 * 10 in
    let tens = figure b'X' b'L' b'C' (n / 10 % 10) (figure b'I' b'V' b'X' (n % 10) []) in
    let (l3, b3, h3) =
      figure-adds b'C' b'D' b'M' 100 (n / 100 % 10) v2 l2 tens refl refl refl (omega arith)
        (omega arith) (omega arith) (omega arith) (omega (arith, b2)) h2 in
    let v3 = v2 + n / 100 % 10 * 100 in
    let (l4, b4, h4) =
      repeat-adds b'M' 1000 (n / 1000) v3 l3 (figure b'C' b'D' b'M' (n / 100 % 10) tens) refl h3
        (omega (arith, b3)) (omega (arith, small)) in
    let all : v3 + n / 1000 * 1000 ≡ n = omega arith in
    rome2arabic-Reads (numeral n) n l4 (h4 ∙ ap (λ w. some (w, l4)) all) p
