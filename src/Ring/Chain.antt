-- ===== src/Ring/Chain.antt =====
-- Chains of nodes that are linked in both directions.
use mipt_informatics.Base.{ℕ, ◌≡◌, sym, ◌∙◌, ◌≢◌, List, [], ◌∷◌, map}
use mipt_informatics.Base.Int.{ℤ}
use mipt_informatics.Ring.{Store}

abbrev pub Fresh : ℕ → List ℕ → Type 0
Fresh t [] = Unit
Fresh t (x ∷ xs) = (t ≢ x) × Fresh t xs

abbrev pub Distinct : List ℕ → Type 0
Distinct [] = Unit
Distinct (x ∷ xs) = Fresh x xs × Distinct xs

-- from `a` over the nodes `xs` to `b`
abbrev pub Chain : Store → ℕ → List ℕ → ℕ → Type 0
Chain h a [] b = (h.next a ≡ b) × (h.prev b ≡ a)
Chain h a (x ∷ xs) b = (h.next a ≡ x) × (h.prev x ≡ a) × Chain h x xs b

abbrev pub last_of : ℕ → List ℕ → ℕ
last_of a [] = a
last_of a (x ∷ xs) = last_of x xs

pub Chain-last :
    (h : Store) (a : ℕ) (xs : List ℕ) (b : ℕ) → Chain h a xs b → h.prev b ≡ last_of a xs
Chain-last h a [] b c = c.1
Chain-last h a (x ∷ xs) b c = Chain-last h x xs b (c.2)

pub Fresh-last : (t a : ℕ) (xs : List ℕ) → t ≢ a → Fresh t xs → t ≢ last_of a xs
Fresh-last t a [] h f = h
Fresh-last t a (x ∷ xs) h f = Fresh-last t x xs f.0 f.1

-- a chain off the nodes that another store changes: `t` and, forwards, `p` and, backwards, `q`
pub Chain-frame :
    (h h' : Store) (a : ℕ) (xs : List ℕ) (b p q t : ℕ)
    → ((i : ℕ) → i ≢ p → i ≢ t → h'.next i ≡ h.next i)
    → ((i : ℕ) → i ≢ q → i ≢ t → h'.prev i ≡ h.prev i)
    → Fresh p (a ∷ xs)
    → Fresh q (b ∷ xs)
    → Fresh t (b ∷ a ∷ xs)
    → Chain h a xs b
    → Chain h' a xs b
Chain-frame h h' a [] b p q t n v fp fq ft c = (
  n a (λ e. fp.0 (sym e)) (λ e. ft.1.0 (sym e)) ∙ c.0,
  v b (λ e. fq.0 (sym e)) (λ e. ft.0 (sym e)) ∙ c.1,
)
Chain-frame h h' a (x ∷ xs) b p q t n v fp fq ft c = (
  n a (λ e. fp.0 (sym e)) (λ e. ft.1.0 (sym e)) ∙ c.0,
  v x (λ e. fq.1.0 (sym e)) (λ e. ft.1.1.0 (sym e)) ∙ c.1,
  Chain-frame h h' x xs b p q t n v fp.1 (fq.0, fq.1.1) (ft.0, ft.1.1) c.2,
)

-- a ring with the head `list` and the nodes `xs`, in order
pub record IsRing (h : Store) (list : ℕ) (xs : List ℕ) : Type 0 where
  pub chain : Chain h list xs list
  pub distinct : Distinct (list ∷ xs)

abbrev pub values : Store → List ℕ → List ℤ
values h xs = map h.value xs
