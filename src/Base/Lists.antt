-- ===== src/Base/Lists.antt =====
-- The array operations of the source, over the native numbers and Boolean tests.
use Prim.Native.Nat.{ℕ, zero, suc, ◌+◌, ◌≤◌}
use Prim.Native.String.{String}
use mathlib.Core.Path.{◌≡◌, refl, ap}
use mathlib.Core.Logic.{◌↔◌, inl, inr}
use mathlib.Core.Bool.{Bool, true, false, not, ◌&&◌, ◌||◌}
use mathlib.Core.Option.{Option, none, some}
use mathlib.Core.List.{List, [], ◌∷◌, ◌++◌, map}
use native.Mathlib.Omega.{arith}
use text.Mathlib.Text.{◌==◌}
use text.Mathlib.TextEquality.{eq_iff}
use qev_platform.Base.Tests.{eqb, if◌then◌else◌, Bool-cases}

abbrev pub All {ℓ κ} : {A : Type ℓ} → (A → Type κ) → List A → Type κ
All P [] = Unit
All P (x ∷ xs) = P x × All P xs

module _ {ℓ} {A : Type ℓ} where
  abbrev pub length : List A → ℕ
  length [] = 0
  length (x ∷ xs) = suc (length xs)

  -- xs[i]
  abbrev pub get_elem? : List A → ℕ → Option A
  get_elem? [] i = none
  get_elem? (x ∷ xs) zero = some x
  get_elem? (x ∷ xs) (suc i) = get_elem? xs i

  abbrev pub filter : (A → Bool) → List A → List A
  filter p [] = []
  filter p (x ∷ xs) = let rest = filter p xs in if p x then x ∷ rest else rest

  -- xs.some(p) and xs.every(p)
  abbrev pub any : (A → Bool) → List A → Bool
  any p [] = false
  any p (x ∷ xs) = p x || any p xs

  abbrev pub all : (A → Bool) → List A → Bool
  all p [] = true
  all p (x ∷ xs) = p x && all p xs

  -- xs[xs.length - 1]
  abbrev pub get_last? : List A → Option A
  get_last? [] = none
  get_last? (x ∷ []) = some x
  get_last? (x ∷ y ∷ ys) = get_last? (y ∷ ys)

  abbrev pub take : ℕ → List A → List A
  take zero xs = []
  take (suc n) [] = []
  take (suc n) (x ∷ xs) = x ∷ take n xs

  pub take-nil : (n : ℕ) → take n [] ≡ []
  take-nil zero = refl
  take-nil (suc n) = refl

  pub take-length : (xs : List A) → take (length xs) xs ≡ xs
  take-length [] = refl
  take-length (x ∷ xs) = rw (take-length xs)

  pub length-append : (xs ys : List A) → length (xs ++ ys) ≡ length xs + length ys
  length-append [] ys = omega arith
  length-append (x ∷ xs) ys = omega (arith, length-append xs ys)

  pub length-filter-le : (p : A → Bool) (xs : List A) → length (filter p xs) ≤ length xs
  length-filter-le p [] = omega arith
  length-filter-le p (x ∷ xs) = ground (arith, length-filter-le p xs)

  pub length-filter-zero :
      (p : A → Bool) (xs : List A)
      → (eqb (length (filter p xs)) 0 ≡ true) ↔ All (λ x. p x ≡ false) xs
  length-filter-zero p [] = ((λ _. tt), (λ _. refl))
  length-filter-zero p (x ∷ xs) = elim (Bool-cases (p x)) [
    | inl e ↦ rw e ((λ h. absurd (ground (arith, h))), (λ h. absurd (ground (arith, h.0))))
    | inr e ↦
        rw e ((λ h. (refl, (length-filter-zero p xs).0 h)), (λ h. (length-filter-zero p xs).1 h.1))
  ]

  pub length-filter-not :
      (p : A → Bool) (xs : List A)
      → length (filter p xs) + length (filter (λ x. not (p x)) xs) ≡ length xs
  length-filter-not p [] = omega arith
  length-filter-not p (x ∷ xs) = ground (arith, length-filter-not p xs)

abbrev pub flat_map {ℓ κ} : {A : Type ℓ} {B : Type κ} → (A → List B) → List A → List B
flat_map f [] = []
flat_map f (x ∷ xs) = f x ++ flat_map f xs

pub length-map {ℓ κ} :
    {A : Type ℓ} {B : Type κ} (f : A → B) (xs : List A) → length (map f xs) ≡ length xs
length-map f [] = refl
length-map f (x ∷ xs) = ap suc (length-map f xs)

-- xs.includes(a), and `has` of a `Set` made from xs
abbrev pub contains : List String → String → Bool
contains [] a = false
contains (x ∷ xs) a = x == a || contains xs a

pub All-append {ℓ κ} :
    {A : Type ℓ} (P : A → Type κ) (front back : List A)
    → All P front
    → All P back
    → All P (front ++ back)
All-append P [] back first rest = rest
All-append P (x ∷ front) back (here, first) rest = (here, All-append P front back first rest)

pub All-append_iff {ℓ κ} :
    {A : Type ℓ} (P : A → Type κ) (xs ys : List A) → All P (xs ++ ys) ↔ (All P xs × All P ys)
All-append_iff P [] ys = ((λ h. (tt, h)), (λ h. h.1))
All-append_iff P (x ∷ xs) ys = (
  (λ h. let both = (All-append_iff P xs ys).0 h.1 in ((h.0, both.0), both.1)),
  (λ h. (h.0.0, (All-append_iff P xs ys).1 (h.0.1, h.1))),
)

pub contains-append :
    (xs ys : List String) (a : String) → contains (xs ++ ys) a ≡ (contains xs a || contains ys a)
contains-append [] ys a = refl
contains-append (x ∷ xs) ys a = ground (arith, contains-append xs ys a)

-- The values of a `Set` made from xs, in order of first insertion.
abbrev pub distinct_onto : List String → List String → List String
distinct_onto seen [] = seen
distinct_onto seen (x ∷ xs) = distinct_onto (if contains seen x then seen else seen ++ x ∷ []) xs

abbrev pub distinct : List String → List String
distinct xs = distinct_onto [] xs

contains-add :
    (seen : List String) (x a : String)
    → contains (if contains seen x then seen else seen ++ x ∷ []) a ≡ (contains seen a || x == a)
contains-add seen x a = elim (Bool-cases (contains seen x)) [
  | inl old ↦ rw old (elim (Bool-cases (x == a)) [
    | inl e ↦ ground (arith, (eq_iff x a).0 e, ap (contains seen) ((eq_iff x a).0 e))
    | inr e ↦ ground arith
  ])
  | inr new ↦ rw new (ground (arith, contains-append seen (x ∷ []) a))
]

pub contains-distinct_onto :
    (seen xs : List String) (a : String)
    → contains (distinct_onto seen xs) a ≡ (contains seen a || contains xs a)
contains-distinct_onto seen [] a = ground arith
contains-distinct_onto seen (x ∷ xs) a = ground (
  arith,
  contains-add seen x a,
  contains-distinct_onto (if contains seen x then seen else seen ++ x ∷ []) xs a,
)

pub contains-distinct : (xs : List String) (a : String) → contains (distinct xs) a ≡ contains xs a
contains-distinct xs a = contains-distinct_onto [] xs a
