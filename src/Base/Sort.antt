-- ===== src/Base/Sort.antt =====
-- `sort`, a stable sort by a strict order.
use mathlib.Core.Bool.{true, false, Bool}
use mathlib.Core.List.{List, [], ◌∷◌}
use native.Mathlib.Omega.{arith}
use mathlib.Core.Path.{◌≡◌}
use mathlib.Core.Logic.{inl, inr}
use qev_platform.Base.Tests.{if◌then◌else◌, Bool-cases}
use qev_platform.Base.Lists.{All}

module _ {ℓ} {A : Type ℓ} (lt : A → A → Bool) where
  -- `x` comes from before the sorted rest, and goes behind what is smaller only.
  unfoldable pub put_sorted : A → List A → List A
  put_sorted x [] = x ∷ []
  put_sorted x (y ∷ ys) = if lt y x then y ∷ put_sorted x ys else x ∷ y ∷ ys

  unfoldable pub sort_by : List A → List A
  unfolding put_sorted
  sort_by [] = []
  sort_by (x ∷ xs) = put_sorted x (sort_by xs)

module _ {ℓ κ} {A : Type ℓ} (lt : A → A → Bool) (P : A → Type κ) where
  All-put_sorted : (x : A) (ys : List A) → P x → All P ys → All P (put_sorted lt x ys)
  unfolding put_sorted
  All-put_sorted x [] p h = (p, tt)
  All-put_sorted x (y ∷ ys) p h = ground (arith, All-put_sorted x ys p h.1)

  pub All-sort_by : (xs : List A) → All P xs → All P (sort_by lt xs)
  unfolding sort_by
  All-sort_by [] h = tt
  All-sort_by (x ∷ xs) h = All-put_sorted x (sort_by lt xs) h.0 (All-sort_by xs h.1)

-- No element is smaller than one before it.
module _ {ℓ} {A : Type ℓ} (lt : A → A → Bool) where
  abbrev pub IsSorted : List A → Type 0
  IsSorted [] = Unit
  IsSorted (x ∷ xs) = All (λ y. lt y x ≡ false) xs × IsSorted xs

module _ {ℓ κ} {A : Type ℓ} (lt : A → A → Bool) (P : A → Type κ) where
  All-of-put_sorted : (x : A) (ys : List A) → All P (put_sorted lt x ys) → P x × All P ys
  unfolding put_sorted
  All-of-put_sorted x [] h = h
  All-of-put_sorted x (y ∷ ys) h = elim (Bool-cases (lt y x)) [
    | inl e ↦
        let both : All P (y ∷ put_sorted lt x ys) = rw e at h in
        let rest = All-of-put_sorted x ys both.1 in (rest.0, (both.0, rest.1))
    | inr e ↦ let both : All P (x ∷ y ∷ ys) = rw e at h in both
  ]

  pub All-of-sort_by : (xs : List A) → All P (sort_by lt xs) → All P xs
  unfolding sort_by
  All-of-sort_by [] h = tt
  All-of-sort_by (x ∷ xs) h =
      let both = All-of-put_sorted x (sort_by lt xs) h in (both.0, All-of-sort_by xs both.1)

pub All-map {ℓ κ ι} :
    {A : Type ℓ} {P : A → Type κ} {Q : A → Type ι}
    → ((a : A) → P a → Q a)
    → (xs : List A) → All P xs
    → All Q xs
All-map f [] h = tt
All-map f (x ∷ xs) h = (f x h.0, All-map f xs h.1)

module _ {ℓ} {A : Type ℓ} (lt : A → A → Bool) (asym : (x y : A) → lt x y ≡ true → lt y x ≡ false)
    (negtrans : (x y z : A) → lt z y ≡ false → lt y x ≡ false → lt z x ≡ false) where
  put_sorted-IsSorted : (x : A) (ys : List A) → IsSorted lt ys → IsSorted lt (put_sorted lt x ys)
  unfolding put_sorted
  put_sorted-IsSorted x [] h = (tt, tt)
  put_sorted-IsSorted x (y ∷ ys) h = elim (Bool-cases (lt y x)) [
    | inl e ↦ rw e (
      All-put_sorted lt (λ z. lt z y ≡ false) x ys (asym y x e) h.0,
      put_sorted-IsSorted x ys h.1,
    )
    | inr e ↦ rw e ((e, All-map (λ z k. negtrans x y z k e) ys h.0), h)
  ]

  pub sort_by-IsSorted : (xs : List A) → IsSorted lt (sort_by lt xs)
  unfolding sort_by
  sort_by-IsSorted [] = tt
  sort_by-IsSorted (x ∷ xs) = put_sorted-IsSorted x (sort_by lt xs) (sort_by-IsSorted xs)
