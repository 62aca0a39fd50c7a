-- ===== src/Base/Maps.antt =====
-- A `Map` with text keys, and a directory of files, as an association list in insertion order.
use Prim.Native.String.{String}
use mathlib.Core.Path.{◌≡◌, refl, sym, subst}
use mathlib.Core.Logic.{inl, inr}
use mathlib.Core.Bool.{true}
use mathlib.Core.Option.{Option, none, some}
use mathlib.Core.List.{List, [], ◌∷◌}
use native.Mathlib.Omega.{arith}
use text.Mathlib.Text.{◌==◌}
use text.Mathlib.TextEquality.{eq_iff}
use text.Mathlib.TextPositions.{eq_refl}
use qev_platform.Base.Tests.{if◌then◌else◌, is_some, Bool-cases}
use qev_platform.Base.Lists.{All}

abbrev pub Assoc {ℓ} : Type ℓ → Type ℓ
Assoc V = List (String × V)

module _ {ℓ} {V : Type ℓ} where
  -- map.get(key)
  unfoldable pub lookup : (key : String) (entries : Assoc V) → Option V
  lookup key [] = none
  lookup key ((name, value) ∷ rest) = if name == key then some value else lookup key rest

  -- map.set(key, value): a key that is present keeps its place.
  unfoldable pub insert : (key : String) (value : V) (entries : Assoc V) → Assoc V
  insert key value [] = (key, value) ∷ []
  insert key value ((name, old) ∷ rest) =
      let behind = insert key value rest in
      if name == key then (name, value) ∷ rest else (name, old) ∷ behind

  -- map.delete(key)
  unfoldable pub erase : (key : String) (entries : Assoc V) → Assoc V
  erase key [] = []
  erase key ((name, value) ∷ rest) =
      let behind = erase key rest in if name == key then behind else (name, value) ∷ behind

  pub lookup-insert :
      (key asked : String) (value : V) (entries : Assoc V)
      → lookup asked (insert key value entries)
        ≡ (if key == asked then some value else lookup asked entries)
  unfolding lookup insert
  lookup-insert key asked value [] = refl
  lookup-insert key asked value ((name, old) ∷ rest) =
      let behind = lookup-insert key asked value rest in
      ground (arith, behind, eq_iff name key, eq_iff name asked, eq_iff key asked)

  pub lookup-erase :
      (key asked : String) (entries : Assoc V)
      → lookup asked (erase key entries) ≡ (if key == asked then none else lookup asked entries)
  unfolding lookup erase
  lookup-erase key asked [] = ground arith
  lookup-erase key asked ((name, value) ∷ rest) =
      let behind = lookup-erase key asked rest in
      ground (arith, behind, eq_iff name key, eq_iff name asked, eq_iff key asked)

-- Every key of an association list is found.
module _ {ℓ} {V : Type ℓ} where
  All-lookup_cons :
      (j : String) (w : V) (es m : Assoc V)
      → All (λ e. is_some (lookup e.0 m) ≡ true) es
      → All (λ e. is_some (lookup e.0 ((j, w) ∷ m)) ≡ true) es
  unfolding lookup
  All-lookup_cons j w [] m h = tt
  All-lookup_cons j w ((k, v) ∷ es) m h = (ground arith, All-lookup_cons j w es m h.1)

  pub All-lookup : (m : Assoc V) → All (λ e. is_some (lookup e.0 m) ≡ true) m
  unfolding lookup
  All-lookup [] = tt
  All-lookup ((k, v) ∷ m) = (rw eq_refl, All-lookup_cons k v m m (All-lookup m))

module _ {ℓ κ} {V : Type ℓ} (P : String × V → Type κ) where
  pub All-insert : (k : String) (v : V) (m : Assoc V) → P (k, v) → All P m → All P (insert k v m)
  unfolding insert
  All-insert k v [] p h = (p, tt)
  All-insert k v ((j, w) ∷ m) p h = elim (Bool-cases (j == k)) [
    | inl e ↦ rw e (subst (λ n. P (n, v)) (sym ((eq_iff j k).0 e)) p, h.1)
    | inr e ↦ rw e (h.0, All-insert k v m p h.1)
  ]

  pub All-erase : (k : String) (m : Assoc V) → All P m → All P (erase k m)
  unfolding erase
  All-erase k [] h = tt
  All-erase k ((j, w) ∷ m) h = ground (arith, All-erase k m h.1)

  pub lookup-All : (k : String) {v : V} (m : Assoc V) → lookup k m ≡ some v → All P m → P (k, v)
  unfolding lookup
  lookup-All k [] e h = cc
  lookup-All k {v} ((j, w) ∷ m) e h = elim (Bool-cases (j == k)) [
    | inl here ↦
        let found : some w ≡ some v = rw here at e in
        let same : w ≡ v = cc in rw (← (eq_iff j k).0 here, ← same) h.0
    | inr off ↦ let rest : lookup k m ≡ some v = rw off at e in lookup-All k m rest h.1
  ]
