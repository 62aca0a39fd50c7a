-- ===== src/Base/Collisions.antt =====
-- Two texts with one hash, which the theorems on hashes leave as the only way out.
use Prim.Native.String.{String}
use mathlib.Core.Path.{◌≡◌}
use mathlib.Core.Logic.{◌≢◌, ◌⊎◌, inl, inr}
use mathlib.Core.Bool.{true}
use native.Mathlib.Omega.{arith}
use text.Mathlib.Text.{◌==◌}
use text.Mathlib.TextEquality.{eq_iff}
use qev_platform.Base.Tests.{Bool-cases}

module _ (sha256 : String → String) where
  -- Two texts with one digest.
  pub record Collision : Type 0 where
    pub first : String
    pub other : String
    pub differ : first ≢ other
    pub same : sha256 first ≡ sha256 other

  pub same_or_collision : (s t : String) → sha256 s ≡ sha256 t → (s ≡ t) ⊎ Collision
  same_or_collision s t h = elim (Bool-cases (s == t)) [
    | inl e ↦ inl ((eq_iff s t).0 e)
    | inr e ↦ inr (record {
      first = s;
      other = t;
      differ = λ p. let q : (s == t) ≡ true = (eq_iff s t).1 p in ground (arith, q, e);
      same = h;
    })
  ]
