-- ===== src/Shared/Hash.antt =====
-- packages/shared/src/hash.ts: the comparison of two texts that looks at every position.
use Prim.Native.Nat.{bit_or, bit_xor}
use qev_platform.Base.{ℕ, Bool, false, List, [], ◌∷◌, eqb, length, if◌then◌else◌}

-- The loop over both texts as lists of UTF-16 code units, with the bits that differed so far.
unfoldable pub mixed : ℕ → List ℕ → List ℕ → ℕ
mixed out [] ys = out
mixed out (x ∷ xs) [] = mixed (bit_or out (bit_xor x 0)) xs []
mixed out (x ∷ xs) (y ∷ ys) = mixed (bit_or out (bit_xor x y)) xs ys

-- `a` and `b` are the code units of the texts.
unfoldable pub timing_safe_equal_hex : (a b : List ℕ) → Bool
unfolding mixed
timing_safe_equal_hex a b = if eqb (length a) (length b) then eqb (mixed 0 a b) 0 else false
