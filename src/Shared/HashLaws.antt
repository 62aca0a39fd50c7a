-- ===== src/Shared/HashLaws.antt =====
-- packages/shared/src/hash.ts: what the comparison at every position decides.
use Prim.Native.Nat.{bit_or, bit_xor, bit_or-bitwise, bit_xor-bitwise, digits, differ, max}
use qev_platform.Base.{
  ℕ, zero, suc, ◌%◌, ◌/◌, ◌≤◌, ◌≡◌, ◌↔◌, refl, true, List, [], ◌∷◌, length, arith,
}
use qev_platform.Shared.Hash.{mixed, timing_safe_equal_hex}

differ_zero : (x y : ℕ) → differ x y ≡ 0 → x ≡ y
differ_zero zero y h = omega (arith, h)
differ_zero (suc x) zero h = absurd (omega (arith, h))
differ_zero (suc x) (suc y) h = omega (arith, differ_zero x y h)

differ_same : (x : ℕ) → differ x x ≡ 0
differ_same zero = refl
differ_same (suc x) = differ_same x

xor_digits : (n a b : ℕ) → a ≤ n → digits (λ b. b) differ n a b ≡ 0 → a ≡ b
xor_digits zero zero b h e = omega (arith, e)
xor_digits zero (suc a) b h e = absurd (omega arith)
xor_digits (suc n) zero b h e = omega (arith, e)
xor_digits (suc n) (suc a) b h e = omega (
  arith,
  e,
  xor_digits n (suc a / 2) (b / 2) (omega arith) (omega (arith, e)),
  differ_zero (suc a % 2) (b % 2) (omega (arith, e)),
)

xor_same : (n a : ℕ) → a ≤ n → digits (λ b. b) differ n a a ≡ 0
xor_same zero zero h = refl
xor_same zero (suc a) h = absurd (omega arith)
xor_same (suc n) zero h = refl
xor_same (suc n) (suc a) h =
    omega (arith, xor_same n (suc a / 2) (omega arith), differ_same (suc a % 2))

bit_xor_zero : (a b : ℕ) → (bit_xor a b ≡ 0) ↔ (a ≡ b)
bit_xor_zero a b = (
  (λ h. xor_digits a a b (omega arith) (omega (arith, h, bit_xor-bitwise a b))),
  (λ e. rw (← e) (omega (arith, bit_xor-bitwise a a, xor_same a a (omega arith)))),
)

max_zero : (x y : ℕ) → max x y ≡ 0 → (x ≡ 0) × (y ≡ 0)
max_zero x y h = (omega arith, omega arith)

or_digits : (n a b : ℕ) → a ≤ n → digits (λ b. b) max n a b ≡ 0 → (a ≡ 0) × (b ≡ 0)
or_digits zero zero b h e = (refl, e)
or_digits zero (suc a) b h e = absurd (omega arith)
or_digits (suc n) zero b h e = (refl, e)
or_digits (suc n) (suc a) b h e =
    let halves = or_digits n (suc a / 2) (b / 2) (omega arith) (omega (arith, e)) in
    (omega (arith, halves.0, e), omega (arith, halves.1, e))

bit_or_zero : (a b : ℕ) → bit_or a b ≡ 0 → (a ≡ 0) × (b ≡ 0)
bit_or_zero a b h = or_digits a a b (omega arith) (omega (arith, h, bit_or-bitwise a b))

mixed_zero :
    (out : ℕ) (a b : List ℕ) → length a ≡ length b → mixed out a b ≡ 0 → (out ≡ 0) × (a ≡ b)
unfolding mixed
mixed_zero out [] [] n h = (h, refl)
mixed_zero out [] (y ∷ ys) n h = absurd (omega (arith, n))
mixed_zero out (x ∷ xs) [] n h = absurd (omega (arith, n))
mixed_zero out (x ∷ xs) (y ∷ ys) n h =
    let rest = mixed_zero (bit_or out (bit_xor x y)) xs ys (omega (arith, n)) h in
    let both = bit_or_zero out (bit_xor x y) rest.0 in
    (both.0, rw ((bit_xor_zero x y).0 both.1, rest.1) refl)

mixed_same : (a : List ℕ) → mixed 0 a a ≡ 0
unfolding mixed
mixed_same [] = refl
mixed_same (x ∷ xs) = rw ((bit_xor_zero x x).1 refl) (mixed_same xs)

-- The comparison that looks at every position says yes exactly for two equal texts.
pub timing_safe_equal_hex_iff : (a b : List ℕ) → (timing_safe_equal_hex a b ≡ true) ↔ (a ≡ b)
unfolding timing_safe_equal_hex
timing_safe_equal_hex_iff a b = (
  (λ h. let n : length a ≡ length b = ground arith in (mixed_zero 0 a b n (ground (arith, n))).1),
  (λ e. rw (← e) (ground (arith, mixed_same a))),
)
