-- ===== src/Base/Text.antt =====
-- Texts: truth values, the order of UTF-16 code units, searching, and decimal numerals.
use Prim.Native.Nat.{ℕ, zero, suc, ◌+◌, ◌-◌, ◌/◌, ◌%◌}
use Prim.Native.Char.{code}
use Prim.Native.String
use Prim.Native.String.{String}
use mathlib.Core.Path.{◌≡◌, refl}
use mathlib.Core.Bool.{Bool, true, false, not, ◌&&◌, ◌||◌}
use mathlib.Core.List.{List, [], ◌∷◌, ◌++◌}
use native.Mathlib.Omega.{arith}
use text.Mathlib.Text.{◌==◌}
use qev_platform.Base.Tests.{ltb, eqb, if◌then◌else◌}

-- Concatenation of texts, which template literals use.
infixl 65 ◌<>◌
abbrev pub ◌<>◌ : String → String → String
s <> t = String.◌++◌ s t

-- A text is false in a test when it is empty.
abbrev pub truthy : String → Bool
truthy s = not (s == "")

-- The code points of a text.
abbrev pub codes : String → List ℕ
codes String.[] = []
codes (String.◌∷◌ c s) = code c ∷ codes s

-- The UTF-16 code units of a code point.
abbrev utf16_units : ℕ → List ℕ
utf16_units c =
    if ltb c 0x10000
    then c ∷ []
    else (0xd800 + (c - 0x10000) / 0x400) ∷ (0xdc00 + (c - 0x10000) % 0x400) ∷ []

abbrev utf16 : List ℕ → List ℕ
utf16 [] = []
utf16 (c ∷ cs) = utf16_units c ++ utf16 cs

abbrev lex_lt : List ℕ → List ℕ → Bool
lex_lt [] [] = false
lex_lt [] (y ∷ ys) = true
lex_lt (x ∷ xs) [] = false
lex_lt (x ∷ xs) (y ∷ ys) = ltb x y || (eqb x y && lex_lt xs ys)

-- `s < t` on texts, which is also the order of `sort()`.
unfoldable pub text_lt : String → String → Bool
text_lt s t = lex_lt (utf16 (codes s)) (utf16 (codes t))

abbrev begins : List ℕ → List ℕ → Bool
begins [] t = true
begins (x ∷ xs) [] = false
begins (x ∷ xs) (y ∷ ys) = eqb x y && begins xs ys

abbrev occurs : List ℕ → List ℕ → Bool
occurs s [] = begins s []
occurs s (y ∷ ys) = begins s (y ∷ ys) || occurs s ys

-- `t.includes(s)`
unfoldable pub includes : String → String → Bool
includes t s = occurs (codes s) (codes t)

lex_lt_irrefl : (xs : List ℕ) → lex_lt xs xs ≡ false
lex_lt_irrefl [] = refl
lex_lt_irrefl (x ∷ xs) = ground (arith, lex_lt_irrefl xs)

pub text_lt_irrefl : (s : String) → text_lt s s ≡ false
unfolding text_lt
text_lt_irrefl s = lex_lt_irrefl (utf16 (codes s))

lex_lt_trans : (xs ys zs : List ℕ) → lex_lt xs ys ≡ true → lex_lt ys zs ≡ true → lex_lt xs zs ≡ true
lex_lt_trans [] [] zs h k = cc
lex_lt_trans [] (y ∷ ys) [] h k = cc
lex_lt_trans [] (y ∷ ys) (z ∷ zs) h k = refl
lex_lt_trans (x ∷ xs) [] zs h k = cc
lex_lt_trans (x ∷ xs) (y ∷ ys) [] h k = cc
lex_lt_trans (x ∷ xs) (y ∷ ys) (z ∷ zs) h k = ground (arith, lex_lt_trans xs ys zs)

pub text_lt_trans : (s t u : String) → text_lt s t ≡ true → text_lt t u ≡ true → text_lt s u ≡ true
unfolding text_lt
text_lt_trans s t u h k = lex_lt_trans (utf16 (codes s)) (utf16 (codes t)) (utf16 (codes u)) h k

lex_lt_asym : (xs ys : List ℕ) → lex_lt xs ys ≡ true → lex_lt ys xs ≡ false
lex_lt_asym [] [] h = refl
lex_lt_asym [] (y ∷ ys) h = refl
lex_lt_asym (x ∷ xs) [] h = cc
lex_lt_asym (x ∷ xs) (y ∷ ys) h = ground (arith, lex_lt_asym xs ys)

lex_lt_negtrans :
    (xs ys zs : List ℕ) → lex_lt zs ys ≡ false → lex_lt ys xs ≡ false → lex_lt zs xs ≡ false
lex_lt_negtrans [] ys [] h k = refl
lex_lt_negtrans [] ys (z ∷ zs) h k = refl
lex_lt_negtrans (x ∷ xs) [] zs h k = cc
lex_lt_negtrans (x ∷ xs) (y ∷ ys) [] h k = cc
lex_lt_negtrans (x ∷ xs) (y ∷ ys) (z ∷ zs) h k = ground (arith, lex_lt_negtrans xs ys zs)

pub text_lt_asym : (s t : String) → text_lt s t ≡ true → text_lt t s ≡ false
unfolding text_lt
text_lt_asym s t h = lex_lt_asym (utf16 (codes s)) (utf16 (codes t)) h

pub text_lt_negtrans :
    (s t u : String) → text_lt u t ≡ false → text_lt t s ≡ false → text_lt u s ≡ false
unfolding text_lt
text_lt_negtrans s t u h k =
    lex_lt_negtrans (utf16 (codes s)) (utf16 (codes t)) (utf16 (codes u)) h k

abbrev digit : ℕ → String
digit n =
    if eqb n 0
    then "0"
    else if eqb n 1
    then "1"
    else if eqb n 2
    then "2"
    else if eqb n 3
    then "3"
    else if eqb n 4
    then "4"
    else if eqb n 5
    then "5"
    else if eqb n 6
    then "6"
    else if eqb n 7
    then "7"
    else if eqb n 8
    then "8"
    else "9"

decimal_fuel : ℕ → ℕ → String
decimal_fuel zero n = ""
decimal_fuel (suc f) n =
    let more = decimal_fuel f (n / 10) <> digit (n % 10) in if ltb n 10 then digit n else more

-- The decimal numeral of a number, as in `${n}`; a number has fewer digits than its successor counts.
unfoldable pub decimal : ℕ → String
unfolding decimal_fuel
decimal n = decimal_fuel (suc n) n

decimal_tests : (decimal 0 ≡ "0") × (decimal 7203 ≡ "7203")
unfolding decimal
decimal_tests = (refl, refl)

text_order_tests : (text_lt "a.json" "b.json" ≡ true) × (text_lt "ab" "a" ≡ false)
unfolding text_lt
text_order_tests = (refl, refl)

includes_tests : (includes "db-backup.tar" "backup" ≡ true) × (includes "back" "backup" ≡ false)
unfolding includes
includes_tests = (refl, refl)
