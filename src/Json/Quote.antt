-- ===== src/Json/Quote.antt =====
-- packages/shared/src/canonical.ts: the texts that JSON.stringify writes, read back by the grammar of JSON.
use Prim.Native.Char.{Char, code}
use text.Mathlib.TextEquality.{Char-path}
use text.Mathlib.TextLemmas.{nil-append, cons-append, append_assoc, tail-eq_of_cons-eq}
use qev_platform.Base.{
  codes, ℕ, zero, suc, ◌+◌, ◌*◌, ◌-◌, ◌/◌, ◌%◌, ◌<◌, String, ◌≡◌, refl, Bool, true, ◌&&◌, Option,
  none, some, List, [], ◌∷◌, decimal, eq_iff, ◌==◌, and_left, and_right, ap, ltb, leb, eqb, ◌<>◌,
  if◌then◌else◌, arith, inl, inr, Bool-cases, sym, ◌∙◌,
}
use qev_platform.Json.{hex_digit, escape, escaped, quote}

-- The value of a hexadecimal digit.
abbrev hex_value : ℕ → ℕ
hex_value n = if leb n 0x39 then n - 0x30 else n - 0x57

-- What the character after a backslash stands for.
abbrev unescape : ℕ → ℕ
unescape n =
    if eqb n 0x62
    then 8
    else if eqb n 0x74
    then 9
    else if eqb n 0x6e
    then 10
    else if eqb n 0x66
    then 12
    else if eqb n 0x72
    then 13
    else n

pub data Mode : Type 0 where
  plain after_backslash : Mode
  hex : (missing value : ℕ) → Mode

abbrev push : ℕ → Option (List ℕ × String) → Option (List ℕ × String)
push c none = none
push c (some (cs, rest)) = some (c ∷ cs, rest)

-- The code points of a JSON text up to its closing quote, and what stands behind it.
unfoldable pub read : Mode → String → Option (List ℕ × String)
read mode String.[] = none
read plain (String.◌∷◌ c s) =
    let next = read plain s in
    let escape_next = read after_backslash s in
    if eqb (code c) 0x22
    then some ([], s)
    else if eqb (code c) 0x5c
    then escape_next
    else push (code c) next
read after_backslash (String.◌∷◌ c s) =
    let next = read plain s in
    let hex_next = read (hex 4 0) s in
    if eqb (code c) 0x75 then hex_next else push (unescape (code c)) next
read (hex zero value) (String.◌∷◌ c s) = none
read (hex (suc zero) value) (String.◌∷◌ c s) = push (16 * value + hex_value (code c)) (read plain s)
read (hex (suc (suc missing)) value) (String.◌∷◌ c s) =
    read (hex (suc missing) (16 * value + hex_value (code c))) s

one_char : (a : Char) (t : String) → String.◌∷◌ a "" <> t ≡ String.◌∷◌ a t
one_char a t = cons-append a "" t ∙ rw (nil-append t) refl

two_chars :
    (a b : Char) (t : String) → String.◌∷◌ a (String.◌∷◌ b "") <> t ≡ String.◌∷◌ a (String.◌∷◌ b t)
two_chars a b t = cons-append a (String.◌∷◌ b "") t ∙ rw (one_char b t) refl

-- The digit of a hexadecimal numeral, with a check of all of them.
abbrev first_char : String → Char
first_char String.[] = "0"
first_char (String.◌∷◌ c s) = c

abbrev is_hex_digit : ℕ → Bool
is_hex_digit m =
    hex_digit m == String.◌∷◌ (first_char (hex_digit m)) ""
    && eqb (hex_value (code (first_char (hex_digit m)))) m

abbrev all_below : ℕ → (ℕ → Bool) → Bool
all_below zero p = true
all_below (suc n) p = p n && all_below n p

all_below_lem : (n : ℕ) (p : ℕ → Bool) (m : ℕ) → all_below n p ≡ true → m < n → p m ≡ true
all_below_lem zero p m h lt = absurd (omega arith)
all_below_lem (suc n) p m h lt = ground (arith, all_below_lem n p m)

hex_digits : all_below 16 is_hex_digit ≡ true
unfolding decimal
hex_digits = refl

hex_char :
    (m : ℕ) → m < 16 → (d : Char) × (hex_digit m ≡ String.◌∷◌ d "") × (hex_value (code d) ≡ m)
hex_char m h =
    let both : is_hex_digit m ≡ true = all_below_lem 16 is_hex_digit m hex_digits h in
    let d = first_char (hex_digit m) in
    let right : eqb (hex_value (code d)) m ≡ true = and_right _ _ both in
    let found : hex_value (code d) ≡ m = ground (arith, right) in
    (d, (eq_iff (hex_digit m) (String.◌∷◌ d "")).0 (and_left _ _ both), found)

unicode_prefix :
    (x : String)
    → "\\u00" <> x ≡ String.◌∷◌ "\\" (String.◌∷◌ "u" (String.◌∷◌ "0" (String.◌∷◌ "0" x)))
unicode_prefix x =
    cons-append "\\" "u00" x
    ∙ ap (String.◌∷◌ "\\") (
        cons-append "u" "00" x
        ∙ ap (String.◌∷◌ "u") (cons-append "0" "0" x ∙ ap (String.◌∷◌ "0") (one_char "0" x)))

hex_escape :
    (a b : Char) (t : String)
    → "\\u00" <> String.◌∷◌ a "" <> String.◌∷◌ b "" <> t
      ≡ String.◌∷◌ "\\"
          (String.◌∷◌ "u" (String.◌∷◌ "0" (String.◌∷◌ "0" (String.◌∷◌ a (String.◌∷◌ b t)))))
hex_escape a b t =
    let last = String.◌∷◌ b "" in
    let first = String.◌∷◌ a "" in
    rw
      (
        append_assoc ("\\u00" <> first) last t,
        append_assoc "\\u00" first (last <> t),
        unicode_prefix (first <> (last <> t)),
        one_char a (last <> t),
        one_char b t,
      )
      refl

read-digits :
    (n p q : ℕ) (a b : Char) (t : String)
    → hex_digit p ≡ String.◌∷◌ a ""
    → hex_digit q ≡ String.◌∷◌ b ""
    → hex_value (code a) ≡ p
    → hex_value (code b) ≡ q
    → 16 * (0 + p) + q ≡ n
    → read plain ("\\u00" <> hex_digit p <> hex_digit q <> t) ≡ push n (read plain t)
unfolding read
read-digits n p q a b t is_a is_b va vb whole =
    rw (is_a, is_b, hex_escape a b t) (rw (va, vb, whole) refl)

read-low :
    (n : ℕ) (t : String)
    → n < 0x20
    → read plain ("\\u00" <> hex_digit (n / 16) <> hex_digit (n % 16) <> t) ≡ push n (read plain t)
read-low n t low =
    let (a, is_a, va) = hex_char (n / 16) (omega arith) in
    let (b, is_b, vb) = hex_char (n % 16) (omega arith) in
    read-digits n (n / 16) (n % 16) a b t is_a is_b va vb (omega arith)

read-escape :
    (c : Char) (t : String)
    → read plain (escape (code c) (String.◌∷◌ c "") <> t) ≡ push (code c) (read plain t)
unfolding read escape
read-escape c t = elim (Bool-cases (eqb (code c) 0x22)) [
  | inl e0 ↦ let n : code c ≡ 0x22 = ground (arith, e0) in rw (n, two_chars "\\" "\"" t) refl
  | inr e0 ↦ elim (Bool-cases (eqb (code c) 0x5c)) [
    | inl e1 ↦ let n : code c ≡ 0x5c = ground (arith, e1) in rw (n, two_chars "\\" "\\" t) refl
    | inr e1 ↦ elim (Bool-cases (eqb (code c) 8)) [
      | inl e2 ↦ let n : code c ≡ 8 = ground (arith, e2) in rw (n, two_chars "\\" "b" t) refl
      | inr e2 ↦ elim (Bool-cases (eqb (code c) 9)) [
        | inl e3 ↦ let n : code c ≡ 9 = ground (arith, e3) in rw (n, two_chars "\\" "t" t) refl
        | inr e3 ↦ elim (Bool-cases (eqb (code c) 10)) [
          | inl e4 ↦ let n : code c ≡ 10 = ground (arith, e4) in rw (n, two_chars "\\" "n" t) refl
          | inr e4 ↦ elim (Bool-cases (eqb (code c) 12)) [
            | inl e5 ↦ let n : code c ≡ 12 = ground (arith, e5) in rw (n, two_chars "\\" "f" t) refl
            | inr e5 ↦ elim (Bool-cases (eqb (code c) 13)) [
              | inl e6 ↦
                  let n : code c ≡ 13 = ground (arith, e6) in rw (n, two_chars "\\" "r" t) refl
              | inr e6 ↦ elim (Bool-cases (ltb (code c) 0x20)) [
                | inl low ↦
                    rw (e0, e1, e2, e3, e4, e5, e6, low) (read-low (code c) t (ground (arith, low)))
                | inr high ↦ rw (e0, e1, e2, e3, e4, e5, e6, high, one_char c t) (rw (e0, e1) refl)
              ]
            ]
          ]
        ]
      ]
    ]
  ]
]

-- What follows the closing quote is left over; the code points are those of the text.
pub read-escaped :
    (s rest : String) → read plain (escaped s <> (String.◌∷◌ "\"" rest)) ≡ some (codes s, rest)
unfolding escaped read
read-escaped String.[] rest = rw (nil-append (String.◌∷◌ "\"" rest)) refl
read-escaped (String.◌∷◌ c s) rest =
    rw
      (
        append_assoc (escape (code c) (String.◌∷◌ c "")) (escaped s) (String.◌∷◌ "\"" rest),
        read-escape c (escaped s <> String.◌∷◌ "\"" rest),
        read-escaped s rest,
      )
      refl

pub codes_inj : (s t : String) → codes s ≡ codes t → s ≡ t
codes_inj String.[] String.[] e = refl
codes_inj String.[] (String.◌∷◌ d t) e = cc
codes_inj (String.◌∷◌ c s) String.[] e = cc
codes_inj (String.◌∷◌ c s) (String.◌∷◌ d t) e =
    let first : code c ≡ code d = cc in
    let rest : codes s ≡ codes t = cc in rw (Char-path c d first, codes_inj s t rest) refl

quote_lem :
    (s rest : String) → quote s <> rest ≡ String.◌∷◌ "\"" (escaped s <> String.◌∷◌ "\"" rest)
unfolding quote
quote_lem s rest =
    rw
      (
        append_assoc ("\"" <> escaped s) "\"" rest,
        append_assoc "\"" (escaped s) ("\"" <> rest),
        one_char "\"" rest,
        one_char "\"" (escaped s <> String.◌∷◌ "\"" rest),
      )
      refl

-- Texts that begin with a quoted text agree only if both the quoted texts and what follows agree.
pub quote_cancel : (s t x y : String) → quote s <> x ≡ quote t <> y → (s ≡ t) × (x ≡ y)
quote_cancel s t x y e =
    let bare : String.◌∷◌ "\"" (escaped s <> String.◌∷◌ "\"" x)
        ≡ String.◌∷◌ "\"" (escaped t <> String.◌∷◌ "\"" y) =
      sym (quote_lem s x) ∙ e ∙ quote_lem t y in
    let inner = tail-eq_of_cons-eq bare in
    let same : ◌≡◌ {A = Option (List ℕ × String)} (some (codes s, x)) (some (codes t, y)) =
      sym (read-escaped s x) ∙ ap (read plain) inner ∙ read-escaped t y in
    let points : codes s ≡ codes t = cc in let rest : x ≡ y = cc in (codes_inj s t points, rest)
