-- ===== src/Json/Records.antt =====
-- packages/shared/src/canonical.ts: objects whose values are texts, and what their canonical text says.
use text.Mathlib.TextLemmas.{append_assoc, append_cancel_left}
use qev_platform.Base.{
  String, ◌≡◌, ◌≢◌, refl, sym, ap, ◌∙◌, Option, none, some, List, [], ◌∷◌, ◌<>◌, length, arith,
}
use qev_platform.Json.{quote, join_commas, entry_texts}
use qev_platform.Json.Quote.{quote_cancel}

-- The entries of an object, each value quoted.
abbrev pub quoted : List (String × String) → List (String × String)
quoted [] = []
quoted ((k, v) ∷ rest) = (k, quote v) ∷ quoted rest

entry_flat : (k v x : String) → quote k <> ":" <> quote v <> x ≡ quote k <> (":" <> (quote v <> x))
entry_flat k v x =
    rw (append_assoc (quote k <> ":") (quote v) x, append_assoc (quote k) ":" (quote v <> x)) refl

pub entry_cancel :
    (j k v w x y : String)
    → quote j <> ":" <> quote v <> x ≡ quote k <> ":" <> quote w <> y
    → (◌≡◌ {A = String × String} (j, v) (k, w)) × (x ≡ y)
entry_cancel j k v w x y e =
    let outer =
      quote_cancel j k (":" <> (quote v <> x)) (":" <> (quote w <> y))
        (sym (entry_flat j v x) ∙ e ∙ entry_flat k w y) in
    let inner =
      quote_cancel v w x y (append_cancel_left ":" (quote v <> x) (quote w <> y) outer.1) in
    (rw (outer.0, inner.0) refl, inner.1)

-- Objects with as many entries that have the same text have the same entries.
pub join_cancel :
    (xs ys : List (String × String))
    → length xs ≡ length ys
    → join_commas (entry_texts (quoted xs)) ≡ join_commas (entry_texts (quoted ys))
    → xs ≡ ys
unfolding join_commas
join_cancel [] [] n e = refl
join_cancel [] (y ∷ ys) n e = absurd (omega (arith, n))
join_cancel (x ∷ xs) [] n e = absurd (omega (arith, n))
join_cancel ((j, v) ∷ []) ((k, w) ∷ []) n e =
    rw ((entry_cancel j k v w "" "" (ap (λ t. t <> "") e)).0) refl
join_cancel ((j, v) ∷ []) ((k, w) ∷ y ∷ ys) n e = absurd (omega (arith, n))
join_cancel ((j, v) ∷ x ∷ xs) ((k, w) ∷ []) n e = absurd (omega (arith, n))
join_cancel ((j, v) ∷ x ∷ xs) ((k, w) ∷ y ∷ ys) n e =
    let behind = join_commas (entry_texts (quoted (x ∷ xs))) in
    let ahead = join_commas (entry_texts (quoted (y ∷ ys))) in
    let split = entry_cancel j k v w ("," <> behind) ("," <> ahead) (
      sym (append_assoc (quote j <> ":" <> quote v) "," behind)
      ∙ e
      ∙ append_assoc (quote k <> ":" <> quote w) "," ahead) in
    let rest =
      join_cancel (x ∷ xs) (y ∷ ys) (omega (arith, n))
        (append_cancel_left "," behind ahead split.1) in
    rw (split.0, rest) refl

-- An entry with a comma behind it, and what follows.
abbrev pub entry_then : (key value rest : String) → String
entry_then key value rest = quote key <> ":" <> quote value <> "," <> rest

-- An entry that is left out where it has no value.
abbrev pub option_then : (key : String) → Option String → (rest : String) → String
option_then key none rest = rest
option_then key (some value) rest = entry_then key value rest

pub entry_then-cancel :
    (j k v w x y : String) → entry_then j v x ≡ entry_then k w y → (j ≡ k) × (v ≡ w) × (x ≡ y)
entry_then-cancel j k v w x y e =
    let split = entry_cancel j k v w ("," <> x) ("," <> y) (
      sym (append_assoc (quote j <> ":" <> quote v) "," x)
      ∙ e
      ∙ append_assoc (quote k <> ":" <> quote w) "," y) in
    let rest = append_cancel_left "," x y split.1 in (cc, cc, rest)

-- An optional entry that stands before one with another key.
pub option_then-cancel :
    (k j v w x y : String) (o p : Option String)
    → k ≢ j
    → option_then k o (entry_then j v x) ≡ option_then k p (entry_then j w y)
    → (o ≡ p) × (v ≡ w) × (x ≡ y)
option_then-cancel k j v w x y none none other e =
    let (_, value, rest) = entry_then-cancel j j v w x y e in (refl, value, rest)
option_then-cancel k j v w x y none (some b) other e =
    let (key, _, _) = entry_then-cancel j k v b x (entry_then j w y) e in absurd (other (sym key))
option_then-cancel k j v w x y (some a) none other e =
    let (key, _, _) = entry_then-cancel k j a w (entry_then j v x) y e in absurd (other key)
option_then-cancel k j v w x y (some a) (some b) other e =
    let (_, first, more) = entry_then-cancel k k a b (entry_then j v x) (entry_then j w y) e in
    let (_, value, rest) = entry_then-cancel j j v w x y more in (ap some first, value, rest)
