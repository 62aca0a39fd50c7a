-- ===== src/Json.antt =====
-- packages/shared/src/canonical.ts: values as JSON holds them, and their canonical text.
pub mod Quote
pub mod Records
use Prim.Native.Char.{code}
use qev_platform.Base.{
  ℕ, ◌/◌, ◌%◌, String, ◌≡◌, ◌==◌, refl, Bool, true, false, not, truthy, List, [], ◌∷◌, ltb, eqb,
  ◌<>◌, text_lt, sort_by, if◌then◌else◌, decimal, Option, none, some,
}

-- `num` holds the text that JSON.stringify gives for a finite number: equal numbers have equal texts.
mutual
  pub data Json : Type 0 where
    undefined : Json
    null : Json
    bool : Bool → Json
    num : String → Json
    str : String → Json
    arr : Items → Json
    obj : Fields → Json

  pub data Items : Type 0 where
    nil : Items
    cons : Json → Items → Items

  pub data Fields : Type 0 where
    end : Fields
    field : String → Json → Fields → Fields

abbrev pub hex_digit : ℕ → String
hex_digit n =
    if eqb n 10
    then "a"
    else if eqb n 11
    then "b"
    else if eqb n 12
    then "c"
    else if eqb n 13
    then "d"
    else if eqb n 14
    then "e"
    else if eqb n 15
    then "f"
    else decimal n

-- How JSON.stringify writes one character of a text.
unfoldable pub escape : ℕ → String → String
unfolding decimal
escape n c =
    if eqb n 0x22
    then "\\\""
    else if eqb n 0x5c
    then "\\\\"
    else if eqb n 8
    then "\\b"
    else if eqb n 9
    then "\\t"
    else if eqb n 10
    then "\\n"
    else if eqb n 12
    then "\\f"
    else if eqb n 13
    then "\\r"
    else if ltb n 0x20
    then "\\u00" <> hex_digit (n / 16) <> hex_digit (n % 16)
    else c

unfoldable pub escaped : String → String
unfolding escape
escaped String.[] = ""
escaped (String.◌∷◌ c s) = escape (code c) (String.◌∷◌ c "") <> escaped s

-- JSON.stringify of a text.
unfoldable pub quote : String → String
unfolding escaped
quote s = "\"" <> escaped s <> "\""

-- xs.join(",")
unfoldable pub join_commas : List String → String
join_commas [] = ""
join_commas (x ∷ []) = x
join_commas (x ∷ y ∷ ys) = x <> "," <> join_commas (y ∷ ys)

abbrev pub entry_texts : List (String × String) → List String
entry_texts [] = []
entry_texts ((k, t) ∷ rest) = (quote k <> ":" <> t) ∷ entry_texts rest

abbrev pub key_lt : String × String → String × String → Bool
key_lt a b = text_lt a.0 b.0

unfoldable mutual
  unfolding quote join_commas sort_by text_lt

  pub canonical_json : Json → String
  canonical_json undefined = "null"
  canonical_json null = "null"
  canonical_json (bool true) = "true"
  canonical_json (bool false) = "false"
  canonical_json (num t) = t
  canonical_json (str s) = quote s
  canonical_json (arr xs) = "[" <> join_commas (item_texts xs) <> "]"
  canonical_json (obj fs) =
      "{" <> join_commas (entry_texts (sort_by key_lt (kept_entries fs))) <> "}"

  pub item_texts : Items → List String
  item_texts nil = []
  item_texts (cons x xs) = canonical_json x ∷ item_texts xs

  -- The keys whose value is not undefined, each with the text of its value.
  pub kept_entries : Fields → List (String × String)
  kept_entries end = []
  kept_entries (field k undefined fs) = kept_entries fs
  kept_entries (field k v fs) = (k, canonical_json v) ∷ kept_entries fs

-- obj[k], undefined for a missing key
unfoldable pub get_field : String → Fields → Json
get_field k end = undefined
get_field k (field j v fs) = let rest = get_field k fs in if j == k then v else rest

-- A value in a test
abbrev pub is_truthy : Json → Bool
is_truthy undefined = false
is_truthy null = false
is_truthy (bool b) = b
is_truthy (num n) = not (n == "0")
is_truthy (str s) = truthy s
is_truthy (arr items) = true
is_truthy (obj fields) = true

abbrev pub optional : Option String → Json
optional none = undefined
optional (some s) = str s

sorted_keys :
    canonical_json (obj (field "b" (num "1") (field "gone" undefined (field "a" (str "x\"y") end))))
    ≡ "{\"a\":\"x\\\"y\",\"b\":1}"
unfolding canonical_json
sorted_keys = refl
