-- ===== src/Gateway/Headers.antt =====
-- apps/gateway/src/server.ts: what the gateway reads in the headers, the path and the body of a request.
-- A header is `none` where the request does not have it.
use Prim.Native.Char.{Char, code}
use qev_platform.Base.{
  ℕ, ◌+◌, String, ◌==◌, ◌≡◌, refl, Bool, true, false, not, ◌&&◌, ◌||◌, Option, none, some, List, [],
  ◌∷◌, leb, eqb, if◌then◌else◌, truthy, contains, any, codes, includes, length,
}
use qev_platform.Json.{Json, Items, Fields, str, arr, obj, nil, cons, end, field}
use qev_platform.Gateway.Store.{storage_id}

-- \s in a regular expression, which is also what trim() takes away
abbrev is_space : ℕ → Bool
is_space n =
    (leb 9 n && leb n 13)
    || ((leb 0x2000 n && leb n 0x200a)
        || any (λ m. eqb n m)
            (32 ∷ 0xa0 ∷ 0x1680 ∷ 0x2028 ∷ 0x2029 ∷ 0x202f ∷ 0x205f ∷ 0x3000 ∷ 0xfeff ∷ []))

abbrev is_line_end : ℕ → Bool
is_line_end n = any (λ m. eqb n m) (10 ∷ 13 ∷ 0x2028 ∷ 0x2029 ∷ [])

abbrev pub all_codes : (ℕ → Bool) → String → Bool
all_codes p String.[] = true
all_codes p (String.◌∷◌ c s) = p (code c) && all_codes p s

-- What (.+)$ captures after \s+ has matched at least one character: \s+ takes as much as it can.
abbrev after_spaces : String → Option String
after_spaces String.[] = none
after_spaces (String.◌∷◌ c s) =
    let here : Option String =
      if all_codes (λ n. not (is_line_end n)) (String.◌∷◌ c s)
      then some (String.◌∷◌ c s)
      else none in
    elim (after_spaces s) [
      | none ↦ here
      | some later ↦ if is_space (code c) then some later else here
    ]

abbrev lower_code : ℕ → ℕ
lower_code n = if leb 0x41 n && leb n 0x5a then n + 32 else n

-- What follows a word of small letters, which may be written in capitals.
abbrev after_word : List ℕ → String → Option String
after_word [] s = some s
after_word (w ∷ word) String.[] = none
after_word (w ∷ word) (String.◌∷◌ c s) =
    let rest = after_word word s in if eqb w (lower_code (code c)) then rest else none

abbrev token_after : Option String → Option String
token_after none = none
token_after (some String.[]) = none
token_after (some (String.◌∷◌ c s)) = if is_space (code c) then after_spaces s else none

-- parseAuth: /^Bearer\s+(.+)$/i
unfoldable pub parse_auth : Option String → Option String
parse_auth none = none
parse_auth (some header) = token_after (after_word (codes "bearer") header)

abbrev trim_end : String → String
trim_end String.[] = ""
trim_end (String.◌∷◌ c s) =
    let rest = trim_end s in if is_space (code c) && rest == "" then "" else String.◌∷◌ c rest

abbrev trim : String → String
trim String.[] = ""
trim (String.◌∷◌ c s) =
    let rest = trim s in if is_space (code c) then rest else trim_end (String.◌∷◌ c s)

-- [a-f0-9] with the flag i
abbrev is_hex : ℕ → Bool
is_hex n = (leb 0x30 n && leb n 0x39) || (leb 0x61 (lower_code n) && leb (lower_code n) 0x66)

abbrev lower_char : Char → Char
lower_char c =
    let n = code c in
    if eqb n 0x41
    then "a"
    else if eqb n 0x42
    then "b"
    else if eqb n 0x43
    then "c"
    else if eqb n 0x44
    then "d"
    else if eqb n 0x45
    then "e"
    else if eqb n 0x46
    then "f"
    else c

-- toLowerCase on a hexadecimal text
abbrev lower_hex : String → String
lower_hex String.[] = ""
lower_hex (String.◌∷◌ c s) = String.◌∷◌ (lower_char c) (lower_hex s)

abbrev whole_digest : String → Option String
whole_digest text =
    if eqb (length (codes text)) 64 && all_codes is_hex text then some (lower_hex text) else none

-- /^sha256=([a-f0-9]+)$/i, or else /^[a-f0-9]{64}$/i
abbrev signature_in : String → Option String → Option String
signature_in text none = whole_digest text
signature_in text (some digest) =
    if truthy digest && all_codes is_hex digest then some (lower_hex digest) else whole_digest text

unfoldable pub parse_signature : Option String → Option String
parse_signature none = none
parse_signature (some header) =
    if truthy header
    then signature_in (trim header) (after_word (codes "sha256=") (trim header))
    else none

abbrev pub cut_prefix : String → String → Option String
cut_prefix String.[] t = some t
cut_prefix (String.◌∷◌ c s) String.[] = none
cut_prefix (String.◌∷◌ c s) (String.◌∷◌ d t) =
    let rest = cut_prefix s t in if eqb (code c) (code d) then rest else none

abbrev add_char : Char → List String → List String
add_char c [] = []
add_char c (s ∷ parts) = String.◌∷◌ c s ∷ parts

-- split("/")
abbrev segments : String → List String
segments String.[] = "" ∷ []
segments (String.◌∷◌ c s) =
    let rest = segments s in if eqb (code c) 0x2f then "" ∷ rest else add_char c rest

-- A decoded path with a backslash, or with a part that is "." or "..".
unfoldable pub is_bad_path : String → Bool
unfolding includes
is_bad_path path = includes path "\\" || any (λ part. part == ".." || part == ".") (segments path)

abbrev pub plain_segment : Option String → Option String
plain_segment none = none
plain_segment (some s) = if truthy s && all_codes (λ n. not (eqb n 0x2f)) s then some s else none

-- The last group of /^\/v1\/webhooks\/([^/]+)$/
unfoldable pub webhook_segment : String → Option String
webhook_segment path = plain_segment (cut_prefix "/v1/webhooks/" path)

abbrev pub is_connector_code : ℕ → Bool
is_connector_code n =
    (leb 0x41 n && leb n 0x5a)
    || ((leb 0x61 n && leb n 0x7a) || ((leb 0x30 n && leb n 0x39) || (eqb n 0x5f || eqb n 0x2d)))

abbrev pub is_connector_name : Option String → Bool
is_connector_name none = false
is_connector_name (some s) = truthy s && all_codes is_connector_code s

-- /^\/v1\/webhooks\/[A-Za-z0-9_-]+$/
unfoldable pub is_signed_webhook : String → Bool
is_signed_webhook path = is_connector_name (cut_prefix "/v1/webhooks/" path)

abbrev id_keys : List String
id_keys = "case_id" ∷ "event_id" ∷ "flow_id" ∷ "package_id" ∷ "certificate_id" ∷ []

abbrev is_bad_id : Json → Bool
is_bad_id (str s) = not (storage_id s)
is_bad_id _ = false

-- validateStorageIds: whether a value is let through.
unfoldable mutual
  unfolding storage_id

  pub ids_ok : (depth : ℕ) → Json → Bool
  ids_ok depth (arr items) = let below = ids_ok_items (depth + 1) items in leb depth 40 && below
  ids_ok depth (obj fields) = let below = ids_ok_fields (depth + 1) fields in leb depth 40 && below
  ids_ok depth _ = leb depth 40

  ids_ok_items : (depth : ℕ) → Items → Bool
  ids_ok_items depth nil = true
  ids_ok_items depth (cons value items) = ids_ok depth value && ids_ok_items depth items

  ids_ok_fields : (depth : ℕ) → Fields → Bool
  ids_ok_fields depth end = true
  ids_ok_fields depth (field key value fields) =
      not (contains id_keys key && is_bad_id value)
      && (ids_ok depth value && ids_ok_fields depth fields)

signature_test :
    (parse_signature (some " SHA256=AB01 ") ≡ some "ab01")
    × (parse_signature (some "sha256=x") ≡ none)
unfolding parse_signature
signature_test = (refl, refl)

auth_test :
    (parse_auth (some "bearer  a b") ≡ some "a b")
    × ((parse_auth (some "Bearer  ") ≡ some " ") × (parse_auth (some "Basic a") ≡ none))
unfolding parse_auth
auth_test = (refl, (refl, refl))

path_test :
    (is_bad_path "/a/../b" ≡ true)
    × ((is_bad_path "/a/b.c/" ≡ false)
        × (webhook_segment "/v1/webhooks/git%20hub" ≡ some "git%20hub"))
unfolding is_bad_path webhook_segment includes
path_test = (refl, (refl, refl))
