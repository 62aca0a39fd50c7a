-- ===== src/Shared/B64.antt =====
-- packages/shared/src/b64.ts: base64 in the alphabet for URLs, without padding. The base64 of
-- Node's Buffer is a parameter, as are the byte arrays.
use Prim.Native.Char.{code}
use qev_platform.Base.{
  ℕ, zero, suc, ◌-◌, ◌%◌, String, ◌≡◌, ◌==◌, refl, Bool, true, false, ◌&&◌, ◌||◌, Option, none,
  some, leb, eqb, ◌<>◌, if◌then◌else◌,
}

-- replaceAll of "+" by "-" and of "/" by "_"
unfoldable pub url_text : String → String
url_text String.[] = ""
url_text (String.◌∷◌ c s) =
    let rest = url_text s in
    if eqb (code c) 0x2b
    then String.◌∷◌ "-" rest
    else if eqb (code c) 0x2f
    then String.◌∷◌ "_" rest
    else String.◌∷◌ c rest

-- replaceAll of "-" by "+" and of "_" by "/"
unfoldable pub plain_text : String → String
plain_text String.[] = ""
plain_text (String.◌∷◌ c s) =
    let rest = plain_text s in
    if eqb (code c) 0x2d
    then String.◌∷◌ "+" rest
    else if eqb (code c) 0x5f
    then String.◌∷◌ "/" rest
    else String.◌∷◌ c rest

-- replace(/=+$/, "")
unfoldable pub strip_padding : String → String
strip_padding String.[] = ""
strip_padding (String.◌∷◌ c s) =
    let rest = strip_padding s in if eqb (code c) 0x3d && rest == "" then "" else String.◌∷◌ c rest

-- A letter or a digit.
abbrev pub is_alnum : ℕ → Bool
is_alnum n = (leb 0x41 n && leb n 0x5a) || (leb 0x61 n && leb n 0x7a) || (leb 0x30 n && leb n 0x39)

abbrev pub all_padding : String → Bool
all_padding String.[] = true
all_padding (String.◌∷◌ c s) = eqb (code c) 0x3d && all_padding s

-- /^[A-Za-z0-9_-]*=*$/
unfoldable pub is_b64url : String → Bool
is_b64url String.[] = true
is_b64url (String.◌∷◌ c s) =
    let rest = is_b64url s in
    if is_alnum (code c) || eqb (code c) 0x2d || eqb (code c) 0x5f
    then rest
    else eqb (code c) 0x3d && all_padding s

-- The length of a text of ASCII characters.
unfoldable pub count : String → ℕ
count String.[] = 0
count (String.◌∷◌ c s) = suc (count s)

-- "=".repeat(n)
abbrev pub padding : ℕ → String
padding zero = ""
padding (suc n) = String.◌∷◌ "=" (padding n)

unfoldable pub padded : String → String
unfolding count
padded b64 = if eqb (count b64 % 4) 0 then b64 else b64 <> padding (4 - count b64 % 4)

module _ {Bytes : Type 0} (to_base64 : Bytes → String) (from_base64 : String → Bytes) where
  unfoldable pub b64url_encode : Bytes → String
  unfolding url_text strip_padding
  b64url_encode bytes = strip_padding (url_text (to_base64 bytes))

  -- `none` is the error that is thrown for a character outside of the alphabet.
  unfoldable pub b64url_decode : String → Option Bytes
  unfolding is_b64url plain_text padded
  b64url_decode str = if is_b64url str then some (from_base64 (padded (plain_text str))) else none

b64_runs :
    (strip_padding (url_text "a+/b==") ≡ "a-_b")
    × (padded (plain_text "a-_b-w") ≡ "a+/b+w==")
    × (is_b64url "a+b" ≡ false)
unfolding url_text strip_padding plain_text padded is_b64url
b64_runs = (refl, refl, refl)
