-- ===== src/Shared/B64Laws.antt =====
-- packages/shared/src/b64.ts: decoding what was encoded, given what Node documents of its base64.
use Prim.Native.Char.{Char, code}
use text.Mathlib.TextEquality.{Char-path}
use text.Mathlib.TextLemmas.{nil-append, cons-append, append-nil}
use qev_platform.Base.{
  ℕ, zero, suc, ◌+◌, ◌-◌, ◌%◌, ◌≤◌, String, ◌≡◌, refl, Bool, true, false, ◌&&◌, ◌||◌, some, eqb,
  ◌<>◌, arith,
}
use qev_platform.Shared.B64.{
  url_text, plain_text, strip_padding, is_alnum, is_b64url, count, padding, padded, b64url_encode,
  b64url_decode,
}

-- The characters of base64, without the padding.
unfoldable pub is_b64 : String → Bool
is_b64 String.[] = true
is_b64 (String.◌∷◌ c s) = (is_alnum (code c) || eqb (code c) 0x2b || eqb (code c) 0x2f) && is_b64 s

-- Letters of the alphabet and up to two "=" that fill the last group of four.
pub record IsBase64Text (s : String) : Type 0 where
  pub body : String
  pub pad : ℕ
  pub text : s ≡ body <> padding pad
  pub letters : is_b64 body ≡ true
  pub short : pad ≤ 2
  pub whole : (count body + pad) % 4 ≡ 0

cons_append : (c : Char) (s t : String) → String.◌∷◌ c s <> t ≡ String.◌∷◌ c (s <> t)
cons_append c s t = cons-append c s t

strip-padding : (p : ℕ) → strip_padding (url_text (padding p)) ≡ ""
unfolding strip_padding url_text
strip-padding zero = refl
strip-padding (suc p) = rw (strip-padding p) refl

strip-url_text :
    (body : String) (p : ℕ)
    → is_b64 body ≡ true
    → strip_padding (url_text (body <> padding p)) ≡ url_text body
unfolding is_b64 strip_padding url_text
strip-url_text String.[] p h = rw (nil-append (padding p)) (strip-padding p)
strip-url_text (String.◌∷◌ c s) p h =
    rw (cons_append c s (padding p)) (ground (arith, strip-url_text s p))

plain-url_text : (body : String) → is_b64 body ≡ true → plain_text (url_text body) ≡ body
unfolding is_b64 plain_text url_text
plain-url_text String.[] h = refl
plain-url_text (String.◌∷◌ c s) h =
    ground (arith, plain-url_text s, Char-path c "+", Char-path c "/")

url_text-is_b64url : (body : String) → is_b64 body ≡ true → is_b64url (url_text body) ≡ true
unfolding is_b64 is_b64url url_text
url_text-is_b64url String.[] h = refl
url_text-is_b64url (String.◌∷◌ c s) h = ground (arith, url_text-is_b64url s)

padded-body :
    (body : String) (p : ℕ) → p ≤ 2 → (count body + p) % 4 ≡ 0 → padded body ≡ body <> padding p
unfolding padded
padded-body body zero h e = ground (arith, append-nil body)
padded-body body (suc p) h e =
    let missing : 4 - count body % 4 ≡ suc p = omega (arith, h, e) in
    let short : eqb (count body % 4) 0 ≡ false = ground (arith, h, e) in rw (short, missing) refl

-- Decoding what was encoded gives the bytes back, if base64 itself does so and its texts have its
-- form: letters of its alphabet, then up to two "=" that fill the last group of four.
pub b64url_decode-encode :
    {Bytes : Type 0} (to_base64 : Bytes → String) (from_base64 : String → Bytes)
    → ((b : Bytes) → IsBase64Text (to_base64 b))
    → ((b : Bytes) → from_base64 (to_base64 b) ≡ b)
    → (b : Bytes)
    → b64url_decode to_base64 from_base64 (b64url_encode to_base64 from_base64 b) ≡ some b
unfolding b64url_encode b64url_decode
b64url_decode-encode to_base64 from_base64 form back b =
    let t = form b in
    let encoded : strip_padding (url_text (to_base64 b)) ≡ url_text t.body =
      rw (t.text) (strip-url_text t.body t.pad t.letters) in
    let text : padded (plain_text (url_text t.body)) ≡ to_base64 b =
      rw (plain-url_text t.body t.letters, padded-body t.body t.pad t.short t.whole, t.text) refl in
    rw (encoded, url_text-is_b64url t.body t.letters, text, back b) refl
