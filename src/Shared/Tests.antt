-- ===== src/Shared/Tests.antt =====
-- packages/shared/src/b64.ts and hash.ts: the laws at concrete values.
use qev_platform.Base.{◌≡◌, ◌↔◌, true, false, some, ℕ, List, [], ◌∷◌}
use qev_platform.Shared.B64.{b64url_encode, b64url_decode}
use qev_platform.Shared.B64Laws.{b64url_decode-encode}
use qev_platform.Shared.Hash.{timing_safe_equal_hex}
use qev_platform.Shared.HashLaws.{timing_safe_equal_hex_iff}
use qev_platform.Core.Samples.{crypto, crypto-IsBase64}

b64url_decode-encode_example :
    b64url_decode crypto.to_base64 crypto.from_base64
      (b64url_encode crypto.to_base64 crypto.from_base64 false)
    ≡ some false
b64url_decode-encode_example =
    b64url_decode-encode crypto.to_base64 crypto.from_base64 crypto-IsBase64.form
      crypto-IsBase64.back false

-- "a7" against "a8"
timing_safe_equal_hex_iff_example :
    (timing_safe_equal_hex (97 ∷ 55 ∷ []) (97 ∷ 56 ∷ []) ≡ true)
    ↔ (◌≡◌ {A = List ℕ} (97 ∷ 55 ∷ []) (97 ∷ 56 ∷ []))
timing_safe_equal_hex_iff_example = timing_safe_equal_hex_iff (97 ∷ 55 ∷ []) (97 ∷ 56 ∷ [])
