-- ===== src/Core/Signing.antt =====
-- packages/core/src/signing.ts: Ed25519 signatures over what a package says of itself. The keys and
-- signatures are base64 texts; the cryptography and the encodings of Node are a parameter.
use qev_platform.Base.{String, ◌==◌, Bool, true, false, Option, none, some, ◌<>◌, if◌then◌else◌}
use qev_platform.Json.{Fields, str, obj, end, field, canonical_json}
use qev_platform.Shared.B64.{b64url_encode, b64url_decode}

-- What a call gives back, or the message of the error that it throws.
pub data Result {ℓ} (A : Type ℓ) : Type ℓ where
  returned : A → Result A
  threw : String → Result A

pub record SigningKeyPair : Type 0 where
  pub key_id : String
  pub public_key : String
  pub private_key : String
  pub created_at : String
  pub algorithm : String

pub record PackageSignature : Type 0 where
  pub algorithm : String
  pub key_id : String
  pub public_key : String
  pub signature : String
  pub signed_at : String
  pub payload_sha256 : String

-- node:crypto, the base64 and UTF-8 of Node, and @noble/ed25519.
pub record Crypto : Type 1 where
  pub Bytes : Type 0
  pub sha256 : String → String
  pub utf8 : String → Bytes
  pub to_base64 : Bytes → String
  pub from_base64 : String → Bytes
  pub sign : (message private_key : Bytes) → Bytes
  pub verify : (signature message public_key : Bytes) → Result Bool

pub record SignPayload : Type 0 where
  pub package_id : String
  pub tenant_id : String
  pub flow_id : String
  pub case_id : String
  pub vault_sha256 : String
  pub integrity_events_sha256 : String
  pub created_at : String

abbrev payload_fields : SignPayload → Fields
payload_fields input = field "case_id" (str input.case_id) (
    field "created_at" (str input.created_at) (
      field "flow_id" (str input.flow_id) (
        field "integrity_events_sha256" (str input.integrity_events_sha256) (
          field "package_id" (str input.package_id) (
            field "schema" (str "QEV-PACKAGE-V1") (
              field "tenant_id" (str input.tenant_id)
                (field "vault_sha256" (str input.vault_sha256) end)))))))

unfoldable pub build_package_sign_payload : SignPayload → String
unfolding canonical_json
build_package_sign_payload input = canonical_json (obj (payload_fields input))

abbrev pub bad_text : String
bad_text = "b64urlDecode: invalid character"

module _ (crypto : Crypto) where
  open crypto use {Bytes, sha256, utf8, to_base64, from_base64, sign, verify}

  abbrev pub encode : Bytes → String
  encode = b64url_encode to_base64 from_base64

  abbrev pub decode : String → Option Bytes
  decode = b64url_decode to_base64 from_base64

  -- cut_12 is slice(0, 12), and `public_bytes` belongs to the random `private_bytes`.
  unfoldable pub generate_signing_key_pair :
      (cut_12 : String → String) (key_id : Option String) (private_bytes public_bytes : Bytes)
      → (now : String) → SigningKeyPair
  generate_signing_key_pair cut_12 key_id private_bytes public_bytes now = record {
    key_id = elim key_id [ none ↦ "org_" <> cut_12 (encode public_bytes) | some id ↦ id ];
    public_key = encode public_bytes;
    private_key = encode private_bytes;
    created_at = now;
    algorithm = "Ed25519";
  }

  abbrev pub signature_of : (payload now : String) → SigningKeyPair → Bytes → PackageSignature
  signature_of payload now key signature = record {
    algorithm = "Ed25519";
    key_id = key.key_id;
    public_key = key.public_key;
    signature = encode signature;
    signed_at = now;
    payload_sha256 = sha256 payload;
  }

  unfoldable pub sign_decoded :
      (payload now : String) → SigningKeyPair → Option Bytes → Option PackageSignature
  sign_decoded payload now key none = none
  sign_decoded payload now key (some secret) =
      some (signature_of payload now key (sign (utf8 payload) secret))

  -- `none` is the error of a private key that is no base64.
  unfoldable pub sign_package_payload :
      (payload now : String) → SigningKeyPair → Option PackageSignature
  sign_package_payload payload now key = sign_decoded payload now key (decode key.private_key)

  -- The call of verifyAsync, its arguments decoded.
  unfoldable pub verify_decoded : Option Bytes → Bytes → Option Bytes → Result Bool
  verify_decoded none message public_key = threw bad_text
  verify_decoded (some signature) message none = threw bad_text
  verify_decoded (some signature) message (some public_key) = verify signature message public_key

  abbrev pub report_of : PackageSignature → Result Bool → Bool × String
  report_of s (returned true) = (true, "Ed25519 signature valid for key_id " <> s.key_id)
  report_of s (returned false) = (false, "Ed25519 signature invalid")
  report_of s (threw message) = (false, message)

  unfoldable pub verify_package_signature : (payload : String) → PackageSignature → Bool × String
  unfolding verify_decoded
  verify_package_signature payload s =
      if s.algorithm == "Ed25519"
      then if sha256 payload == s.payload_sha256
        then report_of s (verify_decoded (decode s.signature) (utf8 payload) (decode s.public_key))
        else (false, "payload_sha256 does not match signed payload")
      else (false, "Unsupported algorithm " <> s.algorithm)
