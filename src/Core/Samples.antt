-- ===== src/Core/Samples.antt =====
-- Keys, encodings and a vault for the tests of the other modules: there are two byte strings, a signature is the
-- message itself, and a vault holds its text and its password.
use qev_platform.Base.{
  String, ◌≡◌, ◌==◌, eq_refl, refl, Bool, true, false, not, none, some, ◌<>◌, if◌then◌else◌, arith,
}
use qev_platform.Event.{complete}
use qev_platform.Gateway.Store.{PackageMeta}
use qev_platform.Shared.B64Laws.{IsBase64Text, is_b64}
use qev_platform.Shared.B64.{count, b64url_encode, url_text, strip_padding}
use qev_platform.Core.Signing.{Result, returned, threw, SigningKeyPair, Crypto, encode}
use qev_platform.Core.PackageFile.{Vaults, SealOptions}
use qev_platform.Core.Authentic.{IsBase64, AreKeys, IsVault}

abbrev base64_of : Bool → String
base64_of true = "AA+/"
base64_of false = "/w=="

abbrev equal : Bool → Bool → Bool
equal true b = b
equal false b = not b

abbrev pub crypto : Crypto
crypto = record {
  Bytes = Bool;
  sha256 = λ s. "h:" <> s;
  utf8 = λ s. s == "";
  to_base64 = base64_of;
  from_base64 = λ s. s == "AA+/";
  sign = λ message key. message;
  verify = λ signature message key. returned (equal signature message);
}

base64_form : (b : Bool) → IsBase64Text (base64_of b)
unfolding is_b64 count
base64_form true = record {
  body = "AA+/";
  pad = 0;
  text = refl;
  letters = refl;
  short = omega arith;
  whole = refl;
}
base64_form false = record {
  body = "/w";
  pad = 2;
  text = refl;
  letters = refl;
  short = omega arith;
  whole = refl;
}

base64_back : (b : Bool) → (base64_of b == "AA+/") ≡ b
base64_back true = refl
base64_back false = refl

pub crypto-IsBase64 : IsBase64 crypto
crypto-IsBase64 = record { form = base64_form; back = base64_back }

equal_refl : (b : Bool) → ◌≡◌ {A = Result Bool} (returned (equal b b)) (returned true)
equal_refl true = refl
equal_refl false = refl

pub crypto-AreKeys : AreKeys crypto true false
crypto-AreKeys = record { accepts = equal_refl }

abbrev pub key : SigningKeyPair
key = record {
  key_id = "org_1";
  public_key = "_w";
  private_key = "AA-_";
  created_at = "2026-07-01";
  algorithm = "Ed25519";
}

pub private_text : key.private_key ≡ encode crypto true
unfolding b64url_encode url_text strip_padding
private_text = refl

pub public_text : key.public_key ≡ encode crypto false
unfolding b64url_encode url_text strip_padding
public_text = refl

abbrev decrypted : String × String → String → Result String
decrypted vault password =
    if vault.1 == password then returned vault.0 else threw "decryption failed"

abbrev pub vaults : Vaults
vaults = record {
  Vault = String × String;
  vault_text = λ v. v.0 <> "|" <> v.1;
  encrypt = λ text password. (text, password);
  decrypt = decrypted;
}

pub vaults-IsVault : IsVault vaults
vaults-IsVault = record { opens = λ text password. rw (eq_refl password) refl }

abbrev pub meta : PackageMeta
meta = record {
  title = some "Job 1";
  event_count = 1;
  outcome = complete;
  integrity_events_sha256 = "e";
  package_kind = none;
  parent_package_id = none;
  sealed_event_ids = none;
}

abbrev pub seal_options : SealOptions
seal_options = record {
  package_id = "pkg_1";
  tenant_id = "t1";
  flow_id = "field-service";
  case_id = "JOB-1";
  evidence_bundle_json = "{}";
  password = "secret";
  public_meta = meta;
  signing_key = some key;
}
