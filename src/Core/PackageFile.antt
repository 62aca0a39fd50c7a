-- ===== src/Core/PackageFile.antt =====
-- packages/core/src/package-file.ts: sealed packages on disk, with their signatures. The vault and its encryption
-- (packages/core/src/vault.ts) are a parameter.
use qev_platform.Base.{String, ◌==◌, Bool, false, Option, none, some, ◌<>◌, if◌then◌else◌}
use qev_platform.Gateway.Store.{PackageMeta}
use qev_platform.Trust.Levels.{VerdictLevel, verified, failed, not_present}
use qev_platform.Core.Signing.{
  Result, returned, threw, SigningKeyPair, PackageSignature, Crypto, SignPayload,
  build_package_sign_payload, sign_package_payload, verify_package_signature,
}

-- The vault of packages/core/src/vault.ts: its JSON text, and decryption, which may throw.
pub record Vaults : Type 1 where
  pub Vault : Type 0
  pub vault_text : Vault → String
  pub encrypt : (plaintext password : String) → Vault
  pub decrypt : Vault → (password : String) → Result String

pub record QevPackageFile (vaults : Vaults) : Type 0 where
  pub schema : String
  pub package_id : String
  pub created_at : String
  pub tenant_id : String
  pub flow_id : String
  pub case_id : String
  pub public_meta : PackageMeta
  pub vault : vaults.Vault
  pub vault_sha256 : String
  pub package_signature : Option PackageSignature

pub record SealOptions : Type 0 where
  pub package_id : String
  pub tenant_id : String
  pub flow_id : String
  pub case_id : String
  pub evidence_bundle_json : String
  pub password : String
  pub public_meta : PackageMeta
  pub signing_key : Option SigningKeyPair

pub record SignatureReport : Type 0 where
  pub ok : Bool
  pub detail : String
  pub level : VerdictLevel

pub record Opened : Type 0 where
  pub evidence_json : String
  pub vault_sha256_ok : Bool

module _ (crypto : Crypto) (vaults : Vaults) where
  open crypto use {sha256}
  open vaults use {Vault, vault_text, encrypt, decrypt}

  abbrev pub commitment : QevPackageFile vaults → SignPayload
  commitment pkg = record {
    package_id = pkg.package_id;
    tenant_id = pkg.tenant_id;
    flow_id = pkg.flow_id;
    case_id = pkg.case_id;
    vault_sha256 = pkg.vault_sha256;
    integrity_events_sha256 = pkg.public_meta.integrity_events_sha256;
    created_at = pkg.created_at;
  }

  abbrev pub payload_of : QevPackageFile vaults → String
  payload_of pkg = build_package_sign_payload (commitment pkg)

  abbrev pub unsigned_package : (now : String) → SealOptions → Vault → QevPackageFile vaults
  unsigned_package now opts vault = record {
    schema = "QEV-PACKAGE-V1";
    package_id = opts.package_id;
    created_at = now;
    tenant_id = opts.tenant_id;
    flow_id = opts.flow_id;
    case_id = opts.case_id;
    public_meta = opts.public_meta;
    vault = vault;
    vault_sha256 = sha256 (vault_text vault);
    package_signature = none;
  }

  abbrev pub with_signature : QevPackageFile vaults → PackageSignature → QevPackageFile vaults
  with_signature pkg s = record pkg { package_signature = some s }

  unfoldable pub add_signature :
      QevPackageFile vaults → Option PackageSignature → Option (QevPackageFile vaults)
  add_signature pkg none = none
  add_signature pkg (some s) = some (with_signature pkg s)

  -- A package is signed if there is a key; `none` is the error of a key that cannot be read.
  unfoldable pub sign_package :
      (now : String)
      → Option SigningKeyPair
      → QevPackageFile vaults
      → Option (QevPackageFile vaults)
  sign_package now none pkg = some pkg
  sign_package now (some key) pkg =
      add_signature pkg (sign_package_payload crypto (payload_of pkg) now key)

  unfoldable pub seal_evidence_package :
      (now : String) → SealOptions → Option (QevPackageFile vaults)
  unfolding sign_package
  seal_evidence_package now opts =
      sign_package now opts.signing_key
        (unsigned_package now opts (encrypt opts.evidence_bundle_json opts.password))

  abbrev pub signature_report : Bool × String → SignatureReport
  signature_report r = record { ok = r.0; detail = r.1; level = if r.0 then verified else failed }

  unfoldable pub verify_present : QevPackageFile vaults → Option PackageSignature → SignatureReport
  verify_present pkg none = record {
    ok = false;
    detail = "No organization package signature present";
    level = not_present;
  }
  verify_present pkg (some s) =
      signature_report (verify_package_signature crypto (payload_of pkg) s)

  unfoldable pub verify_outer_package_signature : QevPackageFile vaults → SignatureReport
  unfolding verify_present
  verify_outer_package_signature pkg = verify_present pkg pkg.package_signature

  abbrev opened : QevPackageFile vaults → Result String → Result Opened
  opened pkg (threw message) = threw message
  opened pkg (returned text) = returned (record {
    evidence_json = text;
    vault_sha256_ok = sha256 (vault_text pkg.vault) == pkg.vault_sha256;
  })

  unfoldable pub open_evidence_package : QevPackageFile vaults → (password : String) → Result Opened
  open_evidence_package pkg password =
      if pkg.schema == "QEV-PACKAGE-V1"
      then opened pkg (decrypt pkg.vault password)
      else threw ("Unsupported package schema: " <> pkg.schema)
