-- ===== src/Core/Tests.antt =====
-- packages/core/src/signing.ts and package-file.ts: the laws at concrete packages.
use qev_platform.Base.{true, false, String, ◌≡◌, ◌⊎◌, refl, Collision, some}
use qev_platform.Trust.Levels.{verified}
use qev_platform.Core.Signing.{PackageSignature}
use qev_platform.Core.PackageFile.{
  QevPackageFile, commitment, payload_of, unsigned_package, with_signature, verify_present,
  verify_outer_package_signature,
}
use qev_platform.Core.Authentic.{signed, verify-sign, signature_binds}
use qev_platform.Core.Samples.{
  crypto, crypto-IsBase64, crypto-AreKeys, key, private_text, public_text, vaults, meta,
  seal_options,
}

abbrev bare : QevPackageFile vaults
bare = unsigned_package crypto vaults "now" seal_options ("{}", "secret")

abbrev payload : String
payload = payload_of crypto vaults bare

abbrev signature : PackageSignature
signature =
    signed crypto crypto-IsBase64 true false crypto-AreKeys key private_text public_text payload
      "now"

abbrev first : QevPackageFile vaults
first = with_signature crypto vaults bare signature

-- The title is not signed.
abbrev retitled : QevPackageFile vaults
retitled = record first { public_meta = record meta { title = some "Job 2" } }

first_verified : (verify_outer_package_signature crypto vaults first).level ≡ verified
unfolding verify_outer_package_signature verify_present
first_verified =
    rw
      (verify-sign crypto crypto-IsBase64 true false crypto-AreKeys key private_text public_text
        payload "now")
      refl

retitled_verified : (verify_outer_package_signature crypto vaults retitled).level ≡ verified
unfolding verify_outer_package_signature verify_present
retitled_verified =
    rw
      (verify-sign crypto crypto-IsBase64 true false crypto-AreKeys key private_text public_text
        payload "now")
      refl

signature_binds_example :
    (commitment crypto vaults first ≡ commitment crypto vaults retitled) ⊎ Collision crypto.sha256
signature_binds_example =
    signature_binds crypto vaults first retitled refl first_verified retitled_verified
