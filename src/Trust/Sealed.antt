-- ===== src/Trust/Sealed.antt =====
-- packages/trust/src/seal-certificate.ts: what a seal certificate says of its package.
use qev_platform.Base.{String, ◌≡◌, refl, some, length, length-map, [], or_else}
use qev_platform.Json.{canonical_json}
use qev_platform.Core.Signing.{Crypto, encode}
use qev_platform.Core.PackageFile.{
  Vaults, QevPackageFile, payload_of, with_signature, verify_present,
  verify_outer_package_signature,
}
use qev_platform.Core.Authentic.{IsBase64, AreKeys, signed, sign_lem, verify-sign}
use qev_platform.Trust.Levels.{verified}
use qev_platform.Trust.Certificate.{
  PackageSealCertificate, CertificateOptions, fingerprint_of, sealed_json, finished_seal,
  hashed_seal, build_package_seal_certificate,
}

-- A seal certificate names its package and counts the artifacts of its bundle, its recorded hash is
-- that of its content, and its signature, put on the package, is verified.
pub build_package_seal_certificate_lem :
    (crypto : Crypto) (base64 : IsBase64 crypto) (secret public_bytes : crypto.Bytes)
    (keys : AreKeys crypto secret public_bytes) (vaults : Vaults)
    (package_text : QevPackageFile vaults → String) (opts : CertificateOptions vaults)
    (private_text : opts.signing_key.private_key ≡ encode crypto secret)
    (public_text : opts.signing_key.public_key ≡ encode crypto public_bytes) (now : String)
    → (c : PackageSealCertificate) × (build_package_seal_certificate crypto vaults package_text now
          opts
        ≡ some c)
      × (c.package_id ≡ opts.pkg.package_id)
      × (c.artifact_count ≡ length (or_else opts.bundle.artifacts []))
      × (crypto.sha256 (canonical_json (sealed_json c)) ≡ c.certificate_sha256)
      × ((verify_outer_package_signature crypto vaults
            (with_signature crypto vaults opts.pkg c.signature)).level
          ≡ verified)
unfolding build_package_seal_certificate hashed_seal finished_seal sealed_json
    verify_outer_package_signature verify_present
build_package_seal_certificate_lem crypto base64 secret public_bytes keys vaults package_text opts
      private_text public_text now =
    let payload = payload_of crypto vaults opts.pkg in
    let key = opts.signing_key in
    let s =
      signed crypto base64 secret public_bytes keys key private_text public_text payload now in
    (
      finished_seal crypto vaults package_text now opts s,
      rw (sign_lem crypto base64 secret public_bytes keys key private_text public_text payload now)
          refl,
      refl,
      length-map fingerprint_of (or_else opts.bundle.artifacts []),
      refl,
      rw
          (verify-sign crypto base64 secret public_bytes keys key private_text public_text payload
            now)
          refl,
    )
