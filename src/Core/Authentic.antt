-- ===== src/Core/Authentic.antt =====
-- packages/core/src/signing.ts and package-file.ts: what a signature and a sealed package guarantee.
use mathlib.Core.Path.{subst}
use text.Mathlib.TextLemmas.{append_cancel_left, append_cancel_right}
use qev_platform.Base.{
  Collision, same_or_collision, List, [], ◌∷◌, ◌<>◌, sort_by, text_lt, ℕ, zero, suc, String, ◌≡◌,
  ◌⊎◌, inl, inr, ◌==◌, eq_iff, eq_refl, refl, ap, sym, ◌∙◌, Bool, true, false, Option, none, some,
  arith, Bool-cases, if◌then◌else◌,
}
use qev_platform.Shared.B64Laws.{IsBase64Text, b64url_decode-encode}
use qev_platform.Json.{canonical_json, join_commas, entry_texts}
use qev_platform.Json.Records.{quoted, join_cancel}
use qev_platform.Trust.Levels.{verified, failed}
use qev_platform.Core.Signing.{
  SignPayload, build_package_sign_payload, returned, SigningKeyPair, PackageSignature, Crypto,
  encode, decode, signature_of, sign_decoded, sign_package_payload, verify_decoded,
  verify_package_signature,
}
use qev_platform.Core.PackageFile.{
  Vaults, QevPackageFile, SealOptions, commitment, payload_of, verify_present, unsigned_package,
  with_signature, add_signature, sign_package, seal_evidence_package,
  verify_outer_package_signature, open_evidence_package,
}

-- What Node documents of base64.
pub record IsBase64 (crypto : Crypto) : Type 0 where
  pub form : (b : crypto.Bytes) → IsBase64Text (crypto.to_base64 b)
  pub back : (b : crypto.Bytes) → crypto.from_base64 (crypto.to_base64 b) ≡ b

-- What Ed25519 promises of a private key and its public key.
pub record AreKeys (crypto : Crypto) (private_key public_key : crypto.Bytes) : Type 0 where
  pub accepts :
      (message : crypto.Bytes)
      → crypto.verify (crypto.sign message private_key) message public_key ≡ returned true

-- Decryption undoes encryption under the same password.
pub record IsVault (vaults : Vaults) : Type 0 where
  pub opens :
      (text password : String)
      → vaults.decrypt (vaults.encrypt text password) password ≡ returned text

module _ (crypto : Crypto) (base64 : IsBase64 crypto) (secret public_bytes : crypto.Bytes)
    (keys : AreKeys crypto secret public_bytes) (key : SigningKeyPair)
    (private_text : key.private_key ≡ encode crypto secret)
    (public_text : key.public_key ≡ encode crypto public_bytes) where
  decode-encode : (b : crypto.Bytes) → decode crypto (encode crypto b) ≡ some b
  decode-encode b =
      b64url_decode-encode crypto.to_base64 crypto.from_base64 base64.form base64.back b

  abbrev pub signed : (payload now : String) → PackageSignature
  signed payload now =
      signature_of crypto payload now key (crypto.sign (crypto.utf8 payload) secret)

  pub sign_lem :
      (payload now : String)
      → sign_package_payload crypto payload now key ≡ some (signed payload now)
  unfolding sign_package_payload sign_decoded
  sign_lem payload now =
      subst (λ t. sign_decoded crypto payload now key (decode crypto t) ≡ some (signed payload now))
        (sym private_text) (rw (decode-encode secret) refl)

  pub verify-sign :
      (payload now : String)
      → (verify_package_signature crypto payload (signed payload now)).0 ≡ true
  unfolding verify_package_signature verify_decoded
  verify-sign payload now =
      rw
        (
          eq_refl,
          public_text,
          decode-encode (crypto.sign (crypto.utf8 payload) secret),
          decode-encode public_bytes,
          keys.accepts (crypto.utf8 payload),
        )
        refl

  -- A package that is sealed with a key carries a signature that is verified, and opens under the
  -- password with its evidence unchanged and its vault intact.
  pub open-seal :
      (vaults : Vaults) (now : String) (opts : SealOptions)
      → IsVault vaults
      → opts.signing_key ≡ some key
      → (pkg : QevPackageFile vaults) × (seal_evidence_package crypto vaults now opts ≡ some pkg)
        × ((verify_outer_package_signature crypto vaults pkg).level ≡ verified)
        × (open_evidence_package crypto vaults pkg opts.password
            ≡ returned
                (record { evidence_json = opts.evidence_bundle_json; vault_sha256_ok = true }))
  unfolding seal_evidence_package sign_package add_signature verify_outer_package_signature
      open_evidence_package
  open-seal vaults now opts vault e =
      let bare =
        unsigned_package crypto vaults now opts
          (vaults.encrypt opts.evidence_bundle_json opts.password) in
      let payload = payload_of crypto vaults bare in
      (
        with_signature crypto vaults bare (signed payload now),
        rw (e, sign_lem payload now) refl,
        rw (verify-sign payload now) refl,
        rw (vault.opens opts.evidence_bundle_json opts.password, eq_refl) refl,
      )

abbrev payload_entries : SignPayload → List (String × String)
payload_entries p =
    ("case_id", p.case_id)
    ∷ ("created_at", p.created_at)
    ∷ ("flow_id", p.flow_id)
    ∷ ("integrity_events_sha256", p.integrity_events_sha256)
    ∷ ("package_id", p.package_id)
    ∷ ("schema", "QEV-PACKAGE-V1")
    ∷ ("tenant_id", p.tenant_id)
    ∷ ("vault_sha256", p.vault_sha256)
    ∷ []

payload_text :
    (p : SignPayload)
    → build_package_sign_payload p
      ≡ "{" <> join_commas (entry_texts (quoted (payload_entries p))) <> "}"
unfolding build_package_sign_payload canonical_json sort_by text_lt
payload_text p = refl

abbrev value_at : ℕ → List (String × String) → String
value_at i [] = ""
value_at zero ((k, v) ∷ rest) = v
value_at (suc i) (e ∷ rest) = value_at i rest

-- A payload says all of its fields.
payload_inj :
    (p q : SignPayload) → build_package_sign_payload p ≡ build_package_sign_payload q → p ≡ q
payload_inj p q e =
    let mine = join_commas (entry_texts (quoted (payload_entries p))) in
    let yours = join_commas (entry_texts (quoted (payload_entries q))) in
    let whole : "{" <> mine <> "}" ≡ "{" <> yours <> "}" =
      sym (payload_text p) ∙ e ∙ payload_text q in
    let inner =
      append_cancel_left "{" mine yours
        (append_cancel_right ("{" <> mine) ("{" <> yours) "}" whole) in
    let fields = join_cancel (payload_entries p) (payload_entries q) refl inner in
    ap
      (λ es. record {
        case_id = value_at 0 es;
        created_at = value_at 1 es;
        flow_id = value_at 2 es;
        integrity_events_sha256 = value_at 3 es;
        package_id = value_at 4 es;
        tenant_id = value_at 6 es;
        vault_sha256 = value_at 7 es;
      })
      fields

verified_true : (r : Bool × String) → (if r.0 then verified else failed) ≡ verified → r.0 ≡ true
verified_true (true, detail) h = refl
verified_true (false, detail) h = absurd cc

module _ (crypto : Crypto) where
  checked-hash :
      (payload : String) (s : PackageSignature)
      → (verify_package_signature crypto payload s).0 ≡ true
      → crypto.sha256 payload ≡ s.payload_sha256
  unfolding verify_package_signature
  checked-hash payload s h = elim (Bool-cases (s.algorithm == "Ed25519")) [
    | inl a ↦ elim (Bool-cases (crypto.sha256 payload == s.payload_sha256)) [
      | inl b ↦ (eq_iff (crypto.sha256 payload) s.payload_sha256).0 b
      | inr b ↦ absurd (ground (arith, h))
    ]
    | inr a ↦ absurd (ground (arith, h))
  ]

module _ (crypto : Crypto) (vaults : Vaults) where
  verified-hash :
      (pkg : QevPackageFile vaults) (s : Option PackageSignature)
      → (verify_present crypto vaults pkg s).level ≡ verified
      → (t : PackageSignature) × (s ≡ some t)
        × (crypto.sha256 (payload_of crypto vaults pkg) ≡ t.payload_sha256)
  unfolding verify_present
  verified-hash pkg none h = absurd cc
  verified-hash pkg (some t) h = (
    t,
    refl,
    checked-hash crypto (payload_of crypto vaults pkg) t
        (verified_true (verify_package_signature crypto (payload_of crypto vaults pkg) t) h),
  )

  -- A signature is verified on two packages only if they agree in their identifier, tenant, flow,
  -- case, vault hash, hash of the events and date, or if two texts with one hash are at hand.
  pub signature_binds :
      (p q : QevPackageFile vaults)
      → p.package_signature ≡ q.package_signature
      → (verify_outer_package_signature crypto vaults p).level ≡ verified
      → (verify_outer_package_signature crypto vaults q).level ≡ verified
      → (commitment crypto vaults p ≡ commitment crypto vaults q) ⊎ Collision crypto.sha256
  unfolding verify_outer_package_signature
  signature_binds p q same hp hq =
      let (s, has_s, sp) = verified-hash p p.package_signature hp in
      let (t, has_t, tq) = verified-hash q q.package_signature hq in
      let both : ◌≡◌ {A = Option PackageSignature} (some s) (some t) = sym has_s ∙ same ∙ has_t in
      let one : s ≡ t = cc in
      let hash : crypto.sha256 (payload_of crypto vaults p)
          ≡ crypto.sha256 (payload_of crypto vaults q) =
        sp ∙ ap (λ (r : PackageSignature). r.payload_sha256) one ∙ sym tq in
      elim (same_or_collision crypto.sha256 (payload_of crypto vaults p)
        (payload_of crypto vaults q) hash) [
          | inl texts ↦
              inl (payload_inj (commitment crypto vaults p) (commitment crypto vaults q) texts)
          | inr c ↦ inr c
        ]
