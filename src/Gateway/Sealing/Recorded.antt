-- ===== src/Gateway/Sealing/Recorded.antt =====
-- apps/gateway/src/server.ts, sealCase: the record that a seal leaves.
use qev_platform.Base.{
  String, eq_refl, ◌≡◌, refl, sym, ◌∙◌, Bool, true, false, not, Option, none, some, List,
  if◌then◌else◌, lookup-insert, ◌<>◌,
}
use qev_platform.Event.{EvidenceBundle}
use qev_platform.Bundle.Build.{build_evidence_bundle, event_ids}
use qev_platform.Bundle.Verify.{verify_evidence_bundle}
use qev_platform.Gateway.Store.{
  StoredEvent, CaseSealRecord, PackageKind, Package, GatewayStore, case_key, get_seal_record,
  save_package, record_seal,
}
use qev_platform.Gateway.Sealing.Parts.{
  Settings, Gateway, SealAnswer, sealed, Platform, events_of, next_record, package_of,
}
use qev_platform.Gateway.Sealing.{
  record_sealed, certify, refusal, options_of, seal_bundle, seal_built, unless, seal_rows,
}
use qev_platform.Gateway.Sealing.Primary.{IsAlike, save_package-IsAlike, save_certificate-IsAlike}

module _ (flow_id case_id : String) (existing : Option CaseSealRecord) (ids : List String)
    (s : GatewayStore) where
  -- The store `s` with a record of the case that adds the given ids.
  pub record IsRecorded (t : GatewayStore) : Type 0 where
    pub now : String
    pub kind : PackageKind
    pub package_id : String
    pub at :
        get_seal_record flow_id case_id t
        ≡ some (next_record flow_id case_id now kind existing package_id ids)
    pub events : t.events_by_id ≡ s.events_by_id
    pub cases : t.events_by_case ≡ s.events_by_case

  -- A seal that succeeds leaves such a store.
  abbrev pub Records : SealAnswer × Gateway → Type 0
  Records r = (kind : PackageKind) (pkg : Package) → r.0 ≡ sealed kind pkg → IsRecorded r.1.store

  certify-Records :
      (platform : Platform) (settings : Settings) (passphrase : String) (kind : PackageKind)
      (pkg : Package) (bundle : EvidenceBundle) (g : Gateway) (o : Option GatewayStore)
      → ((t : GatewayStore) → o ≡ some t → IsRecorded t)
      → Records (certify platform settings passphrase flow_id case_id kind pkg bundle g o)
  certify-Records platform settings passphrase kind pkg bundle g none k _ _ e = cc
  certify-Records platform settings passphrase kind pkg bundle g (some t) k _ _ e = k t refl

  recorded :
      (now : String) (kind : PackageKind) (package_id : String) (t : GatewayStore)
      → t.events_by_id ≡ s.events_by_id
      → t.events_by_case ≡ s.events_by_case
      → IsRecorded (record_seal (next_record flow_id case_id now kind existing package_id ids) t)
  unfolding record_seal get_seal_record next_record
  recorded now kind package_id t events cases = record {
    now = now;
    kind = kind;
    package_id = package_id;
    at =
        rw
          (
            lookup-insert (case_key flow_id case_id) (case_key flow_id case_id)
                (next_record flow_id case_id now kind existing package_id ids) t.seals_by_case,
            eq_refl (case_key flow_id case_id),
          )
          refl;
    events = events;
    cases = cases;
  }

  IsRecorded-alike : (t u : GatewayStore) → IsAlike t u → IsRecorded t → IsRecorded u
  unfolding get_seal_record
  IsRecorded-alike t u a h = record {
    now = h.now;
    kind = h.kind;
    package_id = h.package_id;
    at = rw (← a.seals) h.at;
    events = sym a.events ∙ h.events;
    cases = sym a.cases ∙ h.cases;
  }

  record_sealed-Records :
      (platform : Platform) (settings : Settings) (passphrase : String) (kind : PackageKind)
      (pkg : Package) (bundle : EvidenceBundle) (g : Gateway) (o : Option GatewayStore)
      → ((t : GatewayStore) → o ≡ some t → IsAlike s t)
      → Records (
          record_sealed platform settings passphrase flow_id case_id kind existing ids pkg bundle g
            o)
  unfolding record_sealed
  record_sealed-Records platform settings passphrase kind pkg bundle g none k = λ _ _ e. cc
  record_sealed-Records platform settings passphrase kind pkg bundle g (some t) k =
      let alike = k t refl in
      let done = recorded platform.now kind pkg.package_id t (sym alike.events) (sym alike.cases) in
      certify-Records platform settings passphrase kind pkg bundle _ _ (λ u e.
        IsRecorded-alike _ u
          (save_certificate-IsAlike ("SEAL-" <> pkg.package_id) (platform.certificate pkg bundle) _
            u e)
          done)

  if-Records :
      (b : Bool) (x y : SealAnswer × Gateway) → Records x → Records y → Records (if b then x else y)
  if-Records true x y h k = h
  if-Records false x y h k = k

  unless-Records :
      (o : Option String) (x : SealAnswer × Gateway) (g : Gateway)
      → Records x
      → Records (unless o x g)
  unless-Records none x g h = h
  unless-Records (some reason) x g h = λ _ _ e. cc

module _ (platform : Platform) (settings : Settings) (passphrase flow_id case_id : String)
    (existing : Option CaseSealRecord) where
  seal_bundle-Records :
      (kind : PackageKind) (rows : List StoredEvent) (bundle : EvidenceBundle) (g : Gateway)
      → Records flow_id case_id existing
          (event_ids (events_of rows))
          g.store
          (seal_bundle platform settings passphrase flow_id case_id kind existing rows bundle g)
  unfolding seal_bundle
  seal_bundle-Records kind rows bundle g =
      let ids = event_ids (events_of rows) in
      let pkg = package_of platform passphrase flow_id case_id kind existing ids bundle in
      if-Records flow_id case_id existing ids g.store
        (not (verify_evidence_bundle platform.sha256 bundle).overall_ok) _ _ (λ _ _ e. cc)
        (unless-Records flow_id case_id existing ids g.store
          (refusal platform settings passphrase flow_id case_id kind (events_of rows)) _ g
          (record_sealed-Records flow_id case_id existing ids g.store platform settings passphrase
            kind pkg bundle g (save_package pkg g.store)
            (λ t e. save_package-IsAlike pkg g.store t e)))

  seal_built-Records :
      (kind : PackageKind) (rows : List StoredEvent) (g : Gateway) (o : Option EvidenceBundle)
      → Records flow_id case_id existing
          (event_ids (events_of rows))
          g.store
          (seal_built platform settings passphrase flow_id case_id kind existing rows g o)
  seal_built-Records kind rows g none = λ _ _ e. cc
  seal_built-Records kind rows g (some bundle) = seal_bundle-Records kind rows bundle g

  pub seal_rows-Records :
      (kind : PackageKind) (rows : List StoredEvent) (g : Gateway)
      → Records flow_id case_id existing
          (event_ids (events_of rows))
          g.store
          (seal_rows platform settings passphrase flow_id case_id kind existing rows g)
  unfolding seal_rows
  seal_rows-Records kind rows g = seal_built-Records kind rows g (
      build_evidence_bundle platform.sha256 platform.new_id platform.now
        (options_of platform settings passphrase flow_id case_id kind rows))
