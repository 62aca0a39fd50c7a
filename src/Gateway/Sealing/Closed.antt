-- ===== src/Gateway/Sealing/Closed.antt =====
-- apps/gateway/src/server.ts, sealCase: predicates on the store, through each of its changes.
use mathlib.Core.Path.{subst}
use qev_platform.Base.{
  String, ◌<>◌, ◌≡◌, refl, sym, ap, ◌∙◌, Bool, true, false, not, Option, none, some, List, [], ◌∷◌,
  if◌then◌else◌, get_last?,
}
use qev_platform.Event.{QevEvent, EvidenceBundle}
use qev_platform.Bundle.Verify.{verify_evidence_bundle}
use qev_platform.Bundle.Build.{
  BuildOptions, build_evidence_bundle, build_from, finished_bundle, partial_bundle, event_ids,
}
use qev_platform.Flow.{FlowPack}
use qev_platform.Gateway.Store.{
  StoredEvent, CaseSealRecord, PackageKind, primary, supplemental, Package, GatewayStore, get_case,
  get_seal_record, unsealed_events, save_package, load_package, record_seal, save_certificate,
}
use qev_platform.Gateway.Sealing.Parts.{
  Settings, Gateway, SealAnswer, Platform, pack_of, events_of, missing_of, note_gaps, mark_last,
  mark_by, mark_case, next_record, package_of,
}
use qev_platform.Gateway.Sealing.{
  record_sealed, certify, refusal, options_of, seal_bundle, seal_built, unless, seal_rows, reloaded,
  seal_supplement, seal_primary, seal_by, seal_known, seal_case, with_store,
}

-- A bundle for which no identifier was asked gets the new one.
build-package_id :
    (sha256 : String → String) (new_id now : String) (opts : BuildOptions) (events : List QevEvent)
    → opts.package_id ≡ none
    → (bundle : EvidenceBundle) → build_from sha256 new_id now opts events ≡ some bundle
    → bundle.package_id ≡ new_id
unfolding finished_bundle partial_bundle
build-package_id sha256 new_id now opts [] e bundle h = absurd cc
build-package_id sha256 new_id now opts (first ∷ rest) e bundle h =
    let same : finished_bundle sha256 new_id now opts first ≡ bundle = cc in
    sym (ap (λ (b : EvidenceBundle). b.package_id) same) ∙ rw e refl

-- A predicate that survives each change that sealing makes to the store, where `existing` is the
-- record that the seal started from, and `new_id` the identifier of a new package.
pub record IsClosed {κ} (new_id flow_id case_id : String) (existing : Option CaseSealRecord)
    (P : GatewayStore → Type κ) : Type κ where
  pub noted :
      (missing : List String) (last : StoredEvent) (s : GatewayStore)
      → P s
      → P (note_gaps missing last s)
  pub saved :
      (pkg : Package) (s t : GatewayStore)
      → pkg.package_id ≡ new_id
      → save_package pkg s ≡ some t
      → P s
      → P t
  pub loaded :
      (id : String) (o : Option Package) (s t : GatewayStore)
      → load_package id s ≡ some (o, t)
      → P s
      → P t
  pub certified :
      (id cert : String) (s t : GatewayStore) → save_certificate id cert s ≡ some t → P s → P t
  pub recorded :
      (now : String) (kind : PackageKind) (package_id : String) (ids : List String)
      (s : GatewayStore)
      → P s
      → P (record_seal (next_record flow_id case_id now kind existing package_id ids) s)

module _ {κ} (platform : Platform) (settings : Settings) (passphrase flow_id case_id : String)
    (existing : Option CaseSealRecord) (P : GatewayStore → Type κ)
    (c : IsClosed platform.new_id flow_id case_id existing P) where
  mark_last-Closed :
      (missing : List String) (last : Option StoredEvent) (s : GatewayStore)
      → P s
      → P (mark_last missing last s)
  mark_last-Closed [] last s h = h
  mark_last-Closed (a ∷ missing) none s h = h
  mark_last-Closed (a ∷ missing) (some last) s h = c.noted (a ∷ missing) last s h

  mark_by-Closed :
      (pack : Option FlowPack) (rows : List StoredEvent) (s : GatewayStore)
      → P s
      → P (mark_by pack rows s)
  mark_by-Closed none rows s h = h
  mark_by-Closed (some pack) rows s h =
      mark_last-Closed (missing_of pack (events_of rows)) (get_last? rows) s h

  if-Closed :
      (b : Bool) (x y : SealAnswer × Gateway)
      → P x.1.store
      → P y.1.store
      → P (if b then x else y).1.store
  if-Closed true x y h k = h
  if-Closed false x y h k = k

  unless-Closed :
      (o : Option String) (x : SealAnswer × Gateway) (g : Gateway)
      → P x.1.store
      → P g.store
      → P (unless o x g).1.store
  unless-Closed none x g h k = h
  unless-Closed (some reason) x g h k = k

  certify-Closed :
      (kind : PackageKind) (pkg : Package) (bundle : EvidenceBundle) (g : Gateway)
      (o : Option GatewayStore)
      → P g.store
      → ((t : GatewayStore) → o ≡ some t → P t)
      → P (certify platform settings passphrase flow_id case_id kind pkg bundle g o).1.store
  certify-Closed kind pkg bundle g none h k = h
  certify-Closed kind pkg bundle g (some t) h k = k t refl

  record_sealed-Closed :
      (kind : PackageKind) (ids : List String) (pkg : Package) (bundle : EvidenceBundle)
      (g : Gateway) (o : Option GatewayStore)
      → P g.store
      → ((t : GatewayStore) → o ≡ some t → P t)
      → P
          (record_sealed platform settings passphrase flow_id case_id kind existing ids pkg bundle g
            o).1.store
  unfolding record_sealed
  record_sealed-Closed kind ids pkg bundle g none h k = h
  record_sealed-Closed kind ids pkg bundle g (some s) h k =
      let recorded = c.recorded platform.now kind pkg.package_id ids s (k s refl) in
      certify-Closed kind pkg bundle _ _ recorded (λ t e.
        c.certified ("SEAL-" <> pkg.package_id) (platform.certificate pkg bundle) _ t e recorded)

  seal_bundle-Closed :
      (kind : PackageKind) (rows : List StoredEvent) (bundle : EvidenceBundle) (g : Gateway)
      → bundle.package_id ≡ platform.new_id
      → P g.store
      → P
          (seal_bundle platform settings passphrase flow_id case_id kind existing rows bundle
            g).1.store
  unfolding seal_bundle
  seal_bundle-Closed kind rows bundle g named h =
      let ids = event_ids (events_of rows) in
      let pkg = package_of platform passphrase flow_id case_id kind existing ids bundle in
      if-Closed (not (verify_evidence_bundle platform.sha256 bundle).overall_ok) _ _ h (
        unless-Closed (refusal platform settings passphrase flow_id case_id kind (events_of rows)) _
          g
          (record_sealed-Closed kind ids pkg bundle g (save_package pkg g.store) h
            (λ t e. c.saved pkg g.store t named e h))
          h)

  seal_built-Closed :
      (kind : PackageKind) (rows : List StoredEvent) (g : Gateway) (o : Option EvidenceBundle)
      → ((bundle : EvidenceBundle) → o ≡ some bundle → bundle.package_id ≡ platform.new_id)
      → P g.store
      → P (seal_built platform settings passphrase flow_id case_id kind existing rows g o).1.store
  seal_built-Closed kind rows g none named h = h
  seal_built-Closed kind rows g (some bundle) named h =
      seal_bundle-Closed kind rows bundle g (named bundle refl) h

  seal_rows-Closed :
      (kind : PackageKind) (rows : List StoredEvent) (g : Gateway)
      → P g.store
      → P (seal_rows platform settings passphrase flow_id case_id kind existing rows g).1.store
  unfolding seal_rows build_evidence_bundle
  seal_rows-Closed kind rows g h =
      seal_built-Closed kind rows g
        (build_evidence_bundle platform.sha256 platform.new_id platform.now
          (options_of platform settings passphrase flow_id case_id kind rows))
        (build-package_id platform.sha256 platform.new_id platform.now
          (options_of platform settings passphrase flow_id case_id kind rows)
          (options_of platform settings passphrase flow_id case_id kind rows).events refl)
        h

  reloaded-Closed :
      (id : String) (g : Gateway) (o : Option (Option Package × GatewayStore))
      → load_package id g.store ≡ o
      → P g.store
      → P (reloaded g o).1.store
  reloaded-Closed id g none e h = h
  reloaded-Closed id g (some (none, t)) e h = c.loaded id none g.store t e h
  reloaded-Closed id g (some (some pkg, t)) e h = c.loaded id (some pkg) g.store t e h

  pub seal_primary-Closed :
      (rows : List StoredEvent) (g : Gateway)
      → P g.store
      → P (seal_primary platform settings passphrase flow_id case_id existing rows g).1.store
  unfolding seal_primary
  seal_primary-Closed rows g h =
      seal_rows-Closed primary (get_case flow_id case_id (mark_case flow_id rows g.store))
        (with_store g (mark_case flow_id rows g.store))
        (unfold mark_case in mark_by-Closed (pack_of flow_id) rows g.store h)

  seal_supplement-Closed :
      (rec : CaseSealRecord) (rows : List StoredEvent) (g : Gateway)
      → existing ≡ some rec
      → P g.store
      → P (seal_supplement platform settings passphrase flow_id case_id rec rows g).1.store
  unfolding seal_supplement
  seal_supplement-Closed rec [] g e h =
      reloaded-Closed rec.primary_package_id g (load_package rec.primary_package_id g.store) refl h
  seal_supplement-Closed rec (r ∷ rows) g e h =
      subst
        (λ o.
          P
            (seal_rows platform settings passphrase flow_id case_id supplemental o (r ∷ rows)
              g).1.store)
        e (seal_rows-Closed supplemental (r ∷ rows) g h)

  seal_by-Closed :
      (o : Option CaseSealRecord) (rows : List StoredEvent) (g : Gateway)
      → existing ≡ o
      → P g.store
      → P (seal_by platform settings passphrase flow_id case_id o rows g).1.store
  unfolding seal_by
  seal_by-Closed none rows g e h =
      subst (λ o. P (seal_primary platform settings passphrase flow_id case_id o rows g).1.store) e
        (seal_primary-Closed rows g h)
  seal_by-Closed (some rec) rows g e h =
      if-Closed settings.supplemental_packages _ _
        (seal_supplement-Closed rec (unsealed_events flow_id case_id g.store) g e h)
        (subst (λ o. P (seal_primary platform settings passphrase flow_id case_id o rows g).1.store)
          e (seal_primary-Closed rows g h))

  seal_known-Closed :
      (rows : List StoredEvent) (g : Gateway)
      → existing ≡ get_seal_record flow_id case_id g.store
      → P g.store
      → P (seal_known platform settings passphrase flow_id case_id rows g).1.store
  unfolding seal_known
  seal_known-Closed [] g e h = h
  seal_known-Closed (r ∷ rows) g e h =
      seal_by-Closed (get_seal_record flow_id case_id g.store) (r ∷ rows) g e h

-- What each change to the store keeps, sealing a case keeps, whether it succeeds or not.
pub seal_case-Closed {κ} :
    (platform : Platform) (settings : Settings) (passphrase flow_id case_id : String) (g : Gateway)
    (P : GatewayStore → Type κ)
    → IsClosed platform.new_id flow_id case_id (get_seal_record flow_id case_id g.store) P
    → P g.store
    → P (seal_case platform settings passphrase flow_id case_id g).1.store
unfolding seal_case
seal_case-Closed platform settings passphrase flow_id case_id g P c h =
    seal_known-Closed platform settings passphrase flow_id case_id
      (get_seal_record flow_id case_id g.store) P c (get_case flow_id case_id g.store) g refl h
