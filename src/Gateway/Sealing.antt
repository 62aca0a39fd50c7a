-- ===== src/Gateway/Sealing.antt =====
-- apps/gateway/src/server.ts, sealCase: the events of a case are sealed into a package. What was done
-- before an error is thrown stays done, so the state is returned beside the answer.
pub mod Parts
pub mod Closed
pub mod Kept
pub mod Primary
pub mod Recorded
pub mod Complete
use qev_platform.Base.{
  ℕ, String, ◌==◌, Bool, true, false, not, ◌&&◌, Option, none, some, List, [], ◌∷◌, ◌++◌, map, ◌<>◌,
  if◌then◌else◌, or_else, filter, any, contains, distinct, get_last?, is_some, lookup, insert,
}
use qev_platform.Event.{
  QevEvent, QevKnownGap, Severity, EvidenceBundle, BundleOutcome, complete, incomplete, failed,
}
use qev_platform.Flow.{FlowPack, field_service_pack}
use qev_platform.Policy.{PolicyDecision}
use qev_platform.Ops.Completeness.{CompletenessReport, evaluate_completeness, join_list}
use qev_platform.Ops.Modes.{OperatingMode, GateAnswer, normalize_mode, gate_would_block}
use qev_platform.Bundle.Build.{BuildOptions, build_evidence_bundle, event_ids}
use qev_platform.Bundle.Verify.{verify_evidence_bundle}
use qev_platform.Runtime.CaseLog.{CaseLog, AppendOptions, append}
use qev_platform.Runtime.Queue.{DurableQueue}
use qev_platform.Gateway.Store.{
  StoredEvent, CaseSealRecord, PackageKind, primary, supplemental, PackageMeta, Package,
  GatewayStore, get_case, get_seal_record, unsealed_events, save_package, load_package, record_seal,
  save_certificate,
}
use Parts.{
  Settings, Gateway, SealAnswer, refused, already_sealed, sealed, Platform, pack_of, events_of,
  decisions_of, mark_case, gate_refusal, next_record, package_of, log_options,
}

-- xs.join("; ")
join_failures : List String → String
join_failures [] = ""
join_failures (x ∷ []) = x
join_failures (x ∷ y ∷ ys) = x <> "; " <> join_failures (y ∷ ys)

abbrev pub with_store : Gateway → GatewayStore → Gateway
with_store g store = record g { store = store }

abbrev unless : Option String → SealAnswer × Gateway → Gateway → SealAnswer × Gateway
unless none done g = done
unless (some reason) done g = (refused reason, g)

abbrev reloaded : Gateway → Option (Option Package × GatewayStore) → SealAnswer × Gateway
reloaded g none = (refused "Invalid storage identifier", g)
reloaded g (some (none, store)) =
    (refused "Primary package missing from storage", with_store g store)
reloaded g (some (some pkg, store)) = (already_sealed pkg, with_store g store)

module _ (platform : Platform) (settings : Settings) (passphrase flow_id case_id : String) where
  -- The certificate and the entry in the log, after the seal is recorded.
  abbrev certify :
      PackageKind → Package → EvidenceBundle → Gateway → Option GatewayStore → SealAnswer × Gateway
  certify kind pkg bundle g none = (refused "Invalid storage identifier", g)
  certify kind pkg bundle g (some store) = (
    sealed kind pkg,
    record g {
      store = store;
      log =
          (append platform.sha256 platform.now (log_options flow_id case_id kind pkg bundle)
            g.log).0;
    },
  )

  -- The record of the seal, after the package is saved.
  unfoldable pub record_sealed :
      PackageKind
      → Option CaseSealRecord
      → List String
      → Package
      → EvidenceBundle
      → Gateway
      → Option GatewayStore
      → SealAnswer × Gateway
  unfolding record_seal save_certificate append next_record
  record_sealed kind existing ids pkg bundle g none = (refused "Invalid storage identifier", g)
  record_sealed kind existing ids pkg bundle g (some store) =
      let rec = next_record flow_id case_id platform.now kind existing pkg.package_id ids in
      let recorded = record_seal rec store in
      certify kind pkg bundle (with_store g recorded)
        (save_certificate ("SEAL-" <> pkg.package_id) (platform.certificate pkg bundle) recorded)

  abbrev refusal : PackageKind → List QevEvent → Option String
  refusal supplemental events = none
  refusal primary events = elim (pack_of flow_id) [
    | none ↦ none
    | some pack ↦ gate_refusal settings pack case_id events
  ]

  abbrev options_of : PackageKind → List StoredEvent → BuildOptions
  options_of kind rows = record {
    events = events_of rows;
    decisions = some (decisions_of rows);
    package_id = none;
    flow_pack_version = some (elim (pack_of flow_id) [ none ↦ "0.1.0" | some pack ↦ pack.version ]);
    title = some (elim kind [
      | supplemental ↦ flow_id <> " " <> case_id <> " (supplemental)"
      | primary ↦ flow_id <> " " <> case_id
    ]);
  }

  -- The bundle of the rows is verified and put into a package, unless the gate refuses.
  unfoldable pub seal_bundle :
      PackageKind
      → Option CaseSealRecord
      → List StoredEvent
      → EvidenceBundle
      → Gateway
      → SealAnswer × Gateway
  unfolding record_sealed save_package verify_evidence_bundle gate_refusal join_failures
  seal_bundle kind existing rows bundle g =
      let report = verify_evidence_bundle platform.sha256 bundle in
      let ids = event_ids (events_of rows) in
      let pkg = package_of platform passphrase flow_id case_id kind existing ids bundle in
      let done = record_sealed kind existing ids pkg bundle g (save_package pkg g.store) in
      if not report.overall_ok
      then (refused ("Bundle integrity failed: " <> join_failures report.failures), g)
      else unless (refusal kind (events_of rows)) done g

  abbrev seal_built :
      PackageKind
      → Option CaseSealRecord
      → List StoredEvent
      → Gateway
      → Option EvidenceBundle
      → SealAnswer × Gateway
  seal_built kind existing rows g none =
      (refused "Cannot build evidence bundle with zero events", g)
  seal_built kind existing rows g (some bundle) = seal_bundle kind existing rows bundle g

  unfoldable pub seal_rows :
      PackageKind → Option CaseSealRecord → List StoredEvent → Gateway → SealAnswer × Gateway
  unfolding seal_bundle build_evidence_bundle
  seal_rows kind existing rows g =
      seal_built kind existing rows g
        (build_evidence_bundle platform.sha256 platform.new_id platform.now (options_of kind rows))

  -- Only the events that no package holds; without any, the primary package is given again.
  unfoldable pub seal_supplement :
      CaseSealRecord → List StoredEvent → Gateway → SealAnswer × Gateway
  unfolding seal_rows load_package
  seal_supplement existing [] g = reloaded g (load_package existing.primary_package_id g.store)
  seal_supplement existing (r ∷ rows) g = seal_rows supplemental (some existing) (r ∷ rows) g

  unfoldable pub seal_primary :
      Option CaseSealRecord → List StoredEvent → Gateway → SealAnswer × Gateway
  unfolding seal_rows mark_case get_case
  seal_primary existing rows g =
      let marked = mark_case flow_id rows g.store in
      seal_rows primary existing (get_case flow_id case_id marked) (with_store g marked)

  unfoldable seal_by : Option CaseSealRecord → List StoredEvent → Gateway → SealAnswer × Gateway
  unfolding seal_supplement seal_primary unsealed_events
  seal_by none rows g = seal_primary none rows g
  seal_by (some existing) rows g =
      if settings.supplemental_packages
      then seal_supplement existing (unsealed_events flow_id case_id g.store) g
      else seal_primary (some existing) rows g

  unfoldable pub seal_known : List StoredEvent → Gateway → SealAnswer × Gateway
  unfolding seal_by get_seal_record
  seal_known [] g = (refused ("No events for " <> flow_id <> "/" <> case_id), g)
  seal_known (r ∷ rows) g = seal_by (get_seal_record flow_id case_id g.store) (r ∷ rows) g

  unfoldable pub seal_case : Gateway → SealAnswer × Gateway
  unfolding get_case seal_known
  seal_case g = seal_known (get_case flow_id case_id g.store) g
