-- ===== src/Gateway/Sealing/Parts.antt =====
-- apps/gateway/src/server.ts, the parts of sealCase: the gaps that it notes, the gate that it asks, and the
-- package, the record and the log entry that it writes.
use qev_platform.Base.{
  String, ◌==◌, Bool, not, ◌&&◌, Option, none, some, List, [], ◌∷◌, ◌++◌, map, ◌<>◌, if◌then◌else◌,
  or_else, filter, any, contains, distinct, get_last?, insert,
}
use qev_platform.Event.{
  QevEvent, QevKnownGap, Severity, EvidenceBundle, BundleOutcome, complete, incomplete, failed,
}
use qev_platform.Flow.{FlowPack, field_service_pack}
use qev_platform.Policy.{PolicyDecision}
use qev_platform.Ops.Completeness.{evaluate_completeness, join_list}
use qev_platform.Ops.Modes.{normalize_mode, gate_would_block}
use qev_platform.Runtime.CaseLog.{CaseLog, AppendOptions}
use qev_platform.Runtime.Queue.{DurableQueue}
use qev_platform.Gateway.Store.{
  StoredEvent, CaseSealRecord, PackageKind, primary, supplemental, Package, GatewayStore,
}

-- The settings that sealing and ingestion read.
pub record Settings : Type 0 where
  pub mode : Option String
  pub auto_seal : Bool
  pub supplemental_packages : Bool

pub record Gateway : Type 0 where
  pub store : GatewayStore
  pub queue : DurableQueue
  pub log : CaseLog

pub data SealAnswer : Type 0 where
  refused : (message : String) → SealAnswer
  already_sealed : Package → SealAnswer
  sealed : PackageKind → Package → SealAnswer

-- What the platform gives: hashing, encryption, the text of a certificate, a fresh id for the package, the date, and the tenant.
pub record Platform : Type 0 where
  pub sha256 : String → String
  pub encrypt : (bundle : EvidenceBundle) → (passphrase : String) → String
  pub certificate : Package → EvidenceBundle → String
  pub new_id : String
  pub now : String
  pub tenant_id : String

abbrev pub pack_of : (flow_id : String) → Option FlowPack
pack_of flow_id = if flow_id == "field-service" then some field_service_pack else none

abbrev pub events_of : List StoredEvent → List QevEvent
events_of rows = map (λ (r : StoredEvent). r.event) rows

abbrev pub decisions_of : List StoredEvent → List PolicyDecision
decisions_of rows = map (λ (r : StoredEvent). r.decision) rows

abbrev pub gap_of : String → QevKnownGap
gap_of action = record {
  code = "missing_required_action";
  message = "Required action not present: " <> action;
  field = none;
  severity = some Severity.warning;
}

abbrev pub missing_of : FlowPack → List QevEvent → List String
missing_of pack events =
    filter (λ a. not (contains (map (λ (e : QevEvent). e.action) events) a)) pack.required_actions

-- A gap for each missing action, on the last event of the case: the object that the store holds.
unfoldable pub note_gaps : List String → StoredEvent → GatewayStore → GatewayStore
unfolding insert
note_gaps missing last store =
    let event = record last.event {
      known_gaps = some (or_else last.event.known_gaps [] ++ map gap_of missing);
    } in
    record store {
      events_by_id = insert last.event.event_id (record last { event = event }) store.events_by_id;
    }

abbrev pub mark_last : List String → Option StoredEvent → GatewayStore → GatewayStore
mark_last [] last store = store
mark_last (a ∷ missing) none store = store
mark_last (a ∷ missing) (some last) store = note_gaps (a ∷ missing) last store

abbrev pub mark_by : Option FlowPack → List StoredEvent → GatewayStore → GatewayStore
mark_by none rows store = store
mark_by (some pack) rows store = mark_last (missing_of pack (events_of rows)) (get_last? rows) store

-- Only flows with a pack have required actions.
unfoldable pub mark_case : (flow_id : String) → List StoredEvent → GatewayStore → GatewayStore
unfolding note_gaps
mark_case flow_id rows store = mark_by (pack_of flow_id) rows store

abbrev kind_text : PackageKind → String
kind_text primary = "primary"
kind_text supplemental = "supplemental"

abbrev outcome_name : BundleOutcome → String
outcome_name complete = "complete"
outcome_name incomplete = "incomplete"
outcome_name BundleOutcome.blocked = "blocked"
outcome_name failed = "failed"

-- Why a primary seal is refused, if it is.
unfoldable pub gate_refusal :
    Settings → FlowPack → (case_id : String) → List QevEvent → Option String
unfolding normalize_mode gate_would_block evaluate_completeness join_list
gate_refusal settings pack case_id events =
    let report = evaluate_completeness events pack case_id in
    let gate = gate_would_block (record {
      mode = normalize_mode settings.mode;
      action = "package.seal";
      has_change_approval = any (λ (e : QevEvent). e.action == "change.approved") events;
      completeness_ok = report.complete_for_seal;
    }) in
    if gate.would_block
    then some (
        or_else gate.reason "undefined"
        <> ". Disable gate mode or complete required evidence. Human confirmation required for gate.")
    else if not report.seal_allowed_in_shadow && not report.complete_for_seal
    then some ("Cannot seal: " <> join_list report.required_missing)
    else none

abbrev parent_of : Option CaseSealRecord → Option String
parent_of none = none
parent_of (some rec) = some rec.primary_package_id

abbrev pub sealed_before : Option CaseSealRecord → List String
sealed_before none = []
sealed_before (some rec) = rec.sealed_event_ids

abbrev supplements_of : Option CaseSealRecord → List String
supplements_of none = []
supplements_of (some rec) = rec.supplemental_package_ids

-- The record after a seal: the primary package stays the one it was.
unfoldable pub next_record :
    (flow_id case_id now : String)
    → PackageKind
    → Option CaseSealRecord
    → (package_id : String) → List String
    → CaseSealRecord
next_record flow_id case_id now kind existing package_id ids = record {
  flow_id = flow_id;
  case_id = case_id;
  primary_package_id = or_else (parent_of existing) package_id;
  supplemental_package_ids = elim kind [
    | supplemental ↦ supplements_of existing ++ package_id ∷ []
    | primary ↦ supplements_of existing
  ];
  sealed_event_ids = distinct (sealed_before existing ++ ids);
  updated_at = now;
}

abbrev pub package_of :
    Platform
    → (passphrase flow_id case_id : String) → PackageKind
    → Option CaseSealRecord
    → List String
    → EvidenceBundle
    → Package
package_of platform passphrase flow_id case_id kind existing ids bundle = record {
  package_id = bundle.package_id;
  created_at = platform.now;
  tenant_id = platform.tenant_id;
  flow_id = flow_id;
  case_id = case_id;
  public_meta = record {
    title = bundle.summary.title;
    event_count = bundle.summary.event_count;
    outcome = bundle.summary.outcome;
    integrity_events_sha256 = bundle.integrity.events_sha256;
    package_kind = some kind;
    parent_package_id = parent_of existing;
    sealed_event_ids = some ids;
  };
  vault = platform.encrypt bundle passphrase;
}

abbrev pub log_options :
    (flow_id case_id : String) → PackageKind → Package → EvidenceBundle → AppendOptions
log_options flow_id case_id kind pkg bundle = record {
  case_id = case_id;
  flow_id = flow_id;
  kind = elim kind [ supplemental ↦ "package.supplemental" | primary ↦ "package.sealed" ];
  event_id = none;
  package_id = some pkg.package_id;
  summary =
      kind_text kind
      <> " package "
      <> pkg.package_id
      <> " ("
      <> outcome_name bundle.summary.outcome
      <> ") signed=true cert=SEAL-"
      <> pkg.package_id;
}
