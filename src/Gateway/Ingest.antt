-- ===== src/Gateway/Ingest.antt =====
-- apps/gateway/src/server.ts, ingestEvent: an event is enqueued, decided, stored, logged and, when its
-- case is complete, sealed.
pub mod Once
use qev_platform.Base.{
  String, ◌==◌, Bool, true, false, not, ◌&&◌, ◌||◌, Option, none, some, List, [], ◌∷◌, map, ◌<>◌,
  if◌then◌else◌, or_else, is_some,
}
use qev_platform.Json.{str, obj, field, end}
use qev_platform.Event.{PolicyEffect, block, QevEvent}
use qev_platform.Flow.{field_service_pack}
use qev_platform.Policy.{
  PolicyDecision, outcome_text, evaluate_policy, policy_for_flow, apply_decision_to_event,
}
use qev_platform.Ops.Completeness.{evaluate_completeness}
use qev_platform.Runtime.Idempotency.{KeyParts, make_idempotency_key}
use qev_platform.Runtime.Queue.{DurableQueue, EnqueueOptions, enqueue, claim_next, complete}
use qev_platform.Runtime.Queue.Files.{QueueJob}
use qev_platform.Runtime.CaseLog.{AppendOptions, append}
use qev_platform.Gateway.Store.{
  GatewayStore, has_event, put_event, PutResult, invalid, duplicate, stored, get_case,
  get_seal_record, unsealed_events,
}
use qev_platform.Gateway.Sealing.Parts.{
  Settings, Gateway, SealAnswer, refused, already_sealed, sealed, Platform, events_of,
}
use qev_platform.Gateway.Sealing.{with_store, seal_case}

-- `seal_if_complete` and the passphrase, if the caller gives one.
pub record IngestOptions : Type 0 where
  pub seal_if_complete : Bool
  pub passphrase : Option String

-- What the process has beside the platform: its settings, the passphrase of its configuration, the id of
-- the next job, how texts are lowered, and the digest that names a delivery without an id.
pub record Process : Type 0 where
  pub platform : Platform
  pub settings : Settings
  pub package_passphrase : String
  pub job_id : String
  pub lower : String → String
  pub generated : KeyParts → String

-- The seal that followed, if there was one: asked for, or automatic.
pub data IngestAnswer : Type 0 where
  duplicate_event : IngestAnswer
  failed : (message : String) → IngestAnswer
  blocked_event : PolicyDecision → IngestAnswer
  accepted : PolicyDecision → (seal : Option SealAnswer) → (auto_sealed : Bool) → IngestAnswer

abbrev key_parts : QevEvent → KeyParts
key_parts event = record {
  tenant_id = event.tenant_id;
  connector = event.source.connector;
  provider_event_id = event.source.provider_event_id;
  event_id = some event.event_id;
  raw_body_sha256 = event.source.raw_body_sha256;
}

abbrev ingest_job : Process → QevEvent → EnqueueOptions
ingest_job process event = record {
  kind = "ingest.event";
  payload = obj (field "event_id" (str event.event_id) end);
  idempotency_key = make_idempotency_key process.generated (key_parts event);
  max_attempts = none;
}

abbrev accepted_entry : QevEvent → AppendOptions
accepted_entry event = record {
  case_id = event.case_id;
  flow_id = event.flow_id;
  kind = "event.accepted";
  event_id = some event.event_id;
  package_id = none;
  summary =
      event.action <> " (" <> outcome_text event.outcome <> ") via " <> event.source.connector;
}

-- The job is claimed and completed at once, unless it was a duplicate.
abbrev complete_claimed : (now : String) → DurableQueue × Option QueueJob → DurableQueue
complete_claimed now (q, none) = q
complete_claimed now (q, some job) = complete job.id now q

unfoldable pub settle_job : (duplicate : Bool) → (now : String) → DurableQueue → DurableQueue
unfolding complete claim_next
settle_job true now q = q
settle_job false now q = complete_claimed now (claim_next now q)

abbrev pub is_block : PolicyEffect → Bool
is_block block = true
is_block _ = false

-- Whether a case is sealed without being asked: the setting, the flow, its completeness, and no seal
-- before or events that no package holds.
unfoldable pub wants_seal : Settings → QevEvent → GatewayStore → Bool
unfolding evaluate_completeness get_case get_seal_record unsealed_events
wants_seal settings event store =
    let rows = get_case event.flow_id event.case_id store in
    let existing = get_seal_record event.flow_id event.case_id store in
    let has_new = elim (unsealed_events event.flow_id event.case_id store) as (λ _. Bool) [
      | [] ↦ false
      | _ ↦ true
    ] in
    settings.auto_seal
    && (event.flow_id == "field-service"
        && ((evaluate_completeness (events_of rows) field_service_pack
              event.case_id).complete_for_seal
            && (not (is_some existing) || (settings.supplemental_packages && has_new))))

-- A seal that was asked for passes its error on.
abbrev pub asked : PolicyDecision → SealAnswer × Gateway → IngestAnswer × Gateway
asked decision (refused message, g) = (failed message, g)
asked decision (answer, g) = (accepted decision (some answer) false, g)

-- The error of an automatic seal is caught.
abbrev pub automatic : PolicyDecision → SealAnswer × Gateway → IngestAnswer × Gateway
automatic decision (refused message, g) = (accepted decision none false, g)
automatic decision (answer, g) = (accepted decision (some answer) true, g)

unfoldable pub seal_after :
    Process → IngestOptions → PolicyDecision → QevEvent → Gateway → IngestAnswer × Gateway
unfolding seal_case wants_seal
seal_after process opts decision event g =
    let seal = λ (passphrase : String).
      seal_case process.platform process.settings passphrase event.flow_id event.case_id g in
    if is_block decision.effect
    then (blocked_event decision, g)
    else if opts.seal_if_complete
    then asked decision (seal (or_else opts.passphrase process.package_passphrase))
    else if wants_seal process.settings event g.store
    then automatic decision (seal process.package_passphrase)
    else (accepted decision none false, g)

-- After putEvent: an identifier that is not valid throws; a duplicate goes on with the store as it is.
unfoldable pub stored_after :
    Process
    → IngestOptions
    → PolicyDecision
    → QevEvent
    → (duplicate : Bool) → Gateway
    → PutResult
    → IngestAnswer × Gateway
unfolding append settle_job seal_after
stored_after process opts decision event dup g invalid = (failed "Invalid storage identifier", g)
stored_after process opts decision event dup g (stored store) =
    let platform = process.platform in
    seal_after process opts decision event (record g {
      store = store;
      log = (append platform.sha256 platform.now (accepted_entry event) g.log).0;
      queue = settle_job dup platform.now g.queue;
    })
stored_after process opts decision event dup g duplicate =
    let platform = process.platform in
    seal_after process opts decision event (record g {
      log = (append platform.sha256 platform.now (accepted_entry event) g.log).0;
      queue = settle_job dup platform.now g.queue;
    })

unfoldable pub decide_event :
    Process
    → IngestOptions
    → QevEvent
    → DurableQueue × QueueJob × Bool
    → Gateway
    → IngestAnswer × Gateway
unfolding stored_after evaluate_policy policy_for_flow apply_decision_to_event has_event put_event
decide_event process opts event (queue, job, dup) g =
    let queued = record g { queue = queue } in
    let decision =
      evaluate_policy process.lower event (some (policy_for_flow event.flow_id))
        process.platform.now in
    let final = apply_decision_to_event event decision in
    if dup && has_event event.event_id g.store
    then (duplicate_event, queued)
    else stored_after process opts decision final dup queued (put_event final decision queued.store)

unfoldable pub ingest_event : Process → IngestOptions → QevEvent → Gateway → IngestAnswer × Gateway
unfolding decide_event has_event enqueue make_idempotency_key
ingest_event process opts event g =
    if has_event event.event_id g.store
    then (duplicate_event, g)
    else decide_event process opts event
        (enqueue process.job_id process.platform.now (ingest_job process event) g.queue) g
