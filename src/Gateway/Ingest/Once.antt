-- ===== src/Gateway/Ingest/Once.antt =====
-- apps/gateway/src/server.ts, ingestEvent: events with a known identifier, and blocked events.
use qev_platform.Base.{
  String, eq_refl, ◌≡◌, ◌≢◌, refl, Bool, true, false, ◌&&◌, some, if◌then◌else◌, or_else,
  Bool-cases, inl, inr, and_right,
}
use qev_platform.Event.{QevEvent, block}
use qev_platform.Policy.{PolicyDecision, evaluate_policy, policy_for_flow, apply_decision_to_event}
use qev_platform.Runtime.Queue.{DurableQueue, enqueue}
use qev_platform.Runtime.Queue.Files.{QueueJob}
use qev_platform.Gateway.Store.{
  GatewayStore, has_event, storage_id, put_event, PutResult, invalid, duplicate, stored, add_row,
}
use qev_platform.Gateway.Store.Consistent.{lookup-add_row}
use qev_platform.Gateway.Store.Cases.{row_of, put_event-stored}
use qev_platform.Gateway.Sealing.Parts.{Gateway, SealAnswer, refused}
use qev_platform.Gateway.Sealing.Primary.{seal_case-has_event}
use qev_platform.Gateway.Ingest.{
  IngestOptions, Process, IngestAnswer, duplicate_event, is_block, wants_seal, asked, automatic,
  seal_after, stored_after, decide_event, ingest_event, ingest_job,
}

module _ (id : String) where
  abbrev pub Has : IngestAnswer × Gateway → Type 0
  Has r = has_event id r.1.store ≡ true

  if-Has :
      (b : Bool) (x y : IngestAnswer × Gateway)
      → (b ≡ true → Has x)
      → (b ≡ false → Has y)
      → Has (if b then x else y)
  if-Has true x y h k = h refl
  if-Has false x y h k = k refl

  asked-Has :
      (d : PolicyDecision) (a : SealAnswer) (g : Gateway)
      → has_event id g.store ≡ true
      → Has (asked d (a, g))
  asked-Has d (refused m) g h = h
  asked-Has d _ g h = h

  automatic-Has :
      (d : PolicyDecision) (a : SealAnswer) (g : Gateway)
      → has_event id g.store ≡ true
      → Has (automatic d (a, g))
  automatic-Has d (refused m) g h = h
  automatic-Has d _ g h = h

  seal_after-Has :
      (process : Process) (opts : IngestOptions) (d : PolicyDecision) (event : QevEvent)
      (g : Gateway)
      → has_event id g.store ≡ true
      → Has (seal_after process opts d event g)
  unfolding seal_after
  seal_after-Has process opts d event g h =
      let kept = λ (passphrase : String).
        seal_case-has_event process.platform process.settings passphrase event.flow_id event.case_id
          id g h in
      if-Has (is_block d.effect) _ _ (λ _. h)
        (λ _.
          if-Has opts.seal_if_complete _ _
            (λ _. asked-Has d _ _ (kept (or_else opts.passphrase process.package_passphrase)))
            (λ _.
              if-Has (wants_seal process.settings event g.store) _ _
                (λ _. automatic-Has d _ _ (kept process.package_passphrase)) (λ _. h)))

put_event-invalid :
    (event : QevEvent) (d : PolicyDecision) (s : GatewayStore)
    → storage_id event.event_id ≡ true
    → put_event event d s ≢ invalid
unfolding put_event
put_event-invalid event d s ok h = elim (Bool-cases (has_event event.event_id s)) [
  | inl old ↦ let clash : duplicate ≡ invalid = rw (ok, old) at h in cc
  | inr new ↦ let clash = rw (ok, new) at h in cc
]

put_event-duplicate :
    (event : QevEvent) (d : PolicyDecision) (s : GatewayStore)
    → storage_id event.event_id ≡ true
    → put_event event d s ≡ duplicate
    → has_event event.event_id s ≡ true
unfolding put_event
put_event-duplicate event d s ok h = elim (Bool-cases (has_event event.event_id s)) [
  | inl old ↦ old
  | inr new ↦ let clash = rw (ok, new) at h in cc
]

put_event-has_event :
    (event : QevEvent) (d : PolicyDecision) (s t : GatewayStore)
    → put_event event d s ≡ stored t
    → has_event event.event_id t ≡ true
unfolding has_event
put_event-has_event event d s t h =
    let (ok, new, e) = put_event-stored event d s t h in
    rw (e, lookup-add_row (row_of event d) s event.event_id, eq_refl event.event_id) refl

stored_after-Has :
    (process : Process) (opts : IngestOptions) (d : PolicyDecision) (event : QevEvent) (dup : Bool)
    (g : Gateway) (r : PutResult)
    → put_event event d g.store ≡ r
    → storage_id event.event_id ≡ true
    → Has event.event_id (stored_after process opts d event dup g r)
unfolding stored_after
stored_after-Has process opts d event dup g invalid e ok =
    absurd (put_event-invalid event d g.store ok e)
stored_after-Has process opts d event dup g (stored t) e ok =
    seal_after-Has event.event_id process opts d event _ (put_event-has_event event d g.store t e)
stored_after-Has process opts d event dup g duplicate e ok =
    seal_after-Has event.event_id process opts d event _ (put_event-duplicate event d g.store ok e)

decide_event-Has :
    (process : Process) (opts : IngestOptions) (event : QevEvent) (q : DurableQueue)
    (job : QueueJob) (dup : Bool) (g : Gateway)
    → storage_id event.event_id ≡ true
    → Has event.event_id (decide_event process opts event (q, job, dup) g)
unfolding decide_event apply_decision_to_event
decide_event-Has process opts event q job dup g ok =
    let d =
      evaluate_policy process.lower event (some (policy_for_flow event.flow_id))
        process.platform.now in
    let final = apply_decision_to_event event d in
    if-Has event.event_id (dup && has_event event.event_id g.store) _ _
      (λ both. and_right dup (has_event event.event_id g.store) both)
      (λ _.
        stored_after-Has process opts d final dup (record g { queue = q })
          (put_event final d g.store) refl ok)

ingest_event-Has :
    (process : Process) (opts : IngestOptions) (event : QevEvent) (g : Gateway)
    → storage_id event.event_id ≡ true
    → Has event.event_id (ingest_event process opts event g)
unfolding ingest_event
ingest_event-Has process opts event g ok =
    let (q, job, dup) =
      enqueue process.job_id process.platform.now (ingest_job process event) g.queue in
    if-Has event.event_id (has_event event.event_id g.store) _ _ (λ h. h)
      (λ _. decide_event-Has process opts event q job dup g ok)

ingest_event-known :
    (process : Process) (opts : IngestOptions) (event : QevEvent) (g : Gateway)
    → has_event event.event_id g.store ≡ true
    → ingest_event process opts event g ≡ (duplicate_event, g)
unfolding ingest_event
ingest_event-known process opts event g h = rw h refl

-- Once an event with a valid identifier was ingested, an event with the same identifier is a duplicate
-- and changes nothing, whatever became of the first one.
pub ingest_event-twice :
    (process process' : Process) (opts opts' : IngestOptions) (event event' : QevEvent)
    (g : Gateway)
    → storage_id event.event_id ≡ true
    → event'.event_id ≡ event.event_id
    → ingest_event process' opts' event' (ingest_event process opts event g).1
      ≡ (duplicate_event, (ingest_event process opts event g).1)
ingest_event-twice process process' opts opts' event event' g ok same =
    ingest_event-known process' opts' event' (ingest_event process opts event g).1
      (rw same (ingest_event-Has process opts event g ok))

-- What sealing would change: the records of the seals and the packages on disk.
pub record IsUnsealed (s t : GatewayStore) : Type 0 where
  pub seals : t.seals_by_case ≡ s.seals_by_case
  pub packages : t.package_files ≡ s.package_files

put_event-IsUnsealed :
    (event : QevEvent) (d : PolicyDecision) (s t : GatewayStore)
    → put_event event d s ≡ stored t
    → IsUnsealed s t
unfolding add_row
put_event-IsUnsealed event d s t h =
    let (ok, new, e) = put_event-stored event d s t h in
    rw e (record { seals = refl; packages = refl })

if-IsUnsealed :
    (s : GatewayStore) (b : Bool) (x y : IngestAnswer × Gateway)
    → IsUnsealed s x.1.store
    → IsUnsealed s y.1.store
    → IsUnsealed s (if b then x else y).1.store
if-IsUnsealed s true x y h k = h
if-IsUnsealed s false x y h k = k

stored_after-IsUnsealed :
    (process : Process) (opts : IngestOptions) (d : PolicyDecision) (event : QevEvent) (dup : Bool)
    (g : Gateway) (r : PutResult)
    → put_event event d g.store ≡ r
    → d.effect ≡ block
    → IsUnsealed g.store (stored_after process opts d event dup g r).1.store
unfolding stored_after seal_after
stored_after-IsUnsealed process opts d event dup g invalid e b = record {
  seals = refl;
  packages = refl;
}
stored_after-IsUnsealed process opts d event dup g (stored t) e b =
    rw b (put_event-IsUnsealed event d g.store t e)
stored_after-IsUnsealed process opts d event dup g duplicate e b =
    rw b (record { seals = refl; packages = refl })

-- An event that the policy of its flow blocks seals nothing, even if sealing was asked for.
pub ingest_event-IsUnsealed :
    (process : Process) (opts : IngestOptions) (event : QevEvent) (g : Gateway)
    → (evaluate_policy process.lower event
        (some (policy_for_flow event.flow_id))
        process.platform.now).effect
      ≡ block
    → IsUnsealed g.store (ingest_event process opts event g).1.store
unfolding ingest_event decide_event
ingest_event-IsUnsealed process opts event g b =
    let (q, job, dup) =
      enqueue process.job_id process.platform.now (ingest_job process event) g.queue in
    let d =
      evaluate_policy process.lower event (some (policy_for_flow event.flow_id))
        process.platform.now in
    let final = apply_decision_to_event event d in
    let same : IsUnsealed g.store g.store = record { seals = refl; packages = refl } in
    if-IsUnsealed g.store (has_event event.event_id g.store) _ _ same (
      if-IsUnsealed g.store (dup && has_event event.event_id g.store) _ _ same (
        stored_after-IsUnsealed process opts d final dup (record g { queue = q })
          (put_event final d g.store) refl b))
