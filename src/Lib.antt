-- ===== src/Lib.antt =====
-- The core of the QEV platform: the durable queue and the case log of the runtime, the policy engine,
-- the operations package, evidence bundles, package files and their signatures, verdicts and
-- certificates, and the gateway that stores, seals, ingests and reports on them.
--
-- How the parts interact. The gateway (apps/gateway/src/server.ts) takes an event, enqueues a job for
-- it under an idempotency key, lets the policy engine decide, stores the event with the decision,
-- appends to the case log, and seals a case into an evidence bundle once it is complete. The packages
-- below are what it calls at each of these steps. Events come in by webhooks, which are normalised,
-- and from a watched folder. A sealed package is a vault with a signature; the gateway opens it again
-- and reports on it by the verifier of bundles and by verdicts.
--
-- Which file models what:
--   Runtime/Queue        packages/runtime/src/queue.ts: DurableQueue. `Files` has the directories and the
--                        writes; each operation (init, enqueue, claim_next, complete, fail,
--                        replay_dead) is the list of writes that it makes, run in order.
--   Runtime/CaseLog      packages/runtime/src/case-log.ts: CaseLog with init, append, verify_chain and
--                        list_for_case; append is its two writes.
--   Runtime/Idempotency  packages/runtime/src/idempotency.ts: makeIdempotencyKey.
--   Json                 packages/shared/src/canonical.ts: canonicalJSON.
--   Event                packages/event-schema/src/types.ts: events and bundles.
--   Policy               packages/policy-engine/src/engine.ts: evaluatePolicy, applyDecisionToEvent.
--   Flow                 packages/trust/src/flow-types.ts and field-service.ts.
--   Ops/Completeness     packages/ops/src/completeness.ts: evaluateCompleteness.
--   Ops/Modes            packages/ops/src/modes.ts and model.ts: normalizeMode, gateWouldBlock.
--   Ops/Preflight        packages/ops/src/preflight.ts: runPreflight.
--   Ops/Matching         packages/ops/src/matching.ts: matchCase; `Tags` has its regular expressions.
--   Bundle               packages/evidence-bundle/src: `Encode` writes the types of the schema as JSON
--                        objects, `Build` is build.ts and `Verify` is verify.ts.
--   Gateway/Store        apps/gateway/src/store.ts: GatewayStore, in memory and on disk.
--   Gateway/Sealing      apps/gateway/src/server.ts: sealCase; `Parts` has what it writes, the package as
--                        in packages/core/src/package-file.ts.
--   Gateway/Ingest       apps/gateway/src/server.ts: ingestEvent.
--   Gateway/Door         apps/gateway/src/server.ts: the handler of requests up to the routes, with the
--                        route of the signed webhooks in `Serve`; Gateway/Headers reads headers and paths.
--   Gateway/Activation   apps/gateway/src/server.ts: buildPreflightReport, and the route that puts
--                        the settings.
--   Gateway/Report       apps/gateway/src/server.ts: verifyPackageFull.
--   Gateway/Watch        apps/gateway/src/file-watch.ts: the scan of a folder, as recursion on its tree.
--   Gateway/Config       apps/gateway/src/config.ts: loadConfig.
--   Gateway/Settings     apps/gateway/src/settings.ts and keys.ts: SettingsStore, SigningKeyStore.
--   Core                 packages/core/src: `Signing` is signing.ts, `PackageFile` is package-file.ts.
--   Shared               packages/shared/src: `B64` is b64.ts, `Hash` is hash.ts.
--   Connect              packages/event-schema/src: `Validate` is validate.ts, `Webhook` and
--                        `Untyped` are normalize-webhook.ts.
--   Trust                packages/trust/src: `Verdicts` is verdicts.ts, `Badges` is workflow-badge.ts,
--                        `Certificate` is seal-certificate.ts.
--   Base                 lists, maps, sorting and texts, which all of them share.
--
-- State is a record that the operations take and return. Files are part of it: a crash of the queue
-- is a prefix of an operation's writes, a crash of the log the first of its two. Errors that are
-- thrown are `none` or a constructor of a result type. All recursion is structural; only `decimal`
-- counts with fuel, the number plus one, which is more than its digits.
--
-- Parameters, for code outside the repository: `sha256` (node:crypto), `lower`
-- (String.prototype.toLowerCase), `iso` (Date.prototype.toISOString), `cut` (slice to 2000), fresh
-- ids and the dates that the clock gives; in Core the record `Crypto` (node:crypto, Buffer,
-- @noble/ed25519); node:path and Number in Config; JSON.parse, decodeURIComponent and an HMAC
-- (node:crypto) in Door, JSON.stringify of a package, localeCompare. Parameters too, for code of the
-- repository: the record `Vaults` (packages/core/src/vault.ts), which is not modelled, and in
-- sealCase `encrypt` for it and `certificate` for the text of a certificate. Where a theorem on the
-- queue needs it, a fresh id is one that names no file yet. Where a theorem on packages needs it,
-- base64 can be undone and its texts have their documented form, a signature is accepted under the
-- key that belongs to it, decryption undoes encryption under the same password, and the text of a
-- bundle parses to it. Nothing else is assumed of them.
--
-- Simplifications. An operation reads the clock once. Operations do not interleave within a process.
-- The directories hold only files that were written by these operations, and all of them parse. Texts
-- are sequences of Unicode scalar values, compared by UTF-16 code units. A number in JSON is kept as
-- its text. Math.round is computed exactly, where the code divides in floating point. A record that is
-- used as a map has its own keys only. The answers of sealCase and ingestEvent hold the package, its
-- kind and the decision, without the fields that repeat them for display.
--
-- A file that is watched has whole milliseconds for its date, and its path is in normal form. Settings
-- and keys are kept as the values in their files. The code takes the body of a
-- webhook for one of its declared type, unchecked: Connect/Webhook is normalizeGenericWebhook on such
-- a body, with any value for its case_id, and Connect/Untyped on any JSON value. What ingestion makes
-- of an event with values of other types is not modelled; in Door, any answer and any new state may
-- come of it.
--
-- Not modelled: the routes behind the front door but for the signed webhooks and the putting of
-- settings, static files and the bodies of answers, the vault's encryption
-- (packages/core/src/vault.ts), the timer and the platform's watcher around the scan of a folder,
-- the admin pages, the sdk, the scripts and the command line verifier, which are input and output,
-- presentation, or calls of cryptographic libraries; and the listings of the store, which sort by
-- the locale.
pub mod Base
pub mod Json
pub mod Event
pub mod Runtime
pub mod Policy
pub mod Flow
pub mod Ops
pub mod Bundle
pub mod Gateway
pub mod Shared
pub mod Core
pub mod Trust
pub mod Connect
