-- ===== src/Runtime/CaseLog.antt =====
-- packages/runtime/src/case-log.ts: the append-only log with chained digests. A line of the file is
-- the entry that was written to it; the file and the meta file may be missing.
pub mod Chain
pub mod History
pub mod Torn
pub mod Said
pub mod Tamper
mod Tests
use qev_platform.Base.{
  ℕ, zero, suc, ◌+◌, String, Bool, true, false, not, Option, none, some, List, [], ◌∷◌, ◌++◌, ◌==◌,
  eqb, ◌<>◌, decimal, length, filter, if◌then◌else◌,
}
use qev_platform.Json.{Json, Fields, obj, num, str, end, field, canonical_json, optional}

pub record CaseLogEntry : Type 0 where
  pub seq : ℕ
  pub at : String
  pub case_id : String
  pub flow_id : String
  pub kind : String
  pub event_id : Option String
  pub package_id : Option String
  pub summary : String
  pub prev_digest : String
  pub digest : String

pub record AppendOptions : Type 0 where
  pub case_id : String
  pub flow_id : String
  pub kind : String
  pub event_id : Option String
  pub package_id : Option String
  pub summary : String

pub record Meta : Type 0 where
  pub seq : ℕ
  pub last_digest : String

-- `lines` and `meta` are the two files; the other fields are those of the class.
pub record CaseLog : Type 0 where
  pub lines : Option (List CaseLogEntry)
  pub meta : Option Meta
  pub seq : ℕ
  pub last_digest : String
  pub ready : Bool

abbrev pub genesis : String
genesis = "0000000000000000000000000000000000000000000000000000000000000000"

-- What `new CaseLog` gives over the two files.
abbrev pub opened : Option (List CaseLogEntry) → Option Meta → CaseLog
opened lines meta = record {
  lines = lines;
  meta = meta;
  seq = 0;
  last_digest = genesis;
  ready = false;
}

unfoldable pub init : CaseLog → CaseLog
init log = elim log.meta [
  | some m ↦ record log { seq = m.seq; last_digest = m.last_digest; ready = true }
  | none ↦ record log {
    meta = some (record { seq = 0; last_digest = log.last_digest });
    ready = true;
  }
]

abbrev pub ensure_ready : CaseLog → CaseLog
ensure_ready log = if log.ready then log else init log

-- The body that is hashed, without its digest.
unfoldable pub body_json : CaseLogEntry → Json
body_json e = obj (
    field "seq" (num (decimal e.seq)) (
      field "at" (str e.at) (
        field "case_id" (str e.case_id) (
          field "flow_id" (str e.flow_id) (
            field "kind" (str e.kind) (
              field "event_id" (optional e.event_id) (
                field "package_id" (optional e.package_id) (
                  field "summary" (str e.summary)
                    (field "prev_digest" (str e.prev_digest) end)))))))))

abbrev pub lines_of : Option (List CaseLogEntry) → List CaseLogEntry
lines_of none = []
lines_of (some es) = es

pub record ChainReport : Type 0 where
  pub ok : Bool
  pub entries : ℕ
  pub failures : List String

-- append, as the two writes that it makes: first the line, then the meta file.
unfoldable pub append_line : CaseLogEntry → CaseLog → CaseLog
append_line e log = record log {
  lines = some (lines_of log.lines ++ e ∷ []);
  seq = e.seq;
  last_digest = e.digest;
}

unfoldable pub save_meta : CaseLog → CaseLog
save_meta log = record log { meta = some (record { seq = log.seq; last_digest = log.last_digest }) }

-- `sha256` is sha256Hex.
module _ (sha256 : String → String) where
  unfoldable pub entry_digest : CaseLogEntry → String
  entry_digest e = sha256 (canonical_json (body_json e))

  -- The entry that append writes after a given position and digest.
  unfoldable pub new_entry :
      (at : String) → AppendOptions → (seq : ℕ) → (prev : String) → CaseLogEntry
  unfolding entry_digest
  new_entry at opts seq prev =
      let body : CaseLogEntry = record {
        seq = seq;
        at = at;
        case_id = opts.case_id;
        flow_id = opts.flow_id;
        kind = opts.kind;
        event_id = opts.event_id;
        package_id = opts.package_id;
        summary = opts.summary;
        prev_digest = prev;
        digest = "";
      } in
      record body { digest = entry_digest body }

  unfoldable pub append : (at : String) → AppendOptions → CaseLog → CaseLog × CaseLogEntry
  unfolding init append_line save_meta
  append at opts log =
      let r = ensure_ready log in
      let e = new_entry at opts (r.seq + 1) r.last_digest in (save_meta (append_line e r), e)

  abbrev pub entry_failures : (expected_seq : ℕ) → (prev : String) → CaseLogEntry → List String
  entry_failures expected_seq prev e =
      (if eqb e.seq expected_seq
        then []
        else ("seq gap: expected " <> decimal expected_seq <> ", got " <> decimal e.seq) ∷ [])
      ++ ((if e.prev_digest == prev then [] else ("broken chain at seq " <> decimal e.seq) ∷ [])
          ++ (if entry_digest e == e.digest
              then []
              else ("digest mismatch at seq " <> decimal e.seq) ∷ []))

  -- The loop of verifyChain, over the lines that are left.
  unfoldable pub chain_failures :
      (expected_seq : ℕ) → (prev : String) → List CaseLogEntry → List String
  chain_failures n prev [] = []
  chain_failures n prev (e ∷ es) =
      entry_failures (n + 1) prev e ++ chain_failures (n + 1) e.digest es

  unfoldable pub verify_chain : CaseLog → ChainReport
  unfolding init chain_failures
  verify_chain log =
      let es = lines_of (ensure_ready log).lines in
      let failures = chain_failures 0 genesis es in
      record { ok = eqb (length failures) 0; entries = length es; failures = failures }

unfoldable pub list_for_case : String → CaseLog → List CaseLogEntry
unfolding init
list_for_case case_id log = filter (λ e. e.case_id == case_id) (lines_of (ensure_ready log).lines)
