-- ===== src/Gateway/Watch.antt =====
-- apps/gateway/src/file-watch.ts: FileWatchConnector, the scan of a watched folder. A scan reads the clock
-- once, as `now`; times are whole milliseconds, and the path of the folder is in normal form.
pub mod Scans
pub mod Captured
mod Tests
use Prim.Native.Char.{code}
use qev_platform.Base.{
  ℕ, ◌+◌, String, ◌==◌, Bool, true, false, not, ◌||◌, Option, none, some, List, [], ◌∷◌, ◌++◌, ◌<>◌,
  ltb, eqb, if◌then◌else◌, or_else, truthy, contains, includes, decimal, length,
}
use qev_platform.Json.{str, end, field}
use qev_platform.Event.{
  QevArtifact, QevKnownGap, QevEvent, success, source_asserted, full, file, warning,
}
use qev_platform.Ops.Matching.{
  MatchConfidence, exact, high, uncertain, unmatched, conflicting, MatchInput, MatchResult,
  match_case,
}

pub record Stat : Type 0 where
  pub size : ℕ
  pub mtime_ms : ℕ

-- `none` where stat or readFile throws.
pub record FileNode : Type 0 where
  pub name : String
  pub stat : Option Stat
  pub content : Option String

-- What readdir lists; `unreadable` is a directory where it throws.
mutual
  pub data Entry : Type 0 where
    plain_file : FileNode → Entry
    directory : String → Entries → Entry
    other_entry : String → Entry

  pub data Entries : Type 0 where
    unreadable : Entries
    no_more : Entries
    entry : Entry → Entries → Entries

-- `sent` are the events that were given to onEvent.
pub record FileWatch : Type 0 where
  pub seen : List String
  pub sent : List QevEvent

-- A walk comes to its end, or an error that it does not catch stops it.
pub data Walk : Type 0 where
  ended : FileWatch → Walk
  stopped : FileWatch → Walk

unfoldable pub then_walk : Walk → (FileWatch → Walk) → Walk
then_walk (ended w) next = next w
then_walk (stopped w) next = stopped w

abbrev pub starts_with_dot : String → Bool
starts_with_dot String.[] = false
starts_with_dot (String.◌∷◌ c s) = eqb (code c) 0x2e

-- `watch_dir`, `tenant_id` and the open cases are options of the connector, and `accepts` says for
-- which events onEvent does not throw. `new_id` gives the identifier of the n-th event.
pub record WatchOptions : Type 0 where
  pub watch_dir : String
  pub tenant_id : String
  pub known_case_ids : List String
  pub accepts : QevEvent → Bool
  pub sha256_of : String → String
  pub lower : String → String
  pub new_id : ℕ → String
  pub iso : ℕ → String

abbrev pub file_input : WatchOptions → (rel name : String) → MatchInput
file_input opts rel name = record {
  explicit_case_id = none;
  provider_object_id = none;
  invoice_ref = none;
  email_subject = none;
  folder_path = some rel;
  artifact_name = some name;
  known_case_ids = opts.known_case_ids;
  provider_index = none;
}

abbrev pub file_match : WatchOptions → (rel name : String) → MatchResult
file_match opts rel name = match_case (file_input opts rel name)

abbrev pub capture_action : (lower : String) → String
capture_action lower =
    if includes lower "/before" || includes lower "before"
    then "evidence.before_captured"
    else if includes lower "/after" || includes lower "after"
    then "evidence.after_captured"
    else "evidence.file_captured"

abbrev confidence_text : MatchConfidence → String
confidence_text exact = "exact"
confidence_text high = "high"
confidence_text uncertain = "uncertain"
confidence_text unmatched = "unmatched"
confidence_text conflicting = "conflicting"

abbrev pub match_gaps : MatchConfidence → (detail : String) → List QevKnownGap
match_gaps uncertain detail =
    record {
      code = "uncertain_case_match";
      message = detail;
      field = none;
      severity = some warning;
    }
    ∷ []
match_gaps _ detail = []

abbrev captured_file : (path name sha256 : String) → ℕ → QevArtifact
captured_file path name sha256 size = record {
  name = name;
  sha256 = sha256;
  media_type = none;
  size_bytes = some size;
  uri = some ("file://" <> path);
}

unfoldable pub file_event :
    WatchOptions
    → (now : ℕ) (id path name : String) (size : ℕ) (content : String) → MatchResult
    → (case_id : String) → QevEvent
unfolding includes
file_event opts now id path name size content found case_id = record {
  event_id = id;
  occurred_at = opts.iso now;
  observed_at = opts.iso now;
  tenant_id = opts.tenant_id;
  flow_id = "field-service";
  case_id = case_id;
  source = record {
    system = "file-watch";
    connector = "file-watch";
    connector_version = "0.1.0";
    provider_event_id = none;
    raw_body_sha256 = some (opts.sha256_of content);
    ingestion_path = some file;
  };
  actor = record {
    id = "file-watch";
    display_name = none;
    identity_assurance = source_asserted;
    auth_context = none;
  };
  action = capture_action (opts.lower path);
  target = none;
  outcome = success;
  artifacts = some (captured_file path name (opts.sha256_of content) size ∷ []);
  policy = none;
  privacy = record { default_mode = full; field_modes = none };
  payload = some (
      field "path" (str path) (
        field "match_confidence" (str (confidence_text found.confidence))
          (field "match_detail" (str found.detail) end)));
  known_gaps = some (match_gaps found.confidence found.detail);
  time_assurance = some (record {
    source_system_time = none;
    gateway_receipt_time = some (opts.iso now);
    org_signed_time = none;
    independent_timestamp = none;
  });
  connector_signature = none;
}

unfoldable pub send : WatchOptions → QevEvent → FileWatch → Walk
send opts event w =
    let after = record w { sent = w.sent ++ event ∷ [] } in
    if opts.accepts event then ended after else stopped after

-- A file without a case is dropped.
unfoldable pub send_matched :
    WatchOptions
    → (now : ℕ) (path name : String) (size : ℕ) (content : String) → MatchResult
    → Option String
    → FileWatch
    → Walk
unfolding send file_event
send_matched opts now path name size content found none w = ended w
send_matched opts now path name size content found (some case_id) w =
    let event =
      file_event opts now (opts.new_id (length w.sent)) path name size content found case_id in
    if truthy case_id then send opts event w else ended w

-- ingestFile
unfoldable pub ingest_file :
    WatchOptions → (now : ℕ) (path rel name : String) (size : ℕ) → Option String → FileWatch → Walk
unfolding send_matched match_case
ingest_file opts now path rel name size none w = stopped w
ingest_file opts now path rel name size (some content) w =
    let found = file_match opts rel name in
    send_matched opts now path name size content found found.case_id w

abbrev pub file_key : (path : String) → Stat → String
file_key path st = path <> ":" <> decimal st.size <> ":" <> decimal st.mtime_ms

abbrev pub see : String → FileWatch → FileWatch
see key w = record w { seen = w.seen ++ key ∷ [] }

-- A file that is still being written, or was seen as it is, is passed over.
unfoldable pub visit_stat :
    WatchOptions → (now : ℕ) (path rel : String) → FileNode → Option Stat → FileWatch → Walk
unfolding ingest_file decimal
visit_stat opts now path rel node none w = stopped w
visit_stat opts now path rel node (some st) w =
    let fresh =
      ingest_file opts now path rel node.name st.size node.content (see (file_key path st) w) in
    if ltb now (st.mtime_ms + 1500)
    then ended w
    else if contains w.seen (file_key path st)
    then ended w
    else fresh

-- path.join of a directory and a name, and the path relative to the watched folder
abbrev pub join_path : String → String → String
join_path dir name = dir <> "/" <> name

abbrev pub join_rel : String → String → String
join_rel rel name = if truthy rel then rel <> "/" <> name else name

unfoldable mutual
  unfolding visit_stat then_walk

  pub visit : WatchOptions → (now : ℕ) (dir rel : String) → Entry → FileWatch → Walk
  visit opts now dir rel (plain_file node) w =
      let visited =
        visit_stat opts now (join_path dir node.name) (join_rel rel node.name) node node.stat w in
      if starts_with_dot node.name then ended w else visited
  visit opts now dir rel (directory name es) w =
      let walked = walk opts now (join_path dir name) (join_rel rel name) es w in
      if starts_with_dot name then ended w else walked
  visit opts now dir rel (other_entry name) w = ended w

  pub walk : WatchOptions → (now : ℕ) (dir rel : String) → Entries → FileWatch → Walk
  walk opts now dir rel unreadable w = ended w
  walk opts now dir rel no_more w = ended w
  walk opts now dir rel (entry e es) w =
      then_walk (visit opts now dir rel e w) (λ v. walk opts now dir rel es v)

abbrev pub watch_of : Walk → FileWatch
watch_of (ended w) = w
watch_of (stopped w) = w

-- scanOnce: an error that stopped the walk is dropped, what was seen so far stays.
unfoldable pub scan_once : WatchOptions → (now : ℕ) → Entries → FileWatch → FileWatch
unfolding walk
scan_once opts now es w = watch_of (walk opts now opts.watch_dir "" es w)
