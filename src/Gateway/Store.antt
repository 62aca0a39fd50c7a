-- ===== src/Gateway/Store.antt =====
-- apps/gateway/src/store.ts: the gateway's state, in memory and on disk. The rows of a case are the
-- objects that the map by id holds, so a case lists their ids. A package is kept without its
-- schema, the digest of its vault and its signature, a certificate as its text.
pub mod Consistent
pub mod Cases
pub mod Reload
pub mod Ledger
pub mod Refines
mod Tests
use Prim.Native.Char.{code}
use qev_platform.Base.{
  ℕ, suc, ◌+◌, String, ◌==◌, ◌≡◌, refl, Bool, true, false, not, ◌&&◌, ◌||◌, Option, none, some,
  List, [], ◌∷◌, ◌++◌, map, ◌<>◌, if◌then◌else◌, or_else, leb, ltb, eqb, length, filter, contains,
  flat_map, get_last?, is_some, includes, Assoc, lookup, insert,
}
use qev_platform.Event.{QevEvent, BundleOutcome}
use qev_platform.Policy.{PolicyDecision}

abbrev is_alnum : ℕ → Bool
is_alnum n =
    (leb 0x41 n && leb n 0x5a) || ((leb 0x61 n && leb n 0x7a) || (leb 0x30 n && leb n 0x39))

abbrev is_id_char : ℕ → Bool
is_id_char n = is_alnum n || (eqb n 0x5f || (eqb n 0x2e || eqb n 0x2d))

abbrev all_id_chars : String → Bool
all_id_chars String.[] = true
all_id_chars (String.◌∷◌ c s) = is_id_char (code c) && all_id_chars s

abbrev count : String → ℕ
count String.[] = 0
count (String.◌∷◌ c s) = suc (count s)

-- /^[A-Za-z0-9][A-Za-z0-9_.-]{0,159}$/
abbrev matches_id : String → Bool
matches_id String.[] = false
matches_id (String.◌∷◌ c s) = is_alnum (code c) && (all_id_chars s && leb (count s) 159)

-- An identifier that storageId lets through; for another one it throws.
unfoldable pub storage_id : String → Bool
unfolding includes
storage_id value = matches_id value && not (includes value "..")

pub record StoredEvent : Type 0 where
  pub event : QevEvent
  pub decision : PolicyDecision

pub record CaseSealRecord : Type 0 where
  pub flow_id : String
  pub case_id : String
  pub primary_package_id : String
  pub supplemental_package_ids : List String
  pub sealed_event_ids : List String
  pub updated_at : String

pub data PackageKind : Type 0 where
  primary supplemental : PackageKind

pub record PackageMeta : Type 0 where
  pub title : Option String
  pub event_count : ℕ
  pub outcome : BundleOutcome
  pub integrity_events_sha256 : String
  pub package_kind : Option PackageKind
  pub parent_package_id : Option String
  pub sealed_event_ids : Option (List String)

-- `vault` is the text of the encrypted bundle.
pub record Package : Type 0 where
  pub package_id : String
  pub created_at : String
  pub tenant_id : String
  pub flow_id : String
  pub case_id : String
  pub public_meta : PackageMeta
  pub vault : String

-- `event_files`, `seals_file`, `package_files`, `backup_files` and `certificate_files` are on disk.
pub record GatewayStore : Type 0 where
  pub events_by_case : Assoc (List String)
  pub events_by_id : Assoc StoredEvent
  pub packages : Assoc Package
  pub seals_by_case : Assoc CaseSealRecord
  pub event_files : Assoc StoredEvent
  pub seals_file : Option (Assoc CaseSealRecord)
  pub package_files : Assoc Package
  pub backup_files : Assoc Package
  pub certificate_files : Assoc String

abbrev pub case_key : (flow_id case_id : String) → String
case_key flow_id case_id = flow_id <> "::" <> case_id

abbrev pub key_of : StoredEvent → String
key_of row = case_key row.event.flow_id row.event.case_id

unfoldable pub has_event : String → GatewayStore → Bool
unfolding lookup
has_event id store = is_some (lookup id store.events_by_id)

abbrev pub get_event : String → GatewayStore → Option StoredEvent
get_event id store = lookup id store.events_by_id

abbrev pub found : Option StoredEvent → List StoredEvent
found none = []
found (some row) = row ∷ []

unfoldable pub case_ids : (key : String) → GatewayStore → List String
unfolding lookup
case_ids key store = or_else (lookup key store.events_by_case) []

-- The rows with the given ids.
unfoldable pub rows_of : GatewayStore → List String → List StoredEvent
unfolding lookup
rows_of store ids = flat_map (λ id. found (lookup id store.events_by_id)) ids

unfoldable pub get_case : (flow_id case_id : String) → GatewayStore → List StoredEvent
unfolding rows_of case_ids
get_case flow_id case_id store = rows_of store (case_ids (case_key flow_id case_id) store)

-- The row is put into both maps: `set` by id, and `push` on the list of its case.
unfoldable pub add_row : StoredEvent → GatewayStore → GatewayStore
unfolding insert case_ids
add_row row store = record store {
  events_by_id = insert row.event.event_id row store.events_by_id;
  events_by_case =
      insert (key_of row) (case_ids (key_of row) store ++ row.event.event_id ∷ [])
        store.events_by_case;
}

pub data PutResult : Type 0 where
  invalid : PutResult
  duplicate : PutResult
  stored : GatewayStore → PutResult

unfoldable pub put_event : QevEvent → PolicyDecision → GatewayStore → PutResult
unfolding storage_id has_event add_row insert
put_event event decision store =
    if not (storage_id event.event_id)
    then invalid
    else if has_event event.event_id store
    then duplicate
    else (let row : StoredEvent = record { event = event; decision = decision } in
        stored (record (add_row row store) {
          event_files = insert event.event_id row store.event_files;
        }))

-- The loop over the files of the events' directory.
unfoldable pub load_rows : Assoc StoredEvent → GatewayStore → GatewayStore
unfolding has_event add_row
load_rows [] store = store
load_rows ((name, row) ∷ files) store =
    load_rows files (if has_event row.event.event_id store then store else add_row row store)

-- A new process: what `init` makes of what is on disk, when the directory is listed as `files`.
unfoldable pub init : (files : Assoc StoredEvent) → GatewayStore → GatewayStore
unfolding load_rows
init files disk =
    let empty = record disk {
      events_by_case = [];
      events_by_id = [];
      packages = [];
      seals_by_case = [];
    } in
    record (load_rows files empty) { seals_by_case = or_else disk.seals_file [] }

unfoldable pub get_seal_record : (flow_id case_id : String) → GatewayStore → Option CaseSealRecord
unfolding lookup
get_seal_record flow_id case_id store = lookup (case_key flow_id case_id) store.seals_by_case

unfoldable pub record_seal : CaseSealRecord → GatewayStore → GatewayStore
unfolding insert
record_seal rec store =
    let seals = insert (case_key rec.flow_id rec.case_id) rec store.seals_by_case in
    record store { seals_by_case = seals; seals_file = some seals }

unfoldable pub unsealed_events : (flow_id case_id : String) → GatewayStore → List StoredEvent
unfolding get_case get_seal_record
unsealed_events flow_id case_id store =
    let rows = get_case flow_id case_id store in
    elim (get_seal_record flow_id case_id store) [
      | none ↦ rows
      | some seal ↦
          filter (λ (r : StoredEvent). not (contains seal.sealed_event_ids r.event.event_id)) rows
    ]

-- Written beside the others and copied to the backup folder.
unfoldable pub save_package : Package → GatewayStore → Option GatewayStore
unfolding storage_id insert
save_package pkg store =
    if storage_id pkg.package_id
    then some (record store {
      packages = insert pkg.package_id pkg store.packages;
      package_files = insert pkg.package_id pkg store.package_files;
      backup_files = insert pkg.package_id pkg store.backup_files;
    })
    else none

abbrev pub load_from : String → Option Package → GatewayStore → Option Package × GatewayStore
load_from id none store = (none, store)
load_from id (some pkg) store = (some pkg, record store { packages = insert id pkg store.packages })

-- From memory, else from disk; an identifier that is not valid throws.
unfoldable pub load_package : String → GatewayStore → Option (Option Package × GatewayStore)
unfolding storage_id lookup insert
load_package id store =
    if storage_id id
    then elim (lookup id store.packages) [
      | some pkg ↦ some (some pkg, store)
      | none ↦ some (load_from id (lookup id store.package_files) store)
    ]
    else none

unfoldable pub save_certificate : (id cert : String) → GatewayStore → Option GatewayStore
unfolding storage_id insert
save_certificate id cert store =
    if storage_id id
    then some (record store { certificate_files = insert id cert store.certificate_files })
    else none

unfoldable pub load_certificate : (id : String) → GatewayStore → Option (Option String)
unfolding storage_id lookup
load_certificate id store = if storage_id id then some (lookup id store.certificate_files) else none

storage_id_tests :
    (storage_id "evt_1.a-B" ≡ true)
    × (storage_id "" ≡ false)
    × (storage_id "a..b" ≡ false)
    × (storage_id "../x" ≡ false)
    × (storage_id ".x" ≡ false)
unfolding storage_id
storage_id_tests = (refl, refl, refl, refl, refl)
