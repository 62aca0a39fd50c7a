-- ===== src/Gateway/Sealing/Primary.antt =====
-- apps/gateway/src/server.ts, sealCase: the record of a case, and the events, through a seal.
use mathlib.Core.Path.{subst}
use qev_platform.Base.{
  String, ◌==◌, eq_refl, ◌≡◌, refl, true, Option, none, some, Assoc, ◌++◌, Bool-cases, Option-cases,
  inl, inr, is_some, contains, contains-append, contains-distinct, lookup, insert, lookup-insert,
}
use qev_platform.Gateway.Store.{
  StoredEvent, CaseSealRecord, Package, GatewayStore, case_key, has_event, get_seal_record,
  storage_id, save_package, load_package, load_from, record_seal, save_certificate,
}
use qev_platform.Gateway.Sealing.Parts.{Settings, Gateway, Platform, note_gaps, next_record}
use qev_platform.Gateway.Sealing.{seal_case}
use qev_platform.Gateway.Sealing.Closed.{IsClosed, seal_case-Closed}
use qev_platform.Gateway.Sealing.Kept.{KeepsFiles, KeepsFiles-IsClosed}

-- Two stores with the same seals, events and cases.
pub record IsAlike (s t : GatewayStore) : Type 0 where
  pub seals : s.seals_by_case ≡ t.seals_by_case
  pub events : s.events_by_id ≡ t.events_by_id
  pub cases : s.events_by_case ≡ t.events_by_case

pub save_package-IsAlike :
    (pkg : Package) (s t : GatewayStore) → save_package pkg s ≡ some t → IsAlike s t
unfolding save_package
save_package-IsAlike pkg s t h = elim (Bool-cases (storage_id pkg.package_id)) [
  | inl e ↦
      let made : some (record s {
        packages = insert pkg.package_id pkg s.packages;
        package_files = insert pkg.package_id pkg s.package_files;
        backup_files = insert pkg.package_id pkg s.backup_files;
      })
          ≡ some t =
        rw e at h in
      let same : record s {
        packages = insert pkg.package_id pkg s.packages;
        package_files = insert pkg.package_id pkg s.package_files;
        backup_files = insert pkg.package_id pkg s.backup_files;
      }
          ≡ t =
        cc in
      subst (IsAlike s) same (record { seals = refl; events = refl; cases = refl })
  | inr e ↦ let clash : ◌≡◌ {A = Option GatewayStore} none (some t) = rw e at h in cc
]

pub save_certificate-IsAlike :
    (id cert : String) (s t : GatewayStore) → save_certificate id cert s ≡ some t → IsAlike s t
unfolding save_certificate
save_certificate-IsAlike id cert s t h = elim (Bool-cases (storage_id id)) [
  | inl e ↦
      let made : some (record s { certificate_files = insert id cert s.certificate_files })
          ≡ some t =
        rw e at h in
      let same : record s { certificate_files = insert id cert s.certificate_files } ≡ t = cc in
      subst (IsAlike s) same (record { seals = refl; events = refl; cases = refl })
  | inr e ↦ let clash : ◌≡◌ {A = Option GatewayStore} none (some t) = rw e at h in cc
]

load_from-IsAlike :
    (id : String) (o : Option Package) (s : GatewayStore) → IsAlike s (load_from id o s).1
load_from-IsAlike id none s = record { seals = refl; events = refl; cases = refl }
load_from-IsAlike id (some pkg) s = record { seals = refl; events = refl; cases = refl }

pub load_package-IsAlike :
    (id : String) (o : Option Package) (s t : GatewayStore)
    → load_package id s ≡ some (o, t)
    → IsAlike s t
unfolding load_package
load_package-IsAlike id o s t h = elim (Bool-cases (storage_id id)) [
  | inr e ↦
      let clash : ◌≡◌ {A = Option (Option Package × GatewayStore)} none (some (o, t)) = rw e at h in
      cc
  | inl e ↦ elim (Option-cases (lookup id s.packages)) [
    | inr (pkg, m) ↦
        let found : ◌≡◌ {A = Option (Option Package × GatewayStore)} (some (some pkg, s))
            (some (o, t)) =
          rw (e, m) at h in
        let same : s ≡ t = cc in
        subst (IsAlike s) same (record { seals = refl; events = refl; cases = refl })
    | inl m ↦
        let found : ◌≡◌ {A = Option (Option Package × GatewayStore)}
            (some (load_from id (lookup id s.package_files) s)) (some (o, t)) =
          rw (e, m) at h in
        let same : (load_from id (lookup id s.package_files) s).1 ≡ t = cc in
        subst (IsAlike s) same (load_from-IsAlike id (lookup id s.package_files) s)
  ]
]

-- The record of the case has the same primary package, and all sealed events that it had.
abbrev pub KeepsSeal : (flow_id case_id : String) → CaseSealRecord → GatewayStore → Type 0
KeepsSeal flow_id case_id rec s =
    (now : CaseSealRecord) × (get_seal_record flow_id case_id s ≡ some now)
    × (now.primary_package_id ≡ rec.primary_package_id)
    × ((id : String)
        → contains rec.sealed_event_ids id ≡ true
        → contains now.sealed_event_ids id ≡ true)

KeepsSeal-alike :
    (flow_id case_id : String) (rec : CaseSealRecord) (s t : GatewayStore)
    → IsAlike s t
    → KeepsSeal flow_id case_id rec s
    → KeepsSeal flow_id case_id rec t
unfolding get_seal_record
KeepsSeal-alike flow_id case_id rec s t a (now, at, same, more) =
    (now, rw (← a.seals) at, same, more)

KeepsSeal-IsClosed :
    (new_id flow_id case_id : String) (rec : CaseSealRecord)
    → IsClosed new_id flow_id case_id (some rec) (KeepsSeal flow_id case_id rec)
unfolding note_gaps get_seal_record record_seal next_record
KeepsSeal-IsClosed new_id flow_id case_id rec = record {
  noted = λ missing last s h. h;
  saved = λ pkg s t named e h.
      KeepsSeal-alike flow_id case_id rec s t (save_package-IsAlike pkg s t e) h;
  loaded =
      λ id o s t e h. KeepsSeal-alike flow_id case_id rec s t (load_package-IsAlike id o s t e) h;
  certified = λ id cert s t e h.
      KeepsSeal-alike flow_id case_id rec s t (save_certificate-IsAlike id cert s t e) h;
  recorded = λ now kind package_id ids s h. (
    next_record flow_id case_id now kind (some rec) package_id ids,
    rw
        (
          lookup-insert (case_key flow_id case_id) (case_key flow_id case_id)
              (next_record flow_id case_id now kind (some rec) package_id ids) s.seals_by_case,
          eq_refl (case_key flow_id case_id),
        )
        refl,
    refl,
    λ id old.
        rw
          (
            contains-distinct (rec.sealed_event_ids ++ ids) id,
            contains-append rec.sealed_event_ids ids id,
            old,
          )
          refl,
  );
}

-- Sealing a case again, successfully or not, keeps the primary package and the sealed events in the
-- record of the case, and changes no package on disk and no backup but under the new identifier: so
-- the primary package stays as it was sealed, provided the new identifier is not its own.
pub seal_case-KeepsSeal :
    (platform : Platform) (settings : Settings) (passphrase flow_id case_id : String) (g : Gateway)
    (rec : CaseSealRecord)
    → get_seal_record flow_id case_id g.store ≡ some rec
    → KeepsSeal flow_id case_id rec
        (seal_case platform settings passphrase flow_id case_id g).1.store
      × KeepsFiles platform.new_id g.store
          (seal_case platform settings passphrase flow_id case_id g).1.store
seal_case-KeepsSeal platform settings passphrase flow_id case_id g rec e = (
  seal_case-Closed platform settings passphrase flow_id case_id g (KeepsSeal flow_id case_id rec)
      (rw e (KeepsSeal-IsClosed platform.new_id flow_id case_id rec)) (rec, e, refl, λ id h. h),
  seal_case-Closed platform settings passphrase flow_id case_id g
      (KeepsFiles platform.new_id g.store)
      (KeepsFiles-IsClosed platform.new_id flow_id case_id (get_seal_record flow_id case_id g.store)
        g.store)
      (λ id other. (refl, refl)),
)

-- Sealing never removes an event from the store.
abbrev HasEvent : String → GatewayStore → Type 0
HasEvent id s = has_event id s ≡ true

HasEvent-alike : (id : String) (s t : GatewayStore) → IsAlike s t → HasEvent id s → HasEvent id t
unfolding has_event
HasEvent-alike id s t a h = rw (← a.events) h

still_there :
    (key id : String) (row : StoredEvent) (m : Assoc StoredEvent)
    → is_some (lookup id m) ≡ true
    → is_some (lookup id (insert key row m)) ≡ true
still_there key id row m h = elim (Bool-cases (key == id)) [
  | inl e ↦ rw (lookup-insert key id row m, e) refl
  | inr e ↦ rw (lookup-insert key id row m, e) h
]

HasEvent-IsClosed :
    (new_id id flow_id case_id : String) (existing : Option CaseSealRecord)
    → IsClosed new_id flow_id case_id existing (HasEvent id)
unfolding has_event note_gaps record_seal
HasEvent-IsClosed new_id id flow_id case_id existing = record {
  noted = λ missing last s h. still_there last.event.event_id id _ s.events_by_id h;
  saved = λ pkg s t named e h. HasEvent-alike id s t (save_package-IsAlike pkg s t e) h;
  loaded = λ i o s t e h. HasEvent-alike id s t (load_package-IsAlike i o s t e) h;
  certified = λ i cert s t e h. HasEvent-alike id s t (save_certificate-IsAlike i cert s t e) h;
  recorded = λ now kind package_id ids s h. h;
}

pub seal_case-has_event :
    (platform : Platform) (settings : Settings) (passphrase flow_id case_id id : String)
    (g : Gateway)
    → has_event id g.store ≡ true
    → has_event id (seal_case platform settings passphrase flow_id case_id g).1.store ≡ true
seal_case-has_event platform settings passphrase flow_id case_id id g h =
    seal_case-Closed platform settings passphrase flow_id case_id g (HasEvent id)
      (HasEvent-IsClosed platform.new_id id flow_id case_id
        (get_seal_record flow_id case_id g.store))
      h
