-- ===== src/Gateway/Sealing/Kept.antt =====
-- apps/gateway/src/server.ts, sealCase: the package files through a seal.
use mathlib.Core.Path.{subst}
use qev_platform.Base.{
  String, ◌==◌, eq_iff, arith, ◌≡◌, ◌≢◌, sym, ◌∙◌, refl, false, Option, none, some, Assoc,
  Bool-cases, Option-cases, inl, inr, lookup, insert, lookup-insert,
}
use qev_platform.Gateway.Store.{
  CaseSealRecord, Package, GatewayStore, storage_id, save_package, load_package, load_from,
  record_seal, save_certificate,
}
use qev_platform.Gateway.Sealing.Parts.{note_gaps}
use qev_platform.Gateway.Sealing.Closed.{IsClosed}

-- The package files and their backups, but for those of the new package.
abbrev pub KeepsFiles : (new_id : String) → GatewayStore → GatewayStore → Type 0
KeepsFiles new_id before s =
    (id : String)
    → id ≢ new_id
    → (lookup id s.package_files ≡ lookup id before.package_files)
      × (lookup id s.backup_files ≡ lookup id before.backup_files)

abbrev HasFiles : GatewayStore → GatewayStore → Type 0
HasFiles s t = (s.package_files ≡ t.package_files) × (s.backup_files ≡ t.backup_files)

KeepsFiles-alike :
    (new_id : String) (before s t : GatewayStore)
    → HasFiles s t
    → KeepsFiles new_id before s
    → KeepsFiles new_id before t
KeepsFiles-alike new_id before s t same h id other =
    (rw (← same.0) (h id other).0, rw (← same.1) (h id other).1)

save_certificate-HasFiles :
    (id cert : String) (s t : GatewayStore) → save_certificate id cert s ≡ some t → HasFiles s t
unfolding save_certificate
save_certificate-HasFiles id cert s t h = elim (Bool-cases (storage_id id)) [
  | inl e ↦
      let made : some (record s { certificate_files = insert id cert s.certificate_files })
          ≡ some t =
        rw e at h in
      let same : record s { certificate_files = insert id cert s.certificate_files } ≡ t = cc in
      subst (HasFiles s) same (refl, refl)
  | inr e ↦ let clash : ◌≡◌ {A = Option GatewayStore} none (some t) = rw e at h in absurd cc
]

load_from-HasFiles :
    (id : String) (o : Option Package) (s : GatewayStore) → HasFiles s (load_from id o s).1
load_from-HasFiles id none s = (refl, refl)
load_from-HasFiles id (some pkg) s = (refl, refl)

load_package-HasFiles :
    (id : String) (o : Option Package) (s t : GatewayStore)
    → load_package id s ≡ some (o, t)
    → HasFiles s t
unfolding load_package
load_package-HasFiles id o s t h = elim (Bool-cases (storage_id id)) [
  | inr e ↦
      let clash : ◌≡◌ {A = Option (Option Package × GatewayStore)} none (some (o, t)) = rw e at h in
      absurd cc
  | inl e ↦ elim (Option-cases (lookup id s.packages)) [
    | inr (pkg, m) ↦
        let found : ◌≡◌ {A = Option (Option Package × GatewayStore)} (some (some pkg, s))
            (some (o, t)) =
          rw (e, m) at h in
        let same : s ≡ t = cc in subst (HasFiles s) same (refl, refl)
    | inl m ↦
        let found : ◌≡◌ {A = Option (Option Package × GatewayStore)}
            (some (load_from id (lookup id s.package_files) s)) (some (o, t)) =
          rw (e, m) at h in
        let same : (load_from id (lookup id s.package_files) s).1 ≡ t = cc in
        subst (HasFiles s) same (load_from-HasFiles id (lookup id s.package_files) s)
  ]
]

other_key :
    (new_id id : String) (pkg : Package) (m : Assoc Package)
    → pkg.package_id ≡ new_id
    → id ≢ new_id
    → lookup id (insert pkg.package_id pkg m) ≡ lookup id m
other_key new_id id pkg m named other =
    let apart : (pkg.package_id == id) ≡ false =
      ground
        (arith, eq_iff pkg.package_id id, (λ (e : pkg.package_id ≡ id). other (sym e ∙ named))) in
    rw (lookup-insert pkg.package_id id pkg m, apart) refl

save_package-KeepsFiles :
    (new_id : String) (before : GatewayStore) (pkg : Package) (s t : GatewayStore)
    → pkg.package_id ≡ new_id
    → save_package pkg s ≡ some t
    → KeepsFiles new_id before s
    → KeepsFiles new_id before t
unfolding save_package
save_package-KeepsFiles new_id before pkg s t named h k =
    elim (Bool-cases (storage_id pkg.package_id)) [
      | inl e ↦
          let put : GatewayStore = record s {
            packages = insert pkg.package_id pkg s.packages;
            package_files = insert pkg.package_id pkg s.package_files;
            backup_files = insert pkg.package_id pkg s.backup_files;
          } in
          let made : some put ≡ some t = rw e at h in
          let same : put ≡ t = cc in
          subst (KeepsFiles new_id before) same (λ id other. (
            other_key new_id id pkg s.package_files named other ∙ (k id other).0,
            other_key new_id id pkg s.backup_files named other ∙ (k id other).1,
          ))
      | inr e ↦ let clash : ◌≡◌ {A = Option GatewayStore} none (some t) = rw e at h in absurd cc
    ]

pub KeepsFiles-IsClosed :
    (new_id flow_id case_id : String) (existing : Option CaseSealRecord) (before : GatewayStore)
    → IsClosed new_id flow_id case_id existing (KeepsFiles new_id before)
unfolding note_gaps record_seal
KeepsFiles-IsClosed new_id flow_id case_id existing before = record {
  noted = λ missing last s h. h;
  saved = save_package-KeepsFiles new_id before;
  loaded = λ i o s t e h. KeepsFiles-alike new_id before s t (load_package-HasFiles i o s t e) h;
  certified = λ i cert s t e h.
      KeepsFiles-alike new_id before s t (save_certificate-HasFiles i cert s t e) h;
  recorded = λ now kind package_id ids s h. h;
}
