-- ===== src/Gateway/Saved.antt =====
-- apps/gateway/src/settings.ts and keys.ts: what is read back after it was saved.
mod Tests
use qev_platform.Base.{
  String, ◌≡◌, ◌==◌, refl, sym, ◌∙◌, Bool, true, false, Option, none, some, List, [], ◌∷◌,
  if◌then◌else◌, eq_iff, eq_refl, arith, inl, inr, Bool-cases,
}
use qev_platform.Json.{
  Json, Fields, undefined, null, bool, num, str, arr, obj, end, field, get_field,
}
use qev_platform.Core.Signing.{returned, SigningKeyPair}
use qev_platform.Gateway.Settings.{
  default_settings, put_field, overlay, defined_fields, load_settings, save_settings,
  SigningKeyStore, init_keys, get_key,
}

pub get_field-put_field :
    (key asked : String) (value : Json) (fs : Fields)
    → get_field asked (put_field key value fs)
      ≡ (if key == asked then value else get_field asked fs)
unfolding get_field put_field
get_field-put_field key asked value end = refl
get_field-put_field key asked value (field j v fs) =
    let behind = get_field-put_field key asked value fs in
    ground (arith, behind, eq_iff j key, eq_iff j asked, eq_iff key asked)

-- What an object says, or else another one.
abbrev pub or_default : Json → Json → Json
or_default undefined other = other
or_default v other = v

-- No key stands twice.
unfoldable pub IsObject : Fields → Type 0
IsObject end = Unit
IsObject (field k v fs) = (get_field k fs ≡ undefined) × IsObject fs

put_field-IsObject :
    (key : String) (value : Json) (fs : Fields) → IsObject fs → IsObject (put_field key value fs)
unfolding put_field IsObject get_field
put_field-IsObject key value end h = (refl, tt)
put_field-IsObject key value (field j v fs) h = elim (Bool-cases (j == key)) [
  | inl e ↦ rw e h
  | inr e ↦
      let other : (key == j) ≡ false = ground (arith, eq_iff key j, eq_iff j key, e) in
      rw e (get_field-put_field key j value fs ∙ rw other h.0, put_field-IsObject key value fs h.1)
]

step_overlay :
    (base fs : Fields) (k asked : String) (v : Json)
    → or_default v (get_field asked base) ≡ v
    → get_field asked (overlay base (defined_fields fs))
      ≡ or_default (get_field asked fs) (get_field asked base)
    → get_field asked (put_field k v (overlay base (defined_fields fs)))
      ≡ or_default (if k == asked then v else get_field asked fs) (get_field asked base)
step_overlay base fs k asked v here behind =
    get_field-put_field k asked v (overlay base (defined_fields fs))
    ∙ (elim (Bool-cases (k == asked)) [ inl e ↦ rw (e, here) refl | inr e ↦ rw (e, behind) refl ])

get_field-overlay :
    (base top : Fields) (asked : String)
    → IsObject top
    → get_field asked (overlay base (defined_fields top))
      ≡ or_default (get_field asked top) (get_field asked base)
unfolding get_field overlay defined_fields IsObject
get_field-overlay base end asked h = refl
get_field-overlay base (field k undefined fs) asked h =
    let behind = get_field-overlay base fs asked h.1 in
    elim (Bool-cases (k == asked)) [
      | inl e ↦
          let gone : get_field asked fs ≡ undefined = rw (← (eq_iff k asked).0 e) h.0 in
          rw e (rw gone at behind)
      | inr e ↦ rw e behind
    ]
get_field-overlay base (field k null fs) asked h =
    step_overlay base fs k asked null refl (get_field-overlay base fs asked h.1)
get_field-overlay base (field k (bool b) fs) asked h =
    step_overlay base fs k asked (bool b) refl (get_field-overlay base fs asked h.1)
get_field-overlay base (field k (num t) fs) asked h =
    step_overlay base fs k asked (num t) refl (get_field-overlay base fs asked h.1)
get_field-overlay base (field k (str s) fs) asked h =
    step_overlay base fs k asked (str s) refl (get_field-overlay base fs asked h.1)
get_field-overlay base (field k (arr xs) fs) asked h =
    step_overlay base fs k asked (arr xs) refl (get_field-overlay base fs asked h.1)
get_field-overlay base (field k (obj os) fs) asked h =
    step_overlay base fs k asked (obj os) refl (get_field-overlay base fs asked h.1)

-- Settings that are saved are read back, now and at any later time: each key has the value it was
-- saved with, but updated_at that of the save, and a key that was saved without a value its default.
pub load_settings-save :
    (now later : String) (s : Fields) (asked : String)
    → IsObject s
    → get_field asked (load_settings later (save_settings now s).1)
      ≡ or_default
          (if "updated_at" == asked then str now else get_field asked s)
          (get_field asked (default_settings later))
unfolding load_settings save_settings
load_settings-save now later s asked h =
    get_field-overlay (default_settings later) (put_field "updated_at" (str now) s) asked
      (put_field-IsObject "updated_at" (str now) s h)
    ∙ rw (get_field-put_field "updated_at" asked (str now) s) refl

-- A restart finds the signing key that an earlier start made, whatever it would generate itself.
init_keys-twice :
    (first second : SigningKeyPair) (s : SigningKeyStore)
    → (init_keys second (record { key = none; file = (init_keys first s).1.file })).0
      ≡ (init_keys first s).0
unfolding init_keys
init_keys-twice first second s = refl
