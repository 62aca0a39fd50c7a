-- ===== src/Gateway/Settings.antt =====
-- apps/gateway/src/settings.ts and keys.ts: the settings of the pilot and the signing key, each in a file.
-- Settings are kept as the JSON object that they are on disk, since load spreads whatever it reads.
use qev_platform.Base.{String, ◌==◌, true, false, Option, none, some, List, [], ◌∷◌, if◌then◌else◌}
use qev_platform.Json.{Json, Fields, undefined, bool, str, arr, obj, nil, cons, end, field}
use qev_platform.Core.Signing.{Result, returned, threw, SigningKeyPair}

abbrev pub fields_of : List (String × Json) → Fields
fields_of [] = end
fields_of ((k, v) ∷ rest) = field k v (fields_of rest)

abbrev pub object : List (String × Json) → Json
object entries = obj (fields_of entries)

abbrev pub connector : Json
connector = object (("enabled", bool true) ∷ ("status", str "healthy") ∷ [])

abbrev pub default_connectors : Json
default_connectors =
    object
      (("job_portal", connector) ∷ ("photo_file", connector) ∷ ("generic_webhook", connector) ∷ [])

abbrev pub default_privacy : Json
default_privacy = object (
    ("default_mode", str "full")
    ∷ (
      "field_modes",
      object (
          ("customer_phone", str "redacted")
          ∷ ("customer_email", str "redacted")
          ∷ ("card_last4", str "hash_only")
          ∷ ("internal_notes", str "drop")
          ∷ []),
    )
    ∷ [])

abbrev pub default_unlock : Json
default_unlock = object (
    ("passphrase_enabled", bool true)
    ∷ ("note", str "Pilot unlock: package passphrase. KMS/device slots planned later.")
    ∷ [])

abbrev pub default_settings : (now : String) → Fields
default_settings now = fields_of (
    ("flow_id", str "field-service")
    ∷ ("flow_title", str "Field Service Job Evidence")
    ∷ ("mode", str "shadow")
    ∷ ("storage_dir_label", str "Local packages folder (customer-controlled)")
    ∷ ("enabled", bool false)
    ∷ ("unlock", default_unlock)
    ∷ ("privacy", default_privacy)
    ∷ ("connectors", default_connectors)
    ∷ ("recipients", arr (cons (str "operator") (cons (str "auditor") nil)))
    ∷ ("setup_completed", bool false)
    ∷ ("auto_seal", bool true)
    ∷ ("supplemental_packages", bool true)
    ∷ ("updated_at", str now)
    ∷ [])

-- { ...fields, [key]: value }
unfoldable pub put_field : String → Json → Fields → Fields
put_field key value end = field key value end
put_field key value (field j v fs) =
    let behind = put_field key value fs in if j == key then field j value fs else field j v behind

-- { ...base, ...top }
unfoldable pub overlay : (base top : Fields) → Fields
unfolding put_field
overlay base end = base
overlay base (field k v fs) = put_field k v (overlay base fs)

-- What JSON.stringify keeps of an object, and JSON.parse gives back.
unfoldable pub defined_fields : Fields → Fields
defined_fields end = end
defined_fields (field k undefined fs) = defined_fields fs
defined_fields (field k v fs) = field k v (defined_fields fs)

pub data SettingsFile : Type 0 where
  no_file broken : SettingsFile
  holds : Fields → SettingsFile

-- A file that cannot be read or parsed counts as none.
unfoldable pub load_settings : (now : String) → SettingsFile → Fields
unfolding overlay
load_settings now no_file = default_settings now
load_settings now broken = default_settings now
load_settings now (holds saved) = overlay (default_settings now) saved

-- The settings with their new date, and the file that holds them.
unfoldable pub save_settings : (now : String) → Fields → Fields × SettingsFile
unfolding put_field defined_fields
save_settings now s =
    let next = put_field "updated_at" (str now) s in (next, holds (defined_fields next))

-- `file` is the key on disk, if it can be read and parsed; `generated` is a new pair of keys.
pub record SigningKeyStore : Type 0 where
  pub key : Option SigningKeyPair
  pub file : Option SigningKeyPair

abbrev pub key_or : Option SigningKeyPair → SigningKeyPair → SigningKeyPair
key_or (some stored) generated = stored
key_or none generated = generated

unfoldable pub init_keys :
    (generated : SigningKeyPair) → SigningKeyStore → SigningKeyPair × SigningKeyStore
init_keys generated s =
    let key = key_or s.file generated in (key, record { key = some key; file = some key })

abbrev held_key : Option SigningKeyPair → Result SigningKeyPair
held_key (some key) = returned key
held_key none = threw "Signing key not initialized"

unfoldable pub get_key : SigningKeyStore → Result SigningKeyPair
get_key s = held_key s.key
