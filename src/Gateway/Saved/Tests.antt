-- ===== src/Gateway/Saved/Tests.antt =====
-- apps/gateway/src/settings.ts: settings that are saved with one value changed.
use qev_platform.Base.{◌≡◌, refl}
use qev_platform.Json.{Fields, str, end, field, get_field}
use qev_platform.Gateway.Settings.{default_settings, load_settings, save_settings}
use qev_platform.Gateway.Saved.{IsObject, or_default, load_settings-save}

abbrev changed : Fields
changed = field "mode" (str "gate") (field "updated_at" (str "before") end)

changed-IsObject : IsObject changed
unfolding IsObject get_field
changed-IsObject = (refl, (refl, tt))

load_settings-save_example :
    get_field "mode" (load_settings "later" (save_settings "now" changed).1)
    ≡ or_default (get_field "mode" changed) (get_field "mode" (default_settings "later"))
load_settings-save_example = load_settings-save "now" "later" changed "mode" changed-IsObject
