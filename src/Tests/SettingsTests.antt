-- ===== src/Tests/SettingsTests.antt =====
-- The theorems on the settings and the guard at sample data.
use vanguard_runner.Base.{◌≡◌, ◌↔◌, ◌⊎◌, refl, String, true, none, some}
use vanguard_runner.Model.{num, str, obj, Fields, end, field, get_field}
use vanguard_runner.Settings.Merge.{deep_merge, either, get_field-deep_merge}
use vanguard_runner.Settings.Database.{
  Succeeds, Complete, url_from_config, url_from_config-Complete,
}
use vanguard_runner.Settings.Guard.{allowed, require_master_auth, require_master_auth-allowed}

abbrev base_config : Fields
base_config = field "kafka" (obj (field "servers" (str "a") (field "group" (str "g") end))) end

abbrev local_config : Fields
local_config = field "kafka" (obj (field "servers" (str "b") end)) end

get_field-deep_merge_example :
    get_field "kafka" (deep_merge base_config local_config)
    ≡ either (get_field "kafka" local_config) (get_field "kafka" base_config)
get_field-deep_merge_example = get_field-deep_merge "kafka" base_config local_config (refl, tt)

abbrev source_config : Fields
source_config =
    field "host" (str "db")
      (field "port" (num 3306) (field "username" (str "u") (field "name" (str "n") end)))

url_from_config-Complete_example :
    Succeeds
      (λ k. none)
      (λ t. none)
      (λ j. "")
      (url_from_config (λ k. none) (λ t. none) (λ j. "") source_config)
    ↔ Complete (λ k. none) (λ t. none) (λ j. "") source_config
url_from_config-Complete_example =
    url_from_config-Complete (λ k. none) (λ t. none) (λ j. "") source_config

abbrev secret : String
secret = "secret"

abbrev guess : String
guess = "guess"

require_master_auth-allowed_example :
    (require_master_auth (λ t. t) (λ t. true) (some secret) (some guess) ≡ allowed)
    ↔ ((secret ≡ "") ⊎ (guess ≡ secret))
require_master_auth-allowed_example =
    require_master_auth-allowed (λ t. t) (λ t. true) (some secret) (some guess) refl
