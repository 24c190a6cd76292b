-- ===== src/Settings/Database.antt =====
-- The addresses of the database, Kafka and Redis (packages/shared/settings/runtime.py). `env` is the
-- environment; `parse_int` is `int` on a text, and `show` is how an f-string writes a value.
use vanguard_runner.Base.{
  ℕ, String, Bool, true, false, Option, none, some, if◌then◌else◌, ◌≡◌, ◌↔◌, refl, ap, ◌∙◌, arith,
  Bool-cases, Option-cases, inl, inr,
}
use vanguard_runner.Model.{Json, null, bool, num, str, arr, obj, Fields, end, truthy}
use vanguard_runner.Model.Dicts.{get_json, get_or, or_json}
use vanguard_runner.Settings.Merge.{Result, ok, error, missing_setting, not_a_section, not_a_number}
use Prim.Native.String.{◌++◌ as text_append}

abbrev pub is_present : Json → Bool
is_present null = false
is_present (str s) = truthy (str s)
is_present (bool b) = true
is_present (num n) = true
is_present (arr xs) = true
is_present (obj d) = true

-- `_require_setting`
abbrev pub require_setting : String → Json → Result Json
require_setting name v = if is_present v then ok v else error (missing_setting name)

abbrev pub and_then {ℓ κ} : {A : Type ℓ} {B : Type κ} → Result A → (A → Result B) → Result B
and_then (ok a) f = f a
and_then (error e) f = error e

abbrev pub env_or : String → Option String → String
env_or default none = default
env_or default (some v) = v

abbrev pub env_json : Option String → Json
env_json none = null
env_json (some v) = str v

-- `config.get(k, {})`, on which the source goes on to call `get`
abbrev pub as_section : String → Json → Result Fields
as_section k (obj d) = ok d
as_section k null = error (not_a_section k)
as_section k (bool b) = error (not_a_section k)
as_section k (num n) = error (not_a_section k)
as_section k (str s) = error (not_a_section k)
as_section k (arr xs) = error (not_a_section k)

abbrev pub section : String → Fields → Result Fields
section k d = as_section k (get_or (obj end) k d)

and_then-ok {ℓ κ} :
    {A : Type ℓ} {B : Type κ} (r : Result A) (f : A → Result B) (b : B)
    → and_then r f ≡ ok b
    → (a : A) × ((r ≡ ok a) × (f a ≡ ok b))
and_then-ok (ok a) f b e = (a, (refl, e))
and_then-ok (error x) f b e = absurd (ground (arith, e))

require_setting_present :
    (name : String) (v w : Json) → require_setting name v ≡ ok w → (is_present v ≡ true) × (v ≡ w)
require_setting_present name v w e = elim (Bool-cases (is_present v)) [
  | inl p ↦ (p, ground (arith, e, p))
  | inr p ↦ absurd (ground (arith, e, p))
]

module _ (env : String → Option String) (parse_int : String → Option ℕ) (show : Json → String) where
  -- `int(value)`; `none` is a value that raises
  abbrev pub to_int : Json → Option ℕ
  to_int (num n) = some n
  to_int (str s) = parse_int s
  to_int (bool b) = some (if b then 1 else 0)
  to_int null = none
  to_int (arr xs) = none
  to_int (obj d) = none

  abbrev pub number_of : Json → Result ℕ
  number_of j = elim (to_int j) [ none ↦ error not_a_number | some n ↦ ok n ]

  abbrev pub database_url : Json → Json → Json → ℕ → Json → String
  database_url username password host port name = text_append "mysql+asyncmy://" (
      text_append (show username) (
        text_append ":" (
          text_append (show password) (
            text_append "@" (
              text_append (show host) (
                text_append ":" (
                  text_append (show (num port))
                    (text_append "/" (text_append (show name) "?charset=utf8mb4")))))))))

  -- the address from DB_HOST and its companions
  abbrev pub url_from_host : String → Result String
  url_from_host host = and_then (number_of (str (env_or "3306" (env "DB_PORT")))) (λ port. ok (
      database_url
        (or_json (env_json (env "DB_USER")) (or_json (env_json (env "DB_USERNAME")) (str "root")))
        (str (env_or "" (env "DB_PASSWORD"))) (str host) port
        (str (env_or "spotter_runner" (env "DB_NAME")))))

  -- the address from the configuration of the data source
  abbrev pub url_from_config : Fields → Result String
  url_from_config d =
      and_then (require_setting "database.datasource.host" (get_json "host" d)) (λ host.
        and_then (require_setting "database.datasource.port" (get_json "port" d)) (λ given.
          and_then (number_of given) (λ port.
            and_then (require_setting "database.datasource.username" (get_json "username" d))
              (λ username.
                and_then (require_setting "database.datasource.name" (get_json "name" d)) (λ name.
                  ok (database_url username (get_or (str "") "password" d) host port name))))))

  -- `get_database_config`
  abbrev pub database_config : Fields → Result Fields
  database_config config = and_then (section "database" config) (section "datasource")

  abbrev pub url_without_override : Json → Fields → Result String
  url_without_override (str host) config =
      if truthy (str host)
      then url_from_host host
      else and_then (database_config config) url_from_config
  url_without_override null config = and_then (database_config config) url_from_config
  url_without_override (bool b) config = and_then (database_config config) url_from_config
  url_without_override (num n) config = and_then (database_config config) url_from_config
  url_without_override (arr xs) config = and_then (database_config config) url_from_config
  url_without_override (obj d) config = and_then (database_config config) url_from_config

  abbrev pub primary_url : Json → Fields → Result String
  primary_url (str url) config =
      if truthy (str url) then ok url else url_without_override (env_json (env "DB_HOST")) config
  primary_url null config = url_without_override (env_json (env "DB_HOST")) config
  primary_url (bool b) config = url_without_override (env_json (env "DB_HOST")) config
  primary_url (num n) config = url_without_override (env_json (env "DB_HOST")) config
  primary_url (arr xs) config = url_without_override (env_json (env "DB_HOST")) config
  primary_url (obj d) config = url_without_override (env_json (env "DB_HOST")) config

  abbrev pub get_primary_db_url : Fields → Result String
  get_primary_db_url config = primary_url (env_json (env "DB_PRIMARY_URL")) config

  -- `get_kafka_bootstrap_servers`
  abbrev pub kafka_from_config : Fields → Result Json
  kafka_from_config config = and_then (section "kafka" config) (λ k.
      require_setting "KAFKA_BOOTSTRAP_SERVERS or kafka.bootstrap_servers"
        (or_json (get_json "bootstrap_servers" k) (get_json "bootstrap-servers" k)))

  abbrev pub get_kafka_bootstrap_servers : Fields → Result Json
  get_kafka_bootstrap_servers config =
      let given = env_json (env "KAFKA_BOOTSTRAP_SERVERS") in
      if truthy given then ok given else kafka_from_config config

  pub record RedisSettings : Type 0 where
    pub host : Json
    pub port : ℕ
    pub db : ℕ
    pub password : Option String

  abbrev pub redis_password : Json → Option String
  redis_password (str s) = if truthy (str s) then some s else none
  redis_password null = none
  redis_password (bool b) = none
  redis_password (num n) = none
  redis_password (arr xs) = none
  redis_password (obj d) = none

  abbrev pub get_redis_settings : Fields → Result RedisSettings
  get_redis_settings config = and_then (section "redis" config) (λ r.
      and_then
        (require_setting "REDIS_HOST or redis.host"
          (or_json (env_json (env "REDIS_HOST")) (get_json "host" r)))
        (λ host.
          and_then
            (require_setting "REDIS_PORT or redis.port"
              (or_json (env_json (env "REDIS_PORT")) (get_json "port" r)))
            (λ given. and_then (number_of given) (λ port.
              and_then
                (number_of
                  (or_json (env_json (env "REDIS_DB")) (or_json (get_json "db" r) (num 0))))
                (λ db. ok (record {
                  host = host;
                  port = port;
                  db = db;
                  password = redis_password (env_json (env "REDIS_PASSWORD"));
                }))))))

  -- What the configuration must hold for an address
  abbrev pub Complete : Fields → Type 0
  Complete d =
      ((is_present (get_json "host" d) ≡ true) × (is_present (get_json "username" d) ≡ true))
      × ((is_present (get_json "name" d) ≡ true)
          × ((is_present (get_json "port" d) ≡ true)
              × ((n : ℕ) × (to_int (get_json "port" d) ≡ some n))))

  abbrev pub Succeeds {ℓ} : {A : Type ℓ} → Result A → Type ℓ
  Succeeds {A} r = (a : A) × (r ≡ ok a)

  number_of-some : (j : Json) (n : ℕ) → number_of j ≡ ok n → to_int j ≡ some n
  number_of-some j n e = elim (Option-cases (to_int j)) [
    | inl p ↦ absurd (ground (arith, e, p))
    | inr (m, p) ↦ ground (arith, e, p)
  ]

  gives : (d : Fields) → Succeeds (url_from_config d) → Complete d
  gives d (u, e) =
      let a = and_then-ok (require_setting "database.datasource.host" (get_json "host" d)) _ u e in
      let b =
        and_then-ok (require_setting "database.datasource.port" (get_json "port" d)) _ u a.1.1 in
      let n = and_then-ok (number_of (b.0)) _ u b.1.1 in
      let g =
        and_then-ok (require_setting "database.datasource.username" (get_json "username" d)) _ u
          n.1.1 in
      let h =
        and_then-ok (require_setting "database.datasource.name" (get_json "name" d)) _ u g.1.1 in
      let port =
        require_setting_present "database.datasource.port" (get_json "port" d) (b.0) b.1.0 in
      (
        (
          (require_setting_present "database.datasource.host" (get_json "host" d) (a.0) a.1.0).0,
          (require_setting_present "database.datasource.username" (get_json "username" d) (g.0)
              g.1.0).0,
        ),
        (
          (require_setting_present "database.datasource.name" (get_json "name" d) (h.0) h.1.0).0,
          (port.0, (n.0, ap to_int port.1 ∙ number_of-some (b.0) (n.0) n.1.0)),
        ),
      )

  takes : (d : Fields) → Complete d → Succeeds (url_from_config d)
  takes d ((h, u), (n, (p, (port, e)))) = (
    database_url (get_json "username" d) (get_or (str "") "password" d) (get_json "host" d) port
        (get_json "name" d),
    rw (h, p, number_of, e, u, n) refl,
  )

  -- Without an override in the environment, the configuration gives an address exactly where host,
  -- port, user name and database name are present and not empty, and the port is a number; the
  -- password may be missing.
  pub url_from_config-Complete : (d : Fields) → Succeeds (url_from_config d) ↔ Complete d
  url_from_config-Complete d = (gives d, takes d)
