-- ===== src/Controller/Settings.antt =====
-- internal/api/plugin_config.go, with `ParseConfig` of internal/plugin/informix, postgres and filesystem (config.go)
-- and `resolvePluginConfig` of internal/controller/controller.go. `getenv` is `os.Getenv`, `atoi` is
-- `strconv.Atoi`, `marshal` and `unmarshal` are those of encoding/json. A nil slice is the empty list.
pub mod Parse
pub mod Saved
use backup_orchestration_pla.Common.{
  ℕ, ℤ, pos, Bool, Option, none, some, or_default, List, [], ◌∷◌, ◌++◌, map, if◌then◌else◌,
}
use backup_orchestration_pla.Common.Text.{Text, codes, text_eq}
use backup_orchestration_pla.Client.{Response}
use backup_orchestration_pla.Client.Paths
use backup_orchestration_pla.Client.Paths.{PluginConfig}
use backup_orchestration_pla.Wire.{InformixConfig, PostgresConfig, FilesystemConfig}
use backup_orchestration_pla.Controller.Core.{Fallible, ok, err}
use backup_orchestration_pla.Controller.Inventory.{
  Raw, text, int, float64, items, other, RawConfig, Server, lookup,
}
use backup_orchestration_pla.Controller.Metadata.{
  Store, Setting, get_plugin_settings, set_plugin_settings,
}
use backup_orchestration_pla.Controller.Handlers.{write_json, write_error}
use backup_orchestration_pla.Controller.Settings.Parse.{
  Environment, parse_informix, parse_postgres, parse_filesystem,
}

-- The plugins of `pluginConfigDTOs`, and the DTO of each.
pub data Kind : Type 0 where
  informix postgres filesystem : Kind

abbrev pub Dto : Kind → Type 0
Dto informix = InformixConfig
Dto postgres = PostgresConfig
Dto filesystem = FilesystemConfig

abbrev pub kind_of : Text → Option Kind
kind_of name =
    if text_eq name (codes "informix")
    then some informix
    else if text_eq name (codes "postgres")
    then some postgres
    else if text_eq name (codes "filesystem")
    then some filesystem
    else none

abbrev pub as_config : (k : Kind) → Dto k → PluginConfig
as_config informix c = Paths.informix c
as_config postgres c = Paths.postgres c
as_config filesystem c = Paths.filesystem c

-- `toRawConfig` of the three.
unfoldable pub to_raw_config : (k : Kind) → Dto k → RawConfig
to_raw_config informix c =
    (codes "host", text c.host)
    ∷ (codes "port", int c.port)
    ∷ (codes "username", text c.username)
    ∷ (codes "password_env", text c.password_env)
    ∷ (codes "server_name", text c.server_name)
    ∷ (codes "database", text c.database)
    ∷ (codes "tables", items (map some c.tables))
    ∷ (codes "agent_path", text c.agent_path)
    ∷ []
to_raw_config postgres c =
    (codes "username", text c.username)
    ∷ (codes "password_env", text c.password_env)
    ∷ (codes "databases", items (map some c.databases))
    ∷ (codes "container", text c.container)
    ∷ []
to_raw_config filesystem c =
    (codes "paths", items (map some c.paths)) ∷ (codes "excludes", items (map some c.excludes)) ∷ []

-- `v, _ := raw[key].(string)`
abbrev pub string_of : Option Raw → Text
string_of (some (text s)) = s
string_of _ = []

-- `if port, ok := raw["port"].(float64); ok { dto.Port = int(port) }`
abbrev pub port_of : Option Raw → ℤ
port_of (some (float64 n)) = n
port_of _ = pos 0

abbrev pub string_slice_from_raw : Option Raw → List Text
string_slice_from_raw (some (items xs)) = map (λ o. or_default o []) xs
string_slice_from_raw _ = []

-- `fromRawConfig` of the three, into a new DTO.
unfoldable pub from_raw_config : (k : Kind) → RawConfig → Dto k
from_raw_config informix raw = record {
  host = string_of (lookup (codes "host") raw);
  port = port_of (lookup (codes "port") raw);
  username = string_of (lookup (codes "username") raw);
  password_env = string_of (lookup (codes "password_env") raw);
  server_name = string_of (lookup (codes "server_name") raw);
  database = string_of (lookup (codes "database") raw);
  tables = string_slice_from_raw (lookup (codes "tables") raw);
  agent_path = string_of (lookup (codes "agent_path") raw);
}
from_raw_config postgres raw = record {
  username = string_of (lookup (codes "username") raw);
  password_env = string_of (lookup (codes "password_env") raw);
  databases = string_slice_from_raw (lookup (codes "databases") raw);
  container = string_of (lookup (codes "container") raw);
}
from_raw_config filesystem raw = record {
  paths = string_slice_from_raw (lookup (codes "paths") raw);
  excludes = string_slice_from_raw (lookup (codes "excludes") raw);
}

-- `ParseConfig` of the plugin: its error, if any.
unfoldable pub parse_config : Environment → Kind → RawConfig → Option Text
parse_config env informix raw = parse_informix env raw
parse_config env postgres raw = parse_postgres env raw
parse_config env filesystem raw = parse_filesystem env raw

abbrev pub unavailable : Text → Text
unavailable plugin = codes "web configuration isn't available for \"" ++ (plugin ++ codes "\"")

module _ (reason : ℕ → Text) (unmarshal : Text → Option RawConfig) where
  -- The answer to a stored text.
  unfoldable pub stored_config : Kind → Option Text → Response PluginConfig
  stored_config k none = write_error reason 404 (codes "no stored config for this host/plugin")
  stored_config k (some json) = elim (unmarshal json) [
    | none ↦ write_error reason 500 (codes "stored config is not valid JSON")
    | some raw ↦ write_json reason 200 (as_config k (from_raw_config k raw))
  ]

  unfoldable pub get_plugin_config_handler :
      Option Text → (host plugin : Text) → Store → Response PluginConfig
  unfolding stored_config
  get_plugin_config_handler fault host plugin s = elim (kind_of plugin) [
    | none ↦ write_error reason 400 (unavailable plugin)
    | some k ↦ elim fault [
      | some e ↦ write_error reason 500 e
      | none ↦ stored_config k (get_plugin_settings host plugin s.settings)
    ]
  ]

  unfoldable pub resolve_plugin_config :
      Option Text → (host plugin : Text) → Server → Store → Fallible (Option RawConfig)
  resolve_plugin_config (some e) host plugin srv s = err e
  resolve_plugin_config none host plugin srv s = elim (get_plugin_settings host plugin s.settings) [
    | none ↦ elim (lookup plugin srv.plugins) [
      | none ↦ err (codes "plugin is not configured for the host")
      | some cfg ↦ ok cfg
    ]
    | some json ↦ elim (unmarshal json) [
      | none ↦ err (codes "stored plugin config is not valid JSON")
      | some raw ↦ ok (some raw)
    ]
  ]

module _ (reason : ℕ → Text) (marshal : RawConfig → Option Text) (env : Environment) where
  -- The rest of `setPluginConfigHandler` behind the encoding. `fault` is the error of the store.
  unfoldable pub store_config :
      Option Text
      → (host plugin : Text) (k : Kind) → Dto k
      → Option Text
      → Store
      → Store × Response PluginConfig
  store_config fault host plugin k dto none s = (s, write_error reason 500 (codes "encode config"))
  store_config fault host plugin k dto (some json) s =
      let (t, error) =
        set_plugin_settings fault (record { host = host; plugin = plugin; config_json = json }) s in
      elim error [
        | some e ↦ (t, write_error reason 500 (or_default fault []))
        | none ↦ (t, write_json reason 200 (as_config k dto))
      ]

  -- The body decoded into the DTO of its plugin, and validated.
  unfoldable pub put_config :
      Option Text
      → (host plugin : Text) (k : Kind) → Option (Dto k)
      → Store
      → Store × Response PluginConfig
  unfolding store_config
  put_config fault host plugin k none s = (s, write_error reason 400 (codes "invalid JSON body"))
  put_config fault host plugin k (some dto) s = elim (parse_config env k (to_raw_config k dto)) [
    | some e ↦ (s, write_error reason 400 e)
    | none ↦ store_config fault host plugin k dto (marshal (to_raw_config k dto)) s
  ]

  -- `decode` is what `decode` reads from the body, for the DTO of each plugin.
  unfoldable pub set_plugin_config_handler :
      Option Text
      → (host plugin : Text) → ((k : Kind) → Option (Dto k))
      → Store
      → Store × Response PluginConfig
  unfolding put_config
  set_plugin_config_handler fault host plugin decode s = elim (kind_of plugin) [
    | none ↦ (s, write_error reason 400 (unavailable plugin))
    | some k ↦ put_config fault host plugin k (decode k) s
  ]
