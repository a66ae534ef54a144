-- ===== src/PluginConfig/Forms.antt =====
-- web/src/pages/PluginConfigPage.tsx: the three forms, what each submits.
-- `Number(e.target.value)` is the language's reading of the port field, here an argument of `update`.
use backup_orchestration_pla.Common.{ℤ, pos, ◌≡◌, ap, ap₂, List, [], All}
use backup_orchestration_pla.Common.Text.{Text}
use backup_orchestration_pla.Wire.{InformixConfig, PostgresConfig, FilesystemConfig}
use backup_orchestration_pla.PluginConfig.{split_list}
use backup_orchestration_pla.PluginConfig.Lists.{shown, IsEntry, split_list-join}

abbrev pub empty_informix_config : InformixConfig
empty_informix_config = record {
  host = [];
  port = pos 9088;
  username = [];
  password_env = [];
  server_name = [];
  database = [];
  tables = [];
  agent_path = [];
}

abbrev pub empty_postgres_config : PostgresConfig
empty_postgres_config = record { username = []; password_env = []; databases = []; container = [] }

abbrev pub empty_filesystem_config : FilesystemConfig
empty_filesystem_config = record { paths = []; excludes = [] }

-- `onConfigLoaded` of each form: its text fields.
pub informix_texts : InformixConfig → Text
informix_texts cfg = shown cfg.tables

pub postgres_texts : PostgresConfig → Text
postgres_texts cfg = shown cfg.databases

pub filesystem_texts : FilesystemConfig → Text × Text
filesystem_texts cfg = (shown cfg.paths, shown cfg.excludes)

-- `update(key, value)` of the Informix form.
pub data InformixEdit : Type 0 where
  set_host set_username set_password_env set_server_name set_database set_agent_path :
      Text → InformixEdit
  set_port : ℤ → InformixEdit

unfoldable pub update_informix : InformixEdit → InformixConfig → InformixConfig
update_informix (set_host v) f = record f { host = v }
update_informix (set_port v) f = record f { port = v }
update_informix (set_username v) f = record f { username = v }
update_informix (set_password_env v) f = record f { password_env = v }
update_informix (set_server_name v) f = record f { server_name = v }
update_informix (set_database v) f = record f { database = v }
update_informix (set_agent_path v) f = record f { agent_path = v }

-- `update(key, value)` of the Postgres form.
pub data PostgresEdit : Type 0 where
  set_username set_password_env set_container : Text → PostgresEdit

unfoldable pub update_postgres : PostgresEdit → PostgresConfig → PostgresConfig
update_postgres (PostgresEdit.set_username v) f = record f { username = v }
update_postgres (PostgresEdit.set_password_env v) f = record f { password_env = v }
update_postgres (set_container v) f = record f { container = v }

-- What `handleSubmit` of each form hands to `save`.
pub informix_payload : InformixConfig → Text → InformixConfig
informix_payload form tables_text = record form { tables = split_list tables_text }

pub postgres_payload : PostgresConfig → Text → PostgresConfig
postgres_payload form databases_text = record form { databases = split_list databases_text }

pub filesystem_payload : Text × Text → FilesystemConfig
filesystem_payload (paths_text, excludes_text) = record {
  paths = split_list paths_text;
  excludes = split_list excludes_text;
}

unchanged_informix :
    (cfg : InformixConfig)
    → All IsEntry cfg.tables
    → informix_payload cfg (informix_texts cfg) ≡ cfg
unfolding informix_payload informix_texts
unchanged_informix cfg h =
    ap (λ (t : List Text). record cfg { tables = t }) (split_list-join cfg.tables h)

unchanged_postgres :
    (cfg : PostgresConfig)
    → All IsEntry cfg.databases
    → postgres_payload cfg (postgres_texts cfg) ≡ cfg
unfolding postgres_payload postgres_texts
unchanged_postgres cfg h =
    ap (λ (t : List Text). record cfg { databases = t }) (split_list-join cfg.databases h)

unchanged_filesystem :
    (cfg : FilesystemConfig)
    → All IsEntry cfg.paths
    → All IsEntry cfg.excludes
    → filesystem_payload (filesystem_texts cfg) ≡ cfg
unfolding filesystem_payload filesystem_texts
unchanged_filesystem cfg h k =
    ap₂ (λ (p e : List Text). let c : FilesystemConfig = record { paths = p; excludes = e } in c)
      (split_list-join cfg.paths h) (split_list-join cfg.excludes k)

-- A configuration whose lists hold entries, loaded into its form and submitted untouched, is sent as it
-- was loaded: for each of the three forms.
pub unchanged_is_sent_back :
    (i : InformixConfig) (p : PostgresConfig) (f : FilesystemConfig)
    → All IsEntry i.tables
    → All IsEntry p.databases
    → All IsEntry f.paths
    → All IsEntry f.excludes
    → (informix_payload i (informix_texts i) ≡ i)
      × (postgres_payload p (postgres_texts p) ≡ p)
      × (filesystem_payload (filesystem_texts f) ≡ f)
unchanged_is_sent_back i p f ti dp pf ef =
    (unchanged_informix i ti, unchanged_postgres p dp, unchanged_filesystem f pf ef)
