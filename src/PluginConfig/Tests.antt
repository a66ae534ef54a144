-- ===== src/PluginConfig/Tests.antt =====
-- The forms at concrete configurations.
use backup_orchestration_pla.Common.{pos, true, ◌≡◌, refl, false, none, some, List, [], ◌∷◌, All}
use backup_orchestration_pla.Common.Text.{Text, codes}
use backup_orchestration_pla.Common.Text.Trim.{trim, drop_spaces, is_space}
use backup_orchestration_pla.Common.Text.Split.{split, join}
use backup_orchestration_pla.Failure.{resolved}
use backup_orchestration_pla.Wire.{InformixConfig, PostgresConfig, FilesystemConfig}
use backup_orchestration_pla.PluginConfig.{
  ConfigForm, FormEvent, target_changed, edited, submitted, load_settled, split_list, step, run,
  mount, load_effect, load_answered, finish_load, begin_save, save_answered, finish_save,
}
use backup_orchestration_pla.PluginConfig.Lists.{IsEntry, split_list-IsEntry, split_list-join}
use backup_orchestration_pla.PluginConfig.Page.{
  form_for, postgres_form, inherited, config_page, unavailable, screen_of, form_screen,
  loading_screen,
}
use backup_orchestration_pla.PluginConfig.Forms.{
  empty_postgres_config, postgres_texts, update_informix, set_port, update_postgres, set_container,
}
use backup_orchestration_pla.PluginConfig.Loading.{Loaded, load_ends}

typed_list : split_list (codes " logs, ,audit ,") ≡ codes "logs" ∷ codes "audit" ∷ []
unfolding split_list split trim drop_spaces is_space
typed_list = refl

abbrev tables : List Text
tables = codes "logs" ∷ codes "audit" ∷ []

abbrev tables_entries : All IsEntry tables
unfolding split_list split trim drop_spaces is_space
tables_entries = split_list-IsEntry (codes "logs,audit")

split_list-join_example : split_list (codes "logs, audit") ≡ tables
unfolding join
split_list-join_example = split_list-join tables tables_entries

abbrev stores : InformixConfig
stores = record {
  host = codes "db1";
  port = pos 9088;
  username = codes "informix";
  password_env = codes "INFORMIX_PASSWORD";
  server_name = codes "ol_informix";
  database = codes "stores";
  tables = tables;
  agent_path = [];
}

abbrev shop : PostgresConfig
shop = record {
  username = codes "app";
  password_env = codes "PGPASSWORD";
  databases = tables;
  container = [];
}

abbrev files : FilesystemConfig
files = record { paths = tables; excludes = [] }

edited_fields :
    ((update_informix (set_port (pos 9090)) stores).port ≡ pos 9090)
    × ((update_postgres (set_container (codes "pg")) shop).username ≡ shop.username)
    × (form_for (codes "postgres") ≡ some postgres_form)
    × (form_for (codes "mysql") ≡ none)
    × (form_for (codes "constructor") ≡ some inherited)
unfolding update_informix update_postgres form_for
edited_fields = (refl, refl, refl, refl, refl)

-- A form whose plugin was changed before the first load was answered.
abbrev changed : ConfigForm PostgresConfig Text
changed =
    run empty_postgres_config postgres_texts (mount empty_postgres_config postgres_texts [])
      (target_changed ∷ [])

form_machine : Unit {0}
unfolding run step mount load_effect load_answered finish_load begin_save save_answered finish_save
form_machine = tt

load_ends_example :
    let t =
      step empty_postgres_config postgres_texts changed
        (load_settled changed.generation (resolved shop)) in
    (t.loading ≡ false) × Loaded empty_postgres_config postgres_texts (resolved shop) changed t
unfolding form_machine
load_ends_example =
    load_ends empty_postgres_config postgres_texts [] (target_changed ∷ []) (resolved shop) refl

-- The configuration is loaded, edited and submitted; the controller refuses the token.
abbrev saving : List (FormEvent PostgresConfig Text)
saving = load_settled 1 (resolved shop) ∷ edited shop (codes "logs") ∷ submitted ∷ []

abbrev busy : ConfigForm PostgresConfig Text
busy =
    run empty_postgres_config postgres_texts (mount empty_postgres_config postgres_texts []) saving

unknown_plugin :
    config_page (codes "web") (codes "mysql")
    ≡ unavailable (
        codes "Web configuration isn't available for \"mysql\" yet - edit inventory.yaml directly.")
unfolding config_page
unknown_plugin = refl

screens :
    (screen_of (mount empty_postgres_config postgres_texts []) ≡ loading_screen)
    × (screen_of busy ≡ form_screen shop (codes "logs") [] true (codes "Saving…"))
unfolding form_machine screen_of
screens = (refl, refl)
