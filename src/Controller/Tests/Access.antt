-- ===== src/Controller/Tests/Access.antt =====
-- Tokens, and a configuration that is saved.
use backup_orchestration_pla.Common.{
  ℕ, ◌≡◌, refl, true, false, ◌||◌, Option, none, some, [], ◌∷◌, arith,
}
use backup_orchestration_pla.Common.Text.{Text, codes}
use backup_orchestration_pla.Client.{Response, responded, open_session, on_unauthorized}
use backup_orchestration_pla.Auth.{Console, call_answered, step, open_console}
use backup_orchestration_pla.Auth.Invariant.{open_console-Inv}
use backup_orchestration_pla.Wire.{FilesystemConfig}
use backup_orchestration_pla.Controller.Access.{load_tokens}
use backup_orchestration_pla.Controller.Access.Scopes.{
  among, read_answer, write_answer, scopes_of_console,
}
use backup_orchestration_pla.Controller.Inventory.{RawConfig}
use backup_orchestration_pla.Controller.Metadata.{set_plugin_settings}
use backup_orchestration_pla.Controller.Settings.{
  Kind, filesystem, informix, postgres, Dto, to_raw_config, set_plugin_config_handler, parse_config,
  store_config, put_config,
}
use backup_orchestration_pla.Controller.Settings.Parse.{
  Environment, valid_table_name, parse_filesystem,
}
use backup_orchestration_pla.Controller.Settings.Saved.{json_config, Result, saved_config_is_loaded}
use backup_orchestration_pla.Controller.Tests.{stored_with}
use backup_orchestration_pla.Common.Text.Split.{split}

abbrev no_reason : ℕ → Text
no_reason n = []

abbrev reader : Console
reader = open_console (some (codes "r1"))

abbrev rows : Response ℕ
rows = record { status = 200; status_text = []; json = some 3; error = none }

tokens_of_file :
    load_tokens (λ s. s) (codes "# readers" ∷ [] ∷ codes "r1" ∷ codes "r2" ∷ [])
    ≡ some (codes "r1" ∷ codes "r2" ∷ [])
unfolding load_tokens
tokens_of_file = refl

scopes_of_console_example :
    let read = read_answer (λ t. t) no_reason (codes "r1" ∷ []) (codes "w1" ∷ []) rows reader in
    let write = write_answer (λ t. t) no_reason (codes "w1" ∷ []) rows reader in
    let known = among (codes "r1") (codes "r1" ∷ []) || among (codes "r1") (codes "w1" ∷ []) in
    (known ≡ true → (read ≡ rows) × (step reader (call_answered false (responded read)) ≡ reader))
    × (known ≡ false
        → (read.status ≡ 401)
          × ((step reader (call_answered false (responded read))).connected ≡ false))
    × (among (codes "r1") (codes "w1" ∷ []) ≡ true → write ≡ rows)
    × (among (codes "r1") (codes "w1" ∷ []) ≡ false → write.status ≡ 401)
    × (step reader (call_answered true (responded write)) ≡ reader)
unfolding open_console open_session on_unauthorized
scopes_of_console_example =
    scopes_of_console (λ t. t) no_reason (codes "r1" ∷ []) (codes "w1" ∷ []) (codes "r1") rows
      reader ((λ e. e), ((λ e. e), tt)) refl refl (λ e. omega (arith, e))
      (open_console-Inv (some (codes "r1"))) refl

table_names :
    (valid_table_name (codes "owner.jobs_1") ≡ true)
    × (valid_table_name (codes "jobs; drop") ≡ false)
    × (valid_table_name (codes "a.b.c") ≡ false)
unfolding valid_table_name split
table_names = (refl, refl, refl)

abbrev env : Environment
env = record { getenv = λ name. codes "secret"; atoi = λ t. none }

abbrev etc_config : FilesystemConfig
etc_config = record { paths = codes "/etc" ∷ []; excludes = codes "*.tmp" ∷ [] }

abbrev bodies : (k : Kind) → Option (Dto k)
bodies informix = none
bodies postgres = none
bodies filesystem = some etc_config

-- A JSON that only this configuration has.
abbrev written : RawConfig → Option Text
written raw = some (codes "{}")

abbrev read : Text → Option RawConfig
read t = some (json_config (to_raw_config filesystem etc_config))

accepted :
    (set_plugin_config_handler no_reason written env none
      (codes "web")
      (codes "filesystem")
      bodies
      (stored_with [])).1.status
    ≡ 200
unfolding set_plugin_config_handler put_config store_config parse_config parse_filesystem
    to_raw_config set_plugin_settings
accepted = refl

saved_config_is_loaded_example :
    Result no_reason written read env
      (codes "web")
      (codes "filesystem")
      filesystem
      etc_config
      (stored_with [])
      (set_plugin_config_handler no_reason written env none
        (codes "web")
        (codes "filesystem")
        bodies
        (stored_with []))
saved_config_is_loaded_example =
    saved_config_is_loaded no_reason written read env none (codes "web") (codes "filesystem")
      filesystem etc_config bodies (stored_with []) refl refl (λ json e. refl)
