-- ===== src/Controller/Settings/Saved.antt =====
-- What is saved for a plugin of a host is what is loaded again, and what its jobs run with.
use backup_orchestration_pla.Common.{
  ℕ, ◌≡◌, ◌≢◌, ◌↔◌, ◌⊎◌, refl, sym, ap, ◌∙◌, true, false, Bool-cases, Option-cases, inl, inr,
  Option, none, some, or_default, List, [], ◌∷◌, map, arith,
}
use backup_orchestration_pla.Common.Text.{Text, text_eq_iff}
use backup_orchestration_pla.Failure.{resolved}
use backup_orchestration_pla.Client.{Response, conclude}
use backup_orchestration_pla.Client.Paths.{PluginConfig}
use backup_orchestration_pla.Controller.Core.{ok}
use backup_orchestration_pla.Controller.Inventory.{Raw, int, float64, RawConfig, Server}
use backup_orchestration_pla.Controller.Metadata.{
  Store, Setting, is_setting, get_plugin_settings, put_setting, set_plugin_settings,
}
use backup_orchestration_pla.Controller.Handlers.{write_json}
use backup_orchestration_pla.Controller.Settings.Parse.{
  Environment, parse_informix, parse_postgres, parse_filesystem,
}
use backup_orchestration_pla.Controller.Settings.{
  Kind, informix, postgres, filesystem, Dto, kind_of, as_config, to_raw_config, from_raw_config,
  parse_config, stored_config, get_plugin_config_handler, resolve_plugin_config, store_config,
  put_config, set_plugin_config_handler,
}

-- A value after it was written as JSON and read again: every number is a `float64`.
abbrev pub as_json : Raw → Raw
as_json (int n) = float64 n
as_json v = v

abbrev pub json_config : RawConfig → RawConfig
json_config raw = map (λ e. (e.0, as_json e.1)) raw

texts_kept : (ts : List Text) → map (λ o. or_default o []) (map some ts) ≡ ts
texts_kept [] = refl
texts_kept (t ∷ ts) = ap (t ∷◌) (texts_kept ts)

-- The DTO of what is stored for a DTO is this DTO.
pub from_raw_config-to_raw_config :
    (k : Kind) (dto : Dto k) → from_raw_config k (json_config (to_raw_config k dto)) ≡ dto
unfolding from_raw_config to_raw_config
from_raw_config-to_raw_config informix dto = rw (texts_kept dto.tables) refl
from_raw_config-to_raw_config postgres dto = rw (texts_kept dto.databases) refl
from_raw_config-to_raw_config filesystem dto =
    rw (texts_kept dto.paths, texts_kept dto.excludes) refl

-- What is stored is as valid as what was sent.
pub parse_config_json :
    (env : Environment) (k : Kind) (dto : Dto k)
    → parse_config env k (json_config (to_raw_config k dto))
      ≡ parse_config env k (to_raw_config k dto)
unfolding parse_config to_raw_config parse_informix parse_postgres parse_filesystem
parse_config_json env informix dto = refl
parse_config_json env postgres dto = refl
parse_config_json env filesystem dto = refl

is_setting_iff :
    (host plugin : Text) (row : Setting)
    → (is_setting host plugin row ≡ true) ↔ ((host ≡ row.host) × (plugin ≡ row.plugin))
is_setting_iff host plugin row =
    ground (arith, text_eq_iff host row.host, text_eq_iff plugin row.plugin)

own_setting : (new : Setting) → is_setting new.host new.plugin new ≡ true
own_setting new = (is_setting_iff new.host new.plugin new).1 (refl, refl)

abbrev pub Differs : Text → Text → Setting → Type 0
Differs host plugin new = (host ≢ new.host) ⊎ (plugin ≢ new.plugin)

-- Rows of one key are of any other key alike.
other_setting :
    (host plugin : Text) (new row : Setting)
    → Differs host plugin new
    → is_setting new.host new.plugin row ≡ true
    → is_setting host plugin row ≡ false
other_setting host plugin new row d e = elim (Bool-cases (is_setting host plugin row)) [
  | inr f ↦ f
  | inl f ↦
      let a = (is_setting_iff host plugin row).0 f in
      let b = (is_setting_iff new.host new.plugin row).0 e in
      elim d [ inl h ↦ absurd (h (a.0 ∙ sym b.0)) | inr h ↦ absurd (h (a.1 ∙ sym b.1)) ]
]

put_setting_same :
    (new : Setting) (rows : List Setting)
    → get_plugin_settings new.host new.plugin (put_setting new rows) ≡ some new.config_json
unfolding put_setting get_plugin_settings
put_setting_same new [] = rw (own_setting new) refl
put_setting_same new (row ∷ rows) = elim (Bool-cases (is_setting new.host new.plugin row)) [
  | inl e ↦ rw (e, own_setting new) refl
  | inr e ↦ rw (e, e) (put_setting_same new rows)
]

put_setting_other :
    (new : Setting) (rows : List Setting) (host plugin : Text)
    → Differs host plugin new
    → get_plugin_settings host plugin (put_setting new rows) ≡ get_plugin_settings host plugin rows
unfolding put_setting get_plugin_settings
put_setting_other new [] host plugin d =
    rw (other_setting host plugin new new d (own_setting new)) refl
put_setting_other new (row ∷ rows) host plugin d =
    elim (Bool-cases (is_setting new.host new.plugin row)) [
      | inl e ↦
          rw
            (
              e,
              other_setting host plugin new new d (own_setting new),
              other_setting host plugin new row d e,
            )
            refl
      | inr e ↦ rw e (ground (arith, put_setting_other new rows host plugin d))
    ]

module _ (reason : ℕ → Text) (marshal : RawConfig → Option Text)
    (unmarshal : Text → Option RawConfig) (env : Environment) where
  -- The store and the answers after a PUT that was accepted: the answer and every GET of the same plugin of the host
  -- are the configuration that was sent; a job of it runs with a configuration that its plugin accepts; and
  -- what is stored under any other key is as before.
  pub record Saves (host plugin : Text) (k : Kind) (dto : Dto k) (s t : Store)
      (r : Response PluginConfig) : Type 0 where
    pub answered : conclude r ≡ resolved (some (as_config k dto))
    pub loaded :
        conclude (get_plugin_config_handler reason unmarshal none host plugin t)
        ≡ resolved (some (as_config k dto))
    pub run_with :
        (srv : Server)
        → (raw : RawConfig) × (resolve_plugin_config reason unmarshal none host plugin srv t
            ≡ ok (some raw))
          × (parse_config env k raw ≡ none)
    pub others :
        (h p : Text)
        → (h ≢ host) ⊎ (p ≢ plugin)
        → get_plugin_settings h p t.settings ≡ get_plugin_settings h p s.settings
    pub jobs_kept : t.jobs ≡ s.jobs

  accepted : (cfg : PluginConfig) → conclude (write_json reason 200 cfg) ≡ resolved (some cfg)
  unfolding conclude
  accepted cfg = refl

  get_stored :
      (host plugin : Text) (k : Kind) (dto : Dto k) (t : Store) (json : Text)
      → kind_of plugin ≡ some k
      → get_plugin_settings host plugin t.settings ≡ some json
      → unmarshal json ≡ some (json_config (to_raw_config k dto))
      → conclude (get_plugin_config_handler reason unmarshal none host plugin t)
        ≡ resolved (some (as_config k dto))
  unfolding get_plugin_config_handler stored_config
  get_stored host plugin k dto t json p g u =
      rw (p, get_plugin_config_handler)
        (rw (g, stored_config)
          (rw (u, from_raw_config-to_raw_config k dto) (accepted (as_config k dto))))

  resolve_stored :
      (host plugin : Text) (k : Kind) (dto : Dto k) (t : Store) (json : Text) (srv : Server)
      → get_plugin_settings host plugin t.settings ≡ some json
      → unmarshal json ≡ some (json_config (to_raw_config k dto))
      → resolve_plugin_config reason unmarshal none host plugin srv t
        ≡ ok (some (json_config (to_raw_config k dto)))
  unfolding resolve_plugin_config
  resolve_stored host plugin k dto t json srv g u = rw (g, resolve_plugin_config) (rw u refl)

  -- A PUT either is accepted, and saves, or leaves the store as it was.
  abbrev pub Result :
      (host plugin : Text) (k : Kind) → Dto k → Store → Store × Response PluginConfig → Type 0
  Result host plugin k dto s u =
      (u.1.status ≡ 200 → Saves host plugin k dto s u.0 u.1) × (u.1.status ≢ 200 → u.0 ≡ s)

  store_config-Result :
      (fault : Option Text) (host plugin : Text) (k : Kind) (dto : Dto k) (o : Option Text)
      (s : Store)
      → kind_of plugin ≡ some k
      → parse_config env k (to_raw_config k dto) ≡ none
      → ((json : Text) → o ≡ some json → unmarshal json ≡ some (json_config (to_raw_config k dto)))
      → Result host plugin k dto s (store_config reason marshal env fault host plugin k dto o s)
  unfolding store_config set_plugin_settings
  store_config-Result fault host plugin k dto none s p v j =
      ((λ e. absurd (omega (arith, e))), (λ e. refl))
  store_config-Result (some x) host plugin k dto (some json) s p v j =
      ((λ e. absurd (omega (arith, e))), (λ e. refl))
  store_config-Result none host plugin k dto (some json) s p v j = (
    (λ e. record {
      answered = accepted (as_config k dto);
      loaded = get_stored host plugin k dto t json p same (j json refl);
      run_with = λ srv. (
        json_config (to_raw_config k dto),
        resolve_stored host plugin k dto t json srv same (j json refl),
        parse_config_json env k dto ∙ v,
      );
      others = λ h q d.
          put_setting_other (record { host = host; plugin = plugin; config_json = json }) s.settings
            h q d;
      jobs_kept = refl;
    }),
    (λ e. absurd (e refl)),
  )
    where
      t : Store
      t = record s {
        settings =
            put_setting (record { host = host; plugin = plugin; config_json = json }) s.settings;
      }

      same : get_plugin_settings host plugin t.settings ≡ some json
      same =
          put_setting_same (record { host = host; plugin = plugin; config_json = json }) s.settings

  put_config-Result :
      (fault : Option Text) (host plugin : Text) (k : Kind) (dto : Dto k) (s : Store)
      → kind_of plugin ≡ some k
      → ((json : Text)
          → marshal (to_raw_config k dto) ≡ some json
          → unmarshal json ≡ some (json_config (to_raw_config k dto)))
      → Result host plugin k dto s (put_config reason marshal env fault host plugin k (some dto) s)
  unfolding put_config
  put_config-Result fault host plugin k dto s p j =
      elim (Option-cases (parse_config env k (to_raw_config k dto))) [
        | inr (x, v) ↦ rw (v, put_config) ((λ e. absurd (omega (arith, e))), (λ e. refl))
        | inl v ↦
            rw (v, put_config)
              (store_config-Result fault host plugin k dto (marshal (to_raw_config k dto)) s p v j)
      ]

  -- A PUT of a configuration of informix, postgres or filesystem, whose JSON is decoded as it was encoded. If it is
  -- accepted, its answer and every GET of the same plugin of the host are, for the client, the configuration
  -- that was sent; a job of it runs with a configuration that its plugin accepts; and the jobs and what is
  -- stored under any other host or plugin are as before. If not, the store is as before.
  pub saved_config_is_loaded :
      (fault : Option Text) (host plugin : Text) (k : Kind) (dto : Dto k)
      (decode : (k : Kind) → Option (Dto k)) (s : Store)
      → kind_of plugin ≡ some k
      → decode k ≡ some dto
      → ((json : Text)
          → marshal (to_raw_config k dto) ≡ some json
          → unmarshal json ≡ some (json_config (to_raw_config k dto)))
      → Result host plugin k dto s
          (set_plugin_config_handler reason marshal env fault host plugin decode s)
  unfolding set_plugin_config_handler
  saved_config_is_loaded fault host plugin k dto decode s p d j =
      rw (p, set_plugin_config_handler) (rw d (put_config-Result fault host plugin k dto s p j))
