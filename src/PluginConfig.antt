-- ===== src/PluginConfig.antt =====
-- web/src/pages/PluginConfigPage.tsx: `splitList`, and `usePluginConfigForm`, the load and save machine
-- that the three forms share. `T` is the configuration, `X` the texts that `onConfigLoaded` keeps of it.
pub mod Forms
pub mod Page
pub mod Lists
pub mod Loading
pub mod Saving
mod Tests
use backup_orchestration_pla.Common.{
  ℕ, zero, suc, ◌==◌, Bool, true, false, not, ◌&&◌, Option, none, some, List, [], ◌∷◌,
  if◌then◌else◌, filter, map, any,
}
use backup_orchestration_pla.Common.Text.{Text, codes, truthy, is_given}
use backup_orchestration_pla.Common.Text.Trim.{trim}
use backup_orchestration_pla.Common.Text.Split.{split}
use backup_orchestration_pla.Failure.{
  Failure, api_error, other_error, Outcome, resolved, rejected, failure_message,
}

-- `text.split(',').map((t) => t.trim()).filter(Boolean)`
pub split_list : Text → List Text
split_list text = filter truthy (map trim (split b',' text))

-- One mounted form. `generation` counts the runs of the load effect: a load of an earlier run has its
-- `active` flag off. `loads` are the loads in flight, by their run; `saves` counts the saves in flight.
pub record ConfigForm (T X : Type 0) : Type 0 where
  pub form : T
  pub texts : X
  pub loading : Bool
  pub load_error : Option Text
  pub saving : Bool
  pub save_error : Option Text
  pub saved : Bool
  pub generation : ℕ
  pub loads : List ℕ
  pub saves : ℕ

-- The message of a rejected save: a 401 is read as a token without write scope.
abbrev pub save_failure : Failure → Text
save_failure (api_error status message) =
    if status == 401
    then codes "This token can't save plugin config. Reconnect with a write token to do this."
    else message
save_failure other_error = codes "Could not reach the controller."

abbrev pub is_not_found : Failure → Bool
is_not_found (api_error status message) = status == 404
is_not_found other_error = false

module _ {T X : Type 0} (empty_config : T) (sync : T → X) where
  -- `setForm(cfg); onConfigLoaded?.(cfg)`
  abbrev pub adopt : T → ConfigForm T X → ConfigForm T X
  adopt cfg s = record s { form = cfg; texts = sync cfg }

  -- The `then`, `catch` and `finally` of an active load.
  pub finish_load : Outcome T → ConfigForm T X → ConfigForm T X
  finish_load (resolved cfg) s = record (adopt cfg s) { loading = false }
  finish_load (rejected err) s =
      if is_not_found err
      then record (adopt empty_config s) { loading = false }
      else record s { load_error = some (failure_message err); loading = false }

  -- The answer of the load that the effect's run `g` has sent.
  pub load_answered : ℕ → Outcome T → ConfigForm T X → ConfigForm T X
  unfolding finish_load
  load_answered g outcome s =
      let t = record s { loads = filter (λ k. not (k == g)) s.loads } in
      if any (◌==◌ g) s.loads then (if g == s.generation then finish_load outcome t else t) else s

  -- The rest of `save` behind its `await`.
  pub finish_save : Outcome T → ConfigForm T X → ConfigForm T X
  finish_save (resolved updated) s = record (adopt updated s) { saved = true; saving = false }
  finish_save (rejected err) s = record s { save_error = some (save_failure err); saving = false }

module _ {T X : Type 0} where
  -- The effect of `[host, plugin]`: the clean-up of the last run, and a new load.
  pub load_effect : ConfigForm T X → ConfigForm T X
  load_effect s = record s {
    loading = true;
    load_error = none;
    generation = suc s.generation;
    loads = suc s.generation ∷ s.loads;
  }

  -- `save` up to its `await`.
  pub begin_save : ConfigForm T X → ConfigForm T X
  begin_save s = record s { saving = true; save_error = none; saved = false; saves = suc s.saves }

-- The form stands on the page unless `loading` or a truthy `loadError` puts another in its place; its submit
-- button is disabled while `saving`.
abbrev pub form_shown : {T X : Type 0} → ConfigForm T X → Bool
form_shown s = not s.loading && not (is_given s.load_error)

pub data FormEvent (T X : Type 0) : Type 0 where
  target_changed : FormEvent T X
  edited : T → X → FormEvent T X
  submitted : FormEvent T X
  load_settled : ℕ → Outcome T → FormEvent T X
  save_settled : Outcome T → FormEvent T X

module _ {T X : Type 0} (empty_config : T) (sync : T → X) where
  -- One of the saves in flight is answered.
  pub save_answered : ℕ → Outcome T → ConfigForm T X → ConfigForm T X
  unfolding finish_save
  save_answered zero outcome s = s
  save_answered (suc n) outcome s = finish_save empty_config sync outcome (record s { saves = n })

  pub step : ConfigForm T X → FormEvent T X → ConfigForm T X
  unfolding load_effect begin_save load_answered save_answered
  step s target_changed = load_effect s
  step s (edited form texts) = if form_shown s then record s { form = form; texts = texts } else s
  step s submitted = if form_shown s && not s.saving then begin_save s else s
  step s (load_settled g outcome) = load_answered empty_config sync g outcome s
  step s (save_settled outcome) = save_answered s.saves outcome s

  pub run : ConfigForm T X → List (FormEvent T X) → ConfigForm T X
  run s [] = s
  run s (e ∷ es) = run (step s e) es

  -- The first render, with the initial text of each text field, and its effect.
  abbrev pub initial : X → ConfigForm T X
  initial blank = record {
    form = empty_config;
    texts = blank;
    loading = true;
    load_error = none;
    saving = false;
    save_error = none;
    saved = false;
    generation = 0;
    loads = [];
    saves = 0;
  }

  pub mount : X → ConfigForm T X
  unfolding load_effect
  mount blank = load_effect (initial blank)
