-- ===== src/PluginConfig/Page.antt =====
-- web/src/pages/PluginConfigPage.tsx: the choice of the form, and what the page and a form render.
use backup_orchestration_pla.Common.{
  Bool, Option, none, some, List, [], ◌∷◌, ◌++◌, any, or_default, if◌then◌else◌,
}
use backup_orchestration_pla.Common.Text.{Text, codes, text_eq, is_given}
use backup_orchestration_pla.PluginConfig.{ConfigForm}

-- What `pluginForms[plugin]` finds: a form under its own keys, or a member that every object inherits.
pub data FormKind : Type 0 where
  informix_form postgres_form filesystem_form inherited : FormKind

-- The properties of `Object.prototype`.
abbrev pub inherited_names : List Text
inherited_names =
    codes "constructor"
    ∷ codes "hasOwnProperty"
    ∷ codes "isPrototypeOf"
    ∷ codes "propertyIsEnumerable"
    ∷ codes "toLocaleString"
    ∷ codes "toString"
    ∷ codes "valueOf"
    ∷ codes "__proto__"
    ∷ codes "__defineGetter__"
    ∷ codes "__defineSetter__"
    ∷ codes "__lookupGetter__"
    ∷ codes "__lookupSetter__"
    ∷ []

unfoldable pub form_for : Text → Option FormKind
form_for plugin =
    if text_eq plugin (codes "informix")
    then some informix_form
    else if text_eq plugin (codes "postgres")
    then some postgres_form
    else if text_eq plugin (codes "filesystem")
    then some filesystem_form
    else if any (text_eq plugin) inherited_names
    then some inherited
    else none

-- The page without a form, or its header over a form.
pub data ConfigPage : Type 0 where
  unavailable : (message : Text) → ConfigPage
  configure : (title subtitle : Text) → FormKind → ConfigPage

abbrev page_of : Text → Text → Option FormKind → ConfigPage
page_of host plugin none = unavailable (
    codes "Web configuration isn't available for \""
    ++ (plugin ++ codes "\" yet - edit inventory.yaml directly."))
page_of host plugin (some kind) =
    configure (codes "Configure " ++ plugin)
      (codes "Connection and resource settings for "
        ++ (host
            ++ codes
                ". Saves immediately - the next backup job for this host picks it up, no controller restart needed."))
      kind

unfoldable pub config_page : Text → Text → ConfigPage
unfolding form_for
config_page host plugin = page_of host plugin (form_for plugin)

-- `SaveFeedback`: the error, and the confirmation.
abbrev pub save_feedback : Option Text → Bool → List Text
save_feedback save_error saved =
    (if is_given save_error then or_default save_error [] ∷ [] else [])
    ++ (if saved then codes "Saved. The next backup job for this host will use it." ∷ [] else [])

-- What stands in the page for a form: the spinner, the error, or the form with its feedback and its button.
pub data FormScreen (T X : Type 0) : Type 0 where
  loading_screen : FormScreen T X
  error_screen : Text → FormScreen T X
  form_screen : T → X → (feedback : List Text) → (disabled : Bool) → (label : Text) → FormScreen T X

unfoldable pub screen_of : {T X : Type 0} → ConfigForm T X → FormScreen T X
screen_of s =
    if s.loading
    then loading_screen
    else if is_given s.load_error
    then error_screen (or_default s.load_error [])
    else form_screen s.form s.texts (save_feedback s.save_error s.saved) s.saving
        (if s.saving then codes "Saving…" else codes "Save configuration")
