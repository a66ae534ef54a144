-- ===== src/Controller/Inventory.antt =====
-- internal/inventory/inventory.go, and `listHostsHandler` of internal/api/handlers.go. A map is the list of its
-- entries in the order in which a range visits them, which is any; its keys are distinct.
pub mod Hosts
use backup_orchestration_pla.Common.{
  ℤ, pos, negsuc, Bool, true, false, ◌||◌, Option, none, some, List, [], ◌∷◌, map, if◌then◌else◌,
}
use backup_orchestration_pla.Common.Text.{Text, text_eq}
use backup_orchestration_pla.Wire.{Host, Policy}
use backup_orchestration_pla.Pages.{sort}
use backup_orchestration_pla.Controller.Core.{Verification}

-- A dynamic value of a configuration: a text, an `int`, an integral `float64`, a list with `none` for an item that
-- is no text, or any other value.
pub data Raw : Type 0 where
  text : Text → Raw
  int float64 : ℤ → Raw
  items : List (Option Text) → Raw
  other : Raw

abbrev pub RawConfig : Type 0
RawConfig = List (Text × Raw)

-- `plugins` holds `none` for a plugin without a configuration.
pub record Server : Type 0 where
  pub host : Text
  pub ssh_user : Text
  pub ssh_key : Text
  pub plugins : List (Text × Option RawConfig)
  pub retention : Policy
  pub schedule : Text
  pub verification : Option Verification
  pub storage : Text

abbrev pub Inventory : Type 0
Inventory = List (Text × Server)

-- `m[key]`
abbrev pub lookup {ℓ} : {A : Type ℓ} → Text → List (Text × A) → Option A
lookup key [] = none
lookup key ((k, a) ∷ entries) = if text_eq key k then some a else lookup key entries

pub data InventoryError : Type 0 where
  no_servers : InventoryError
  host_required plugin_required negative_retention : (name : Text) → InventoryError

abbrev pub is_negative : ℤ → Bool
is_negative (pos n) = false
is_negative (negsuc n) = true

abbrev pub has_negative : Policy → Bool
has_negative p =
    is_negative p.daily || (is_negative p.weekly || (is_negative p.monthly || is_negative p.yearly))

abbrev pub is_empty {ℓ} : {A : Type ℓ} → List A → Bool
is_empty [] = true
is_empty (x ∷ xs) = false

unfoldable pub validate_servers : Inventory → Option InventoryError
validate_servers [] = none
validate_servers ((name, srv) ∷ entries) =
    let rest = validate_servers entries in
    if is_empty srv.host
    then some (host_required name)
    else if is_empty srv.plugins
    then some (plugin_required name)
    else if has_negative srv.retention
    then some (negative_retention name)
    else rest

-- `none` is a valid inventory.
unfoldable pub validate : Inventory → Option InventoryError
unfolding validate_servers
validate [] = some no_servers
validate (entry ∷ entries) = validate_servers (entry ∷ entries)

-- `lte` is the order of strings.
module _ (lte : Text → Text → Bool) where
  -- `hostSummary{…}`
  unfoldable pub host_summary : Text × Server → Host
  host_summary (name, srv) = record {
    name = name;
    host = srv.host;
    plugins = sort lte (map (λ p. p.0) srv.plugins);
    schedule = srv.schedule;
  }

  unfoldable pub list_hosts : Inventory → List Host
  unfolding host_summary
  list_hosts inv = sort (λ (h k : Host). lte h.name k.name) (map host_summary inv)
