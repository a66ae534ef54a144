-- ===== src/Pages/Launcher/Phase.antt =====
-- The inventory of a page and its dialog: either nothing is loaded and the dialog was never open, or the dialog
-- fits the inventory.
use backup_orchestration_pla.Common.{
  ℕ, ◌≡◌, ◌≢◌, ◌⊎◌, inl, inr, refl, sym, ap, subst, ◌∙◌, true, Option, none, some, List, [], ◌∷◌,
  All,
}
use backup_orchestration_pla.Failure.{Outcome, resolved}
use backup_orchestration_pla.Wire.{Host}
use backup_orchestration_pla.UseApi
use backup_orchestration_pla.UseApi.{ApiState}
use backup_orchestration_pla.UseApi.Once.{Once, empty_pending, answer-value}
use backup_orchestration_pla.Modal
use backup_orchestration_pla.Modal.Offers.{Offered, KeepsHosts, Fits, step-Fits}
use backup_orchestration_pla.Modal.Idle.{Idle, StaysShut, step-Idle, loaded-Fits, reloaded-Fits}
use backup_orchestration_pla.Pages.{listed}
use backup_orchestration_pla.Pages.Launcher.{can_trigger}

abbrev pub HavePlugins : List Host → Type 0
HavePlugins hs = All (λ h. h.plugins ≢ []) hs

-- Either there is no host and the dialog was never open, or the inventory is there for good.
pub record Loaded (hosts : ApiState (Unit {0}) (List Host)) (dialog : Modal.Modal) (hs : List Host)
    : Type 0 where
  pub value : hosts.value ≡ some hs
  pub some_host : hs ≢ []
  pub plugins : HavePlugins hs
  pub fits : Fits hs dialog

abbrev pub Phase : ApiState (Unit {0}) (List Host) → Modal.Modal → Type 0
Phase hosts dialog =
    (Idle dialog × (listed hosts.value ≡ [])) ⊎ ((hs : List Host) × Loaded hosts dialog hs)

pub taken :
    (hosts : ApiState (Unit {0}) (List Host)) (dialog : Modal.Modal) (o : Option (List Host))
    → hosts.value ≡ o
    → Idle dialog
    → ((hs : List Host) → o ≡ some hs → (hs ≡ []) ⊎ HavePlugins hs)
    → Phase hosts (Modal.step dialog (Modal.hosts_loaded (listed hosts.value)))
taken hosts dialog none e i h =
    inl (step-Idle dialog (Modal.hosts_loaded (listed hosts.value)) tt i, ap listed e)
taken hosts dialog (some []) e i h =
    inl (step-Idle dialog (Modal.hosts_loaded (listed hosts.value)) tt i, ap listed e)
taken hosts dialog (some (x ∷ xs)) e i h = inr (
  x ∷ xs,
  record {
    value = e;
    some_host = λ n. cc;
    plugins = elim (h (x ∷ xs) refl) [ inl n ↦ absurd (cc n) | inr p ↦ p ];
    fits =
        subst (λ l. Fits (x ∷ xs) (Modal.step dialog (Modal.hosts_loaded l))) (sym (ap listed e))
          (loaded-Fits (x ∷ xs) dialog i);
  },
)

pub kept :
    (hosts hosts' : ApiState (Unit {0}) (List Host)) (dialog : Modal.Modal) (hs : List Host)
    → hosts'.value ≡ some hs
    → Loaded hosts dialog hs
    → Loaded hosts' (Modal.step dialog (Modal.hosts_loaded (listed hosts'.value))) hs
kept hosts hosts' dialog hs e h = record {
  value = e;
  some_host = h.some_host;
  plugins = h.plugins;
  fits =
      subst (λ l. Fits hs (Modal.step dialog (Modal.hosts_loaded l))) (sym (ap listed e))
        (reloaded-Fits hs dialog h.fits);
}

-- The inventory is answered: it was there, or it comes now.
pub answered-Phase :
    (hosts : ApiState (Unit {0}) (List Host)) (dialog : Modal.Modal) (id : ℕ)
    (outcome : Outcome (List Host))
    → ((hs : List Host) → outcome ≡ resolved hs → HavePlugins hs)
    → Once hosts
    → Phase hosts dialog
    → let hosts' = UseApi.answer id outcome hosts in
      Phase hosts' (Modal.step dialog (Modal.hosts_loaded (listed hosts'.value)))
answered-Phase hosts dialog id outcome p o (inl (i, none')) =
    let hosts' = UseApi.answer id outcome hosts in
    taken hosts' dialog hosts'.value refl i (λ hs e. elim (answer-value hosts id outcome hs e) [
      | inl before ↦ inl (sym (ap listed before) ∙ none')
      | inr now ↦ inr (p hs now)
    ])
answered-Phase hosts dialog id outcome p o (inr (hs, h)) =
    let same = empty_pending hosts id outcome (o.answered_once hs h.value) in
    inr (
      hs,
      kept hosts (UseApi.answer id outcome hosts) dialog hs
          (ap (λ (s : ApiState (Unit {0}) (List Host)). s.value) same ∙ h.value) h,
    )

pub dialog-Phase :
    (hosts : ApiState (Unit {0}) (List Host)) (dialog : Modal.Modal) (e : Modal.Event)
    → KeepsHosts e
    → StaysShut e
    → Phase hosts dialog
    → Phase hosts (Modal.step dialog e)
dialog-Phase hosts dialog e k q (inl (i, n)) = inl (step-Idle dialog e q i, n)
dialog-Phase hosts dialog e k q (inr (hs, h)) = inr (
  hs,
  record {
    value = h.value;
    some_host = h.some_host;
    plugins = h.plugins;
    fits = step-Fits hs dialog e h.some_host h.plugins k h.fits;
  },
)

-- The button is enabled once there is a host.
pub opened-Phase :
    (hosts : ApiState (Unit {0}) (List Host)) (dialog : Modal.Modal)
    → can_trigger (listed hosts.value) ≡ true
    → Phase hosts dialog
    → Phase hosts (Modal.step dialog Modal.opened)
opened-Phase hosts dialog c (inl (i, n)) = absurd (cc (c, ap can_trigger n))
opened-Phase hosts dialog c (inr (hs, h)) = inr (
  hs,
  record {
    value = h.value;
    some_host = h.some_host;
    plugins = h.plugins;
    fits = step-Fits hs dialog Modal.opened h.some_host h.plugins tt h.fits;
  },
)

pub requests_of :
    (hosts : ApiState (Unit {0}) (List Host)) (dialog : Modal.Modal)
    → Phase hosts dialog
    → All (λ r. Offered (listed hosts.value) r.host r.plugin) dialog.sent
requests_of hosts dialog (inl (i, n)) = rw i.unsent tt
requests_of hosts dialog (inr (hs, h)) = rw h.value h.fits.requests
