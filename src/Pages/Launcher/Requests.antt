-- ===== src/Pages/Launcher/Requests.antt =====
-- The backups that a page asks for: a plugin of a host, both from the inventory that the page has loaded.
use backup_orchestration_pla.Common.{
  ℕ, ◌≡◌, inl, inr, refl, sym, ap, subst, ◌∙◌, Bool, true, false, some, List, [], ◌∷◌, All,
  if◌then◌else◌,
}
use backup_orchestration_pla.Common.Text.{is_given}
use backup_orchestration_pla.Failure.{Outcome, resolved, rejected}
use backup_orchestration_pla.Wire.{Host, Job}
use backup_orchestration_pla.UseApi
use backup_orchestration_pla.UseApi.{ApiState}
use backup_orchestration_pla.UseApi.Once.{
  Once, answer-Once, visibility-Once, mount-Once, step-answered,
}
use backup_orchestration_pla.Modal
use backup_orchestration_pla.Modal.Offers.{Offered, KeepsHosts}
use backup_orchestration_pla.Modal.Idle.{StaysShut, step-Idle, mount-Idle}
use backup_orchestration_pla.Pages.{listed}
use backup_orchestration_pla.Pages.Launcher.{
  Launcher, LauncherEvent, hosts_answered, jobs_answered, jobs_deps, ticked, retried,
  trigger_clicked, closed, submitted, visibility, host_selected, plugin_selected, trigger_answered,
  update_hosts, update_jobs, update_dialog, can_trigger, show, close, step, run, mount,
}
use backup_orchestration_pla.Pages.Launcher.Phase.{
  HavePlugins, Phase, kept, answered-Phase, dialog-Phase, opened-Phase, requests_of,
}

-- Every host that the controller lists has a plugin.
abbrev pub Lists : {D : Type 0} → LauncherEvent D → Type 0
Lists (hosts_answered id (resolved hs)) = HavePlugins hs
Lists _ = Unit

record Inv {D : Type 0} (s : Launcher D) : Type 0 where
  once : Once s.hosts
  phase : Phase s.hosts s.dialog

module _ {D : Type 0} where
  either-Inv : (b : Bool) {s t : Launcher D} → (b ≡ true → Inv s) → Inv t → Inv (if b then s else t)
  either-Inv true h k = h refl
  either-Inv false h k = k

  -- Only the inventory and the dialog matter.
  same-Inv : (s t : Launcher D) → (t.hosts ≡ s.hosts) × (t.dialog ≡ s.dialog) → Inv s → Inv t
  same-Inv s t e h = record { once = subst Once (sym e.0) h.once; phase = rw (e.0, e.1) h.phase }

  visible-Inv :
      (s : Launcher D) (hidden : Bool) → Inv s → Inv (update_hosts (UseApi.visibility hidden) s)
  unfolding update_hosts
  visible-Inv s hidden h =
      let seen = visibility-Once s.hosts hidden h.once in
      record {
        once = seen.0;
        phase = seen_phase (UseApi.step s.hosts (UseApi.visibility hidden)) seen.1 h.phase;
      }
    where
      seen_phase :
          (hosts' : ApiState (Unit {0}) (List Host))
          → hosts'.value ≡ s.hosts.value
          → Phase s.hosts s.dialog
          → Phase hosts' (Modal.step s.dialog (Modal.hosts_loaded (listed hosts'.value)))
      seen_phase hosts' e (inl (i, n)) =
          inl (step-Idle s.dialog (Modal.hosts_loaded (listed hosts'.value)) tt i, ap listed e ∙ n)
      seen_phase hosts' e (inr (hs, l)) = inr (hs, kept s.hosts hosts' s.dialog hs (e ∙ l.value) l)

  answered-Inv :
      (s : Launcher D) (id : ℕ) (outcome : Outcome (List Host))
      → ((hs : List Host) → outcome ≡ resolved hs → HavePlugins hs)
      → Inv s
      → Inv (update_hosts (UseApi.answered id outcome) s)
  unfolding update_hosts
  answered-Inv s id outcome p h = rw (step-answered s.hosts id outcome) (record {
    once = answer-Once s.hosts id outcome h.once;
    phase = answered-Phase s.hosts s.dialog id outcome p h.once h.phase;
  })

  dialog-Inv :
      (s : Launcher D) (e : Modal.Event)
      → KeepsHosts e
      → StaysShut e
      → Inv s
      → Inv (update_dialog e s)
  unfolding update_dialog
  dialog-Inv s e k q h = record {
    once = h.once;
    phase = dialog-Phase s.hosts s.dialog e k q h.phase;
  }

  show-Inv : (s : Launcher D) → can_trigger (listed s.hosts.value) ≡ true → Inv s → Inv (show s)
  unfolding show
  show-Inv s c h = record { once = h.once; phase = opened-Phase s.hosts s.dialog c h.phase }

  close-Inv : (s : Launcher D) → Inv s → Inv (close s)
  unfolding close
  close-Inv s h = record {
    once = h.once;
    phase = dialog-Phase s.hosts s.dialog Modal.closed tt tt h.phase;
  }

  jobs-Inv : (s : Launcher D) (e : UseApi.Event D (List Job)) → Inv s → Inv (update_jobs e s)
  unfolding update_jobs
  jobs-Inv s e h = same-Inv s (update_jobs e s) (refl, refl) h

  step-Inv : (s : Launcher D) (e : LauncherEvent D) → Lists e → Inv s → Inv (step s e)
  unfolding step
  step-Inv s (hosts_answered id (resolved hs)) p h =
      answered-Inv s id (resolved hs) (λ l e. subst HavePlugins (cc e) p) h
  step-Inv s (hosts_answered id (rejected err)) p h =
      answered-Inv s id (rejected err) (λ l e. absurd (cc e)) h
  step-Inv s (jobs_answered id outcome) p h = jobs-Inv s (UseApi.answered id outcome) h
  step-Inv s (jobs_deps d) p h = jobs-Inv s (UseApi.deps_changed d (some 5000)) h
  step-Inv s ticked p h = jobs-Inv s UseApi.tick h
  step-Inv s retried p h = either-Inv (is_given s.jobs.error) (λ e. jobs-Inv s UseApi.reload h) h
  step-Inv s (visibility hidden) p h =
      jobs-Inv (update_hosts (UseApi.visibility hidden) s) (UseApi.visibility hidden)
        (visible-Inv s hidden h)
  step-Inv s trigger_clicked p h =
      either-Inv (can_trigger (listed s.hosts.value)) (λ c. show-Inv s c h) h
  step-Inv s closed p h = either-Inv s.show_trigger (λ e. close-Inv s h) h
  step-Inv s submitted p h = dialog-Inv s Modal.submitted tt tt h
  step-Inv s (host_selected v) p h = dialog-Inv s (Modal.host_selected v) tt tt h
  step-Inv s (plugin_selected q) p h = dialog-Inv s (Modal.plugin_selected q) tt tt h
  step-Inv s (trigger_answered outcome) p h = dialog-Inv s (Modal.answered outcome) tt tt h

  run-Inv : (s : Launcher D) (es : List (LauncherEvent D)) → All Lists es → Inv s → Inv (run s es)
  unfolding run
  run-Inv s [] p h = h
  run-Inv s (e ∷ es) p h = run-Inv (step s e) es p.1 (step-Inv s e p.0 h)

  mount-Inv : (d : D) (hidden : Bool) → Inv (mount d hidden)
  unfolding mount
  mount-Inv d hidden =
      let m = mount-Once tt hidden in
      record { once = m.0; phase = inl (mount-Idle [], ap listed m.1) }

  -- If the controller lists hosts with a plugin each, then after any events of the page every backup that its
  -- dialog has asked for is of a plugin of a host, both as in the inventory that the page has loaded.
  pub requests_from_inventory :
      (d : D) (hidden : Bool) (es : List (LauncherEvent D))
      → All Lists es
      → let s = run (mount d hidden) es in
        All (λ r. Offered (listed s.hosts.value) r.host r.plugin) s.dialog.sent
  requests_from_inventory d hidden es p =
      let s = run (mount d hidden) es in
      requests_of s.hosts s.dialog (run-Inv (mount d hidden) es p (mount-Inv d hidden)).phase
