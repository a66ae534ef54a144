-- ===== src/Pages/Launcher/Silence.antt =====
-- What becomes of a page whose inventory cannot be loaded.
use backup_orchestration_pla.Common.{
  ℕ, ◌≡◌, refl, sym, ap, subst, ◌∙◌, Bool, true, false, Option, none, List, [], ◌∷◌, All, length,
  if◌then◌else◌,
}
use backup_orchestration_pla.Common.Text.{is_given}
use backup_orchestration_pla.Failure.{Failure, Outcome, rejected}
use backup_orchestration_pla.Wire.{Host}
use backup_orchestration_pla.UseApi
use backup_orchestration_pla.UseApi.{ApiState, polls}
use backup_orchestration_pla.UseApi.Once.{
  empty_pending, visibility_unpolled, mount-visibility, mount_failed, step-answered,
}
use backup_orchestration_pla.Pages.{listed}
use backup_orchestration_pla.Pages.Launcher.{
  Launcher, LauncherEvent, hosts_answered, jobs_answered, jobs_deps, ticked, retried,
  trigger_clicked, closed, submitted, visibility, host_selected, plugin_selected, trigger_answered,
  update_hosts, update_jobs, update_dialog, can_trigger, show, close, step, run, mount,
}

-- The hook of the inventory has no value, and nothing that could bring one.
record Dead (s : ApiState (Unit {0}) (List Host)) : Type 0 where
  unpolled : polls s.interval ≡ false
  settled : s.pending ≡ []
  missing : s.value ≡ none
  idle : s.loading ≡ false

hidden-Dead :
    (s : ApiState (Unit {0}) (List Host)) (hidden : Bool)
    → Dead s
    → Dead (UseApi.step s (UseApi.visibility hidden))
hidden-Dead s hidden h =
    subst Dead (sym (visibility_unpolled s hidden h.unpolled))
      (record { unpolled = h.unpolled; settled = h.settled; missing = h.missing; idle = h.idle })

answered-Dead :
    (s : ApiState (Unit {0}) (List Host)) (id : ℕ) (outcome : Outcome (List Host))
    → Dead s
    → Dead (UseApi.step s (UseApi.answered id outcome))
answered-Dead s id outcome h =
    subst Dead (sym (step-answered s id outcome ∙ empty_pending s id outcome h.settled)) h

-- The hook of the hosts is as at the start, in a tab that may have been hidden and shown.
abbrev Waits : ApiState (Unit {0}) (List Host) → Type 0
Waits h = (hidden : Bool) × (h ≡ UseApi.mount tt none hidden)

hidden-Waits :
    (h : ApiState (Unit {0}) (List Host)) (hidden : Bool)
    → Waits h
    → Waits (UseApi.step h (UseApi.visibility hidden))
hidden-Waits h hidden w = (
  hidden,
  ap (λ k. UseApi.step k (UseApi.visibility hidden)) w.1 ∙ mount-visibility tt w.0 hidden,
)

module _ {D : Type 0} where
  either_hosts :
      (b : Bool) (s t : Launcher D) → s.hosts ≡ t.hosts → (if b then s else t).hosts ≡ t.hosts
  either_hosts true s t e = e
  either_hosts false s t e = refl

  step-Dead : (s : Launcher D) (e : LauncherEvent D) → Dead s.hosts → Dead (step s e).hosts
  unfolding step update_hosts update_jobs update_dialog show close
  step-Dead s (hosts_answered id outcome) h = answered-Dead s.hosts id outcome h
  step-Dead s (jobs_answered id outcome) h = h
  step-Dead s (jobs_deps d) h = h
  step-Dead s ticked h = h
  step-Dead s retried h =
      subst Dead (sym (either_hosts (is_given s.jobs.error) (update_jobs UseApi.reload s) s refl)) h
  step-Dead s (visibility hidden) h = hidden-Dead s.hosts hidden h
  step-Dead s trigger_clicked h =
      subst Dead (sym (either_hosts (can_trigger (listed s.hosts.value)) (show s) s refl)) h
  step-Dead s closed h = subst Dead (sym (either_hosts s.show_trigger (close s) s refl)) h
  step-Dead s submitted h = h
  step-Dead s (host_selected v) h = h
  step-Dead s (plugin_selected q) h = h
  step-Dead s (trigger_answered outcome) h = h

  run-Dead : (s : Launcher D) (es : List (LauncherEvent D)) → Dead s.hosts → Dead (run s es).hosts
  unfolding run
  run-Dead s [] h = h
  run-Dead s (e ∷ es) h = run-Dead (step s e) es (step-Dead s e h)

  -- Events before the request for the hosts is answered.
  abbrev pub Unanswered : LauncherEvent D → Type 0
  Unanswered (hosts_answered id outcome) = ⊥
  Unanswered _ = Unit

  step-Waits :
      (s : Launcher D) (e : LauncherEvent D) → Unanswered e → Waits s.hosts → Waits (step s e).hosts
  unfolding step update_hosts update_jobs update_dialog show close
  step-Waits s (hosts_answered id outcome) k w = absurd k
  step-Waits s (jobs_answered id outcome) k w = w
  step-Waits s (jobs_deps d) k w = w
  step-Waits s ticked k w = w
  step-Waits s retried k w =
      subst Waits (sym (either_hosts (is_given s.jobs.error) (update_jobs UseApi.reload s) s refl))
        w
  step-Waits s (visibility hidden) k w = hidden-Waits s.hosts hidden w
  step-Waits s trigger_clicked k w =
      subst Waits (sym (either_hosts (can_trigger (listed s.hosts.value)) (show s) s refl)) w
  step-Waits s closed k w = subst Waits (sym (either_hosts s.show_trigger (close s) s refl)) w
  step-Waits s submitted k w = w
  step-Waits s (host_selected v) k w = w
  step-Waits s (plugin_selected q) k w = w
  step-Waits s (trigger_answered outcome) k w = w

  run-Waits :
      (s : Launcher D) (es : List (LauncherEvent D))
      → All Unanswered es
      → Waits s.hosts
      → Waits (run s es).hosts
  unfolding run
  run-Waits s [] k w = w
  run-Waits s (e ∷ es) k w = run-Waits (step s e) es k.1 (step-Waits s e k.0 w)

  mount-Waits : (d : D) (hidden : Bool) → Waits (mount d hidden).hosts
  unfolding mount
  mount-Waits d hidden = (hidden, refl)

  failed :
      (s : Launcher D) (err : Failure)
      → Waits s.hosts
      → Dead (step s (hosts_answered 1 (rejected err))).hosts
  unfolding step update_hosts
  failed s err w =
      let m = mount_failed tt w.0 err in
      subst Dead
        (sym (
          ap (λ h. UseApi.step h (UseApi.answered 1 (rejected err))) w.1
          ∙ step-answered (UseApi.mount tt none w.0) 1 (rejected err)))
        (record { unpolled = m.0; settled = m.1; missing = m.2; idle = m.3 })

  -- The first answer to the page's request for the inventory, whatever has happened to the page before it, is a
  -- failure. From then on, whatever happens to the page, it has no spinner for the hosts, counts no host, and its
  -- button for a backup is disabled.
  pub failed_inventory_stays_empty :
      (d : D) (hidden : Bool) (before : List (LauncherEvent D)) (err : Failure)
      (es : List (LauncherEvent D))
      → All Unanswered before
      → let s = run (step (run (mount d hidden) before) (hosts_answered 1 (rejected err))) es in
        (s.hosts.loading ≡ false)
        × (length (listed s.hosts.value) ≡ 0)
        × (can_trigger (listed s.hosts.value) ≡ false)
  failed_inventory_stays_empty d hidden before err es k =
      let w = run-Waits (mount d hidden) before k (mount-Waits d hidden) in
      let h =
        run-Dead (step (run (mount d hidden) before) (hosts_answered 1 (rejected err))) es
          (failed (run (mount d hidden) before) err w) in
      (
        h.idle,
        ap (λ (v : Option (List Host)). length (listed v)) h.missing,
        ap (λ (v : Option (List Host)). can_trigger (listed v)) h.missing,
      )
