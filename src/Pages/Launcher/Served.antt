-- ===== src/Pages/Launcher/Served.antt =====
-- The hosts that a page has loaded are such as the controller has answered.
use backup_orchestration_pla.Common.{
  ℕ, ◌≡◌, inl, inr, sym, subst, ◌∙◌, Bool, true, false, some, List, [], ◌∷◌, All, if◌then◌else◌,
}
use backup_orchestration_pla.Common.Text.{is_given}
use backup_orchestration_pla.Failure.{Outcome, resolved, rejected}
use backup_orchestration_pla.Wire.{Host}
use backup_orchestration_pla.UseApi
use backup_orchestration_pla.UseApi.{ApiState}
use backup_orchestration_pla.UseApi.Once.{
  Once, answer-Once, answer-value, visibility-Once, mount-Once, step-answered,
}
use backup_orchestration_pla.Pages.{listed}
use backup_orchestration_pla.Pages.Launcher.{
  Launcher, LauncherEvent, hosts_answered, retried, trigger_clicked, closed, visibility,
  update_jobs, can_trigger, show, close, step, run, mount,
}

module _ (P : List Host → Type 0) where
  record Holds (hosts : ApiState (Unit {0}) (List Host)) : Type 0 where
    once : Once hosts
    loaded : (hs : List Host) → hosts.value ≡ some hs → P hs

  answered-Holds :
      (hosts : ApiState (Unit {0}) (List Host)) (id : ℕ) (outcome : Outcome (List Host))
      → ((hs : List Host) → outcome ≡ resolved hs → P hs)
      → Holds hosts
      → Holds (UseApi.step hosts (UseApi.answered id outcome))
  answered-Holds hosts id outcome p h = rw (step-answered hosts id outcome) (record {
    once = answer-Once hosts id outcome h.once;
    loaded = λ hs e. elim (answer-value hosts id outcome hs e) [
      | inl before ↦ h.loaded hs before
      | inr now ↦ p hs now
    ];
  })

  visible-Holds :
      (hosts : ApiState (Unit {0}) (List Host)) (hidden : Bool)
      → Holds hosts
      → Holds (UseApi.step hosts (UseApi.visibility hidden))
  visible-Holds hosts hidden h =
      let seen = visibility-Once hosts hidden h.once in
      record { once = seen.0; loaded = λ hs e. h.loaded hs (sym seen.1 ∙ e) }

module _ (P : List Host → Type 0) {D : Type 0} where
  -- An inventory that is answered has the property.
  abbrev pub AnswersOf : LauncherEvent D → Type 0
  AnswersOf (hosts_answered id (resolved hs)) = P hs
  AnswersOf _ = Unit

  either-Holds :
      (b : Bool) (s t : Launcher D)
      → Holds P s.hosts
      → Holds P t.hosts
      → Holds P (if b then s else t).hosts
  either-Holds true s t h k = h
  either-Holds false s t h k = k

  step-Holds :
      (s : Launcher D) (e : LauncherEvent D)
      → AnswersOf e
      → Holds P s.hosts
      → Holds P (step s e).hosts
  unfolding step
  step-Holds s (hosts_answered id (resolved hs)) p h =
      answered-Holds P s.hosts id (resolved hs) (λ l e. subst P (cc e) p) h
  step-Holds s (hosts_answered id (rejected err)) p h =
      answered-Holds P s.hosts id (rejected err) (λ l e. absurd (cc e)) h
  step-Holds s (visibility hidden) p h = visible-Holds P s.hosts hidden h
  step-Holds s retried p h =
      either-Holds (is_given s.jobs.error) (update_jobs UseApi.reload s) s h h
  step-Holds s trigger_clicked p h =
      either-Holds (can_trigger (listed s.hosts.value)) (show s) s h h
  step-Holds s closed p h = either-Holds s.show_trigger (close s) s h h
  step-Holds s _ p h = h

  run-Holds :
      (s : Launcher D) (es : List (LauncherEvent D))
      → All AnswersOf es
      → Holds P s.hosts
      → Holds P (run s es).hosts
  unfolding run
  run-Holds s [] p h = h
  run-Holds s (e ∷ es) p h = run-Holds (step s e) es p.1 (step-Holds s e p.0 h)

  -- The inventory that a page has loaded, after any events, has the property that every answer has.
  pub loaded_inventory :
      (d : D) (hidden : Bool) (es : List (LauncherEvent D)) (hs : List Host)
      → All AnswersOf es
      → (run (mount d hidden) es).hosts.value ≡ some hs
      → P hs
  unfolding mount
  loaded_inventory d hidden es hs p e =
      let m = mount-Once {A = List Host} tt hidden in
      let start : Holds P (mount d hidden).hosts = record {
        once = m.0;
        loaded = λ l q. absurd (cc (q, m.1));
      } in
      (run-Holds (mount d hidden) es p start).loaded hs e
