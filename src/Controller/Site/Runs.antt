-- ===== src/Controller/Site/Runs.antt =====
-- Every sequence of the process's events: requests, ticks of the schedule, jobs taken and ended, new starts.
use backup_orchestration_pla.Common.{
  ℕ, suc, ◌≡◌, inl, inr, refl, Bool-cases, not, ◌||◌, Option, Option-cases, none, some, is_some,
  List, [], ◌∷◌,
}
use backup_orchestration_pla.Common.Text.{Text, truthy}
use backup_orchestration_pla.Wire.{Policy, TriggerBackupRequest}
use backup_orchestration_pla.Controller.Core.{Job, new_job}
use backup_orchestration_pla.Controller.Inventory.{Inventory, RawConfig}
use backup_orchestration_pla.Controller.Metadata.{StoreError}
use backup_orchestration_pla.Controller.Site.{
  Site, Creation, SiteEvent, triggered, ticked, taken, finished, restarted, submit, requested_job,
  trigger_answer, trigger_request, trigger_backup_handler, dispatch, step, run,
}
use backup_orchestration_pla.Controller.Site.Durable.{
  Durable, submit-Durable, begin_run-Durable, end_run-Durable,
}
use backup_orchestration_pla.Controller.Site.Restart.{restart-Durable}

dispatch-Durable :
    (cs : ℕ → Creation) (host : Text) (retention : Policy) (n : ℕ)
    (plugins : List (Text × Option RawConfig)) (s : Site)
    → Durable s
    → Durable (dispatch cs host retention n plugins s)
unfolding dispatch new_job
dispatch-Durable cs host retention n [] s d = d
dispatch-Durable cs host retention n ((plugin, cfg) ∷ plugins) s d =
    let job : Job = new_job host plugin retention (cs n).nanos (cs n).now in
    dispatch-Durable cs host retention (suc n) plugins (submit (cs n) job s).0
      (submit-Durable (cs n) job s refl d)

module _ (reason rfc3339 : ℕ → Text) (create_error : StoreError → Text) (inv : Inventory) where
  answer_site :
      (job : Job) (w : Site × Option StoreError)
      → (trigger_answer reason rfc3339 create_error inv job w).0 ≡ w.0
  answer_site job (s, none) = refl
  answer_site job (s, some e) = refl

  trigger_request-Durable :
      (c : Creation) (req : TriggerBackupRequest) (built : Option Text) (s : Site)
      → Durable s
      → Durable (trigger_request reason rfc3339 create_error inv c req built s).0
  unfolding trigger_request new_job
  trigger_request-Durable c req built s d =
      elim (Bool-cases (not (truthy req.host) || not (truthy req.plugin))) [
        | inl e ↦ rw e d
        | inr e ↦ elim (Option-cases built) [
          | inl f ↦
              rw
                (e, f, answer_site (requested_job inv c req) (submit c (requested_job inv c req) s))
                (submit-Durable c (requested_job inv c req) s refl d)
          | inr f ↦ rw (e, f.1) d
        ]
      ]

  step-Durable :
      (s : Site) (e : SiteEvent) → Durable s → Durable (step reason rfc3339 create_error inv s e)
  unfolding step trigger_backup_handler
  step-Durable s (triggered c build none) d = d
  step-Durable s (triggered c build (some req)) d =
      trigger_request-Durable c req (build req.host req.plugin) s d
  step-Durable s (ticked cs host srv) d = dispatch-Durable cs host srv.retention 0 srv.plugins s d
  step-Durable s (taken started) d = elim (Bool-cases (is_some s.running)) [
    | inl e ↦ rw e d
    | inr e ↦ rw e (begin_run-Durable started s d)
  ]
  step-Durable s (finished recorded) d = end_run-Durable s.running recorded s d.2 d
  step-Durable s restarted d = restart-Durable s d.0

  -- From a state where this holds it holds after any events: the queue holds at most its capacity of jobs, no job twice, and
  -- each is a queued row of the jobs table; the job that runs is in progress there; and no two rows have one id.
  pub run-Durable :
      (s : Site) (es : List SiteEvent)
      → Durable s
      → Durable (run reason rfc3339 create_error inv s es)
  unfolding run
  run-Durable s [] d = d
  run-Durable s (e ∷ es) d =
      run-Durable (step reason rfc3339 create_error inv s e) es (step-Durable s e d)
