-- ===== src/Controller/RunJob/Seals.antt =====
-- The statuses that a job's run writes, and the seal that the console shows for the events that it publishes
-- (web/src/components/Seal.tsx).
use backup_orchestration_pla.Common.{
  ℕ, ◌≡◌, ◌≢◌, ◌↔◌, refl, ap, ◌∙◌, Bool, true, false, Option, none, some, List, [], ◌∷◌, ◌++◌, map,
  arith, inl, inr, Option-cases,
}
use backup_orchestration_pla.Common.Text.{Text}
use backup_orchestration_pla.Wire.{
  JobStatus, in_progress, completed, failed, EventType, BopEvent, backup_started, backup_failed,
  artifact_created, repository_verification_completed, restore_verification_completed,
}
use backup_orchestration_pla.Seal
use backup_orchestration_pla.Seal.{
  has_type, same_type, seal_tier_for_events, SealTier, restored, storage,
}
use backup_orchestration_pla.Controller.Core.{Resource, Job, Event, Fallible, ok, err}
use backup_orchestration_pla.Controller.Pipeline.{Effect, published, status_set, Run, ran, before}
use backup_orchestration_pla.Controller.Pipeline.Attempts.{log_of, result_of, publishes}
use backup_orchestration_pla.Controller.RunJob.{
  Ports, RunError, job_failed, failure_not_recorded, completion_not_recorded, run_marked,
  run_pipeline, end_job,
}
use backup_orchestration_pla.Controller.RunJob.Verified.{Verified, Piped, run_pipeline-Piped}
use backup_orchestration_pla.Controller.RunJob.Resources.{
  publishes-append, statuses, statuses-append, events_of, has_type-events_of,
}
use backup_orchestration_pla.Controller.Handlers.{new_event_summary}

-- The statuses that are written when a run returns the error: none but for a job that was started.
abbrev pub written : Option RunError → List JobStatus
written none = in_progress ∷ completed ∷ []
written (some (job_failed cause)) = in_progress ∷ failed ∷ []
written (some (failure_not_recorded cause e)) = in_progress ∷ []
written (some (completion_not_recorded e)) = in_progress ∷ []
written (some _) = []

abbrev pub is_failure : Option RunError → Bool
is_failure (some (job_failed cause)) = true
is_failure (some (failure_not_recorded cause e)) = true
is_failure _ = false

-- The tier of the events that a log publishes.
abbrev pub tier_of : (ℕ → Text) → List Effect → SealTier
tier_of rfc3339 log = seal_tier_for_events (map (new_event_summary rfc3339) (events_of log))

-- The tier that a job earns by the resources that were discovered.
abbrev pub earned : Bool → List Resource → SealTier
earned enabled [] = Seal.none
earned true (res ∷ resources) = restored
earned false (res ∷ resources) = storage

-- A log in front of a tail that publishes, or behind a front that does not, is that of one of them.
publishes_front :
    (t : EventType) (log tail : List Effect)
    → publishes t tail ≡ false
    → publishes t (log ++ tail) ≡ publishes t log
publishes_front t log tail h = ground (arith, publishes-append t log tail, h)

publishes_quiet :
    (t : EventType) (log tail : List Effect)
    → publishes t log ≡ false
    → publishes t (log ++ tail) ≡ publishes t tail
publishes_quiet t log tail h = ground (arith, publishes-append t log tail, h)

statuses_quiet :
    (log tail : List Effect) → statuses log ≡ [] → statuses (log ++ tail) ≡ statuses tail
statuses_quiet log tail h = ground (arith, statuses-append log tail, h)

-- The console's tier of a log that publishes what a pipeline `inner` does.
earned_by :
    (es : List BopEvent) (inner : List Effect) (enabled : Bool) (resources : List Resource)
    → (has_type artifact_created es ≡ publishes artifact_created inner)
      × (has_type repository_verification_completed es
          ≡ publishes repository_verification_completed inner)
      × (has_type restore_verification_completed es
          ≡ publishes restore_verification_completed inner)
    → has_type backup_failed es ≡ false
    → Verified enabled resources inner
    → seal_tier_for_events es ≡ earned enabled resources
unfolding seal_tier_for_events
earned_by es inner enabled [] h f v = ground (arith, h, f, v)
earned_by es inner true (res ∷ resources) h f v = ground (arith, h, f, v)
earned_by es inner false (res ∷ resources) h f v = ground (arith, h, f, v)

module _ (quoted : Text → Text) (joined : List Text → Text) (job : Job) {C : Type 0} where
  -- The log of a started job, around that of its pipeline.
  record Finished (ports : Ports C) (m : Run (Unit {0})) (t : List Effect × Option RunError)
      : Type 0 where
    row : statuses t.0 ≡ written t.1
    failed_iff : publishes backup_failed t.0 ≡ is_failure t.1
    same_restored :
        publishes restore_verification_completed t.0
        ≡ publishes restore_verification_completed (log_of m)
    same_verified :
        publishes repository_verification_completed t.0
        ≡ publishes repository_verification_completed (log_of m)
    same_created : publishes artifact_created t.0 ≡ publishes artifact_created (log_of m)
    outcome : is_failure t.1 ≡ false → result_of m ≡ ok tt

  -- A log between the start and the tail that the ended job leaves.
  surrounded :
      (ports : Ports C) (started : Event) (log : List Effect) (r : Fallible (Unit {0}))
      (tail : List Effect) (error : Option RunError)
      → started.type ≡ backup_started
      → publishes backup_failed log ≡ false
      → statuses log ≡ []
      → (in_progress ∷ statuses tail ≡ written error)
        × (publishes backup_failed tail ≡ is_failure error)
        × (publishes restore_verification_completed tail ≡ false)
        × (publishes repository_verification_completed tail ≡ false)
        × (publishes artifact_created tail ≡ false)
      → (is_failure error ≡ false → r ≡ ok tt)
      → Finished ports
          (ran log r)
          (status_set in_progress ∷ published started ∷ (log ++ tail), error)
  unfolding same_type
  surrounded ports started log r tail error s q w h o = rw s (record {
    row = ap (in_progress ∷◌) (statuses_quiet log tail w) ∙ h.0;
    failed_iff = publishes_quiet backup_failed log tail q ∙ h.1;
    same_restored = publishes_front restore_verification_completed log tail h.2;
    same_verified = publishes_front repository_verification_completed log tail h.3;
    same_created = publishes_front artifact_created log tail h.4;
    outcome = o;
  })

  end_job-Finished :
      (ports : Ports C) (started : Event) (m : Run (Unit {0}))
      → started.type ≡ backup_started
      → publishes backup_failed (log_of m) ≡ false
      → statuses (log_of m) ≡ []
      → Finished ports m (
          end_job quoted joined job ports
            (before (status_set in_progress ∷ published started ∷ []) m))
  unfolding end_job same_type
  end_job-Finished ports started (ran log (ok u)) s q w =
      surrounded ports started log (ok u) _ _ s q w
        (elim (Option-cases (ports.record_status completed)) [
          | inl r ↦ rw r (refl, refl, refl, refl, refl)
          | inr (x, r) ↦ rw r (refl, refl, refl, refl, refl)
        ])
        (λ e. refl)
  end_job-Finished ports started (ran log (err x)) s q w =
      elim (Option-cases (ports.record_status failed)) [
        | inl r ↦ rw r (
            surrounded ports started log (err x) _ _ s q w (refl, refl, refl, refl, refl)
              (λ e. absurd (cc e)))
        | inr (y, r) ↦ rw r (
            surrounded ports started log (err x) _ _ s q w (refl, refl, refl, refl, refl)
              (λ e. absurd (cc e)))
      ]

  tier-Finished :
      (rfc3339 : ℕ → Text) (enabled : Bool) {ports : Ports C} (found : Fallible (List Resource))
      (m : Run (Unit {0})) (t : List Effect × Option RunError)
      → Piped enabled found m
      → Finished ports m t
      → ((tier_of rfc3339 t.0 ≡ Seal.failed) ↔ (is_failure t.1 ≡ true))
        × (is_failure t.1 ≡ false
            → (resources : List Resource) × (found ≡ ok resources)
              × (tier_of rfc3339 t.0 ≡ earned enabled resources))
  unfolding seal_tier_for_events
  tier-Finished rfc3339 enabled found m (log, error) p f =
      let failed_by = has_type-events_of rfc3339 backup_failed log in
      let restored_by = has_type-events_of rfc3339 restore_verification_completed log in
      let verified_by = has_type-events_of rfc3339 repository_verification_completed log in
      let created_by = has_type-events_of rfc3339 artifact_created log in
      (
        ground (arith, failed_by, f.failed_iff),
        (λ e.
            let v = p.verified (f.outcome e) in
            (
              v.0,
              v.1,
              earned_by _ _ enabled v.0
                  (
                    created_by ∙ f.same_created,
                    verified_by ∙ f.same_verified,
                    restored_by ∙ f.same_restored,
                  )
                  (failed_by ∙ (f.failed_iff ∙ e)) v.2,
            )),
      )

  -- A started job writes its statuses by how it ends; the seal of its events is the failure exactly if it failed,
  -- and otherwise the tier of its resources, which were discovered.
  pub run_marked_seal :
      (rfc3339 : ℕ → Text) (ports : Ports C) (enabled : Bool) (fault : Option Text)
      → let t = run_marked quoted joined job ports enabled fault in
        (statuses t.0 ≡ written t.1)
        × ((tier_of rfc3339 t.0 ≡ Seal.failed) ↔ (is_failure t.1 ≡ true))
        × (statuses t.0 ≢ []
            → is_failure t.1 ≡ false
            → (resources : List Resource) × (ports.discover ≡ ok resources)
              × (tier_of rfc3339 t.0 ≡ earned enabled resources))
  unfolding run_marked seal_tier_for_events has_type
  run_marked_seal rfc3339 ports enabled (some e) =
      (refl, ((λ q. cc q), (λ q. absurd (cc q))), (λ q. absurd (q refl)))
  run_marked_seal rfc3339 ports enabled none =
      let p = run_pipeline-Piped quoted joined job enabled ports in
      let f =
        end_job-Finished ports _ (run_pipeline quoted joined job ports enabled) refl p.quiet
          p.unwritten in
      let t = tier-Finished rfc3339 enabled ports.discover _ _ p f in (f.row, t.0, λ q. t.1)
