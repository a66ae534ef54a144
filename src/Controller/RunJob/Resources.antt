-- ===== src/Controller/RunJob/Resources.antt =====
-- How a job ends: its statuses, its events, and the seal that the console shows for it
-- (web/src/components/Seal.tsx).
use backup_orchestration_pla.Common.{
  ℕ, suc, ◌≡◌, ◌≢◌, ◌↔◌, ◌⊎◌, refl, ap, Bool, true, false, ◌||◌, List, [], ◌∷◌, ◌++◌, map, arith,
  inl, inr,
}
use backup_orchestration_pla.Common.Text.{Text}
use backup_orchestration_pla.Wire.{
  JobStatus, EventType, backup_failed, repository_verification_completed,
  restore_verification_completed,
}
use backup_orchestration_pla.Seal.{has_type, same_type}
use backup_orchestration_pla.Controller.Core.{Resource, Job, Event, Fallible, ok, err}
use backup_orchestration_pla.Controller.Pipeline.{
  Effect, published, status_set, Run, ran, Attempt, backup_resource,
}
use backup_orchestration_pla.Controller.Pipeline.Attempts.{
  log_of, result_of, publishes, attempt_events,
}
use backup_orchestration_pla.Controller.RunJob.{collect, backup_resources}
use backup_orchestration_pla.Controller.Handlers.{new_event_summary}

pub publishes-append :
    (t : EventType) (xs ys : List Effect)
    → publishes t (xs ++ ys) ≡ (publishes t xs || publishes t ys)
publishes-append t [] ys = refl
publishes-append t (x ∷ xs) ys = ground (arith, publishes-append t xs ys)

List-cases : {A : Type 0} (xs : List A) → (xs ≡ []) ⊎ (xs ≢ [])
List-cases [] = inl refl
List-cases (x ∷ xs) = inr (λ e. cc e)

-- The statuses that a log writes.
abbrev pub statuses : List Effect → List JobStatus
statuses [] = []
statuses (status_set status ∷ log) = status ∷ statuses log
statuses (_ ∷ log) = statuses log

pub statuses-append : (xs ys : List Effect) → statuses (xs ++ ys) ≡ statuses xs ++ statuses ys
statuses-append [] ys = refl
statuses-append (published e ∷ xs) ys = statuses-append xs ys
statuses-append (status_set st ∷ xs) ys = ap (st ∷◌) (statuses-append xs ys)
statuses-append (_ ∷ xs) ys = statuses-append xs ys

-- The events that a log publishes.
abbrev pub events_of : List Effect → List Event
events_of [] = []
events_of (published e ∷ log) = e ∷ events_of log
events_of (_ ∷ log) = events_of log

-- The console tests the published events.
pub has_type-events_of :
    (rfc3339 : ℕ → Text) (t : EventType) (log : List Effect)
    → has_type t (map (new_event_summary rfc3339) (events_of log)) ≡ publishes t log
unfolding has_type new_event_summary
has_type-events_of rfc3339 t [] = refl
has_type-events_of rfc3339 t (published e ∷ log) =
    ap (same_type e.type t ||◌) (has_type-events_of rfc3339 t log)
has_type-events_of rfc3339 t (_ ∷ log) = has_type-events_of rfc3339 t log

module _ (quoted : Text → Text) (joined : List Text → Text) (job : Job) where
  backup_statuses :
      (a : Attempt) (res : Resource) (enabled : Bool)
      → statuses (log_of (backup_resource job a res enabled)) ≡ []
  unfolding backup_resource
  backup_statuses a res false = ground arith
  backup_statuses a res true = ground arith

  -- What the loop over the resources has published and written.
  pub record Backups (enabled : Bool) (resources : List Resource) (made : List Effect × List Text)
      : Type 0 where
    pub quiet : publishes backup_failed made.0 ≡ false
    pub unwritten : statuses made.0 ≡ []
    pub empty : resources ≡ [] → made ≡ ([], [])
    pub verified :
        made.1 ≡ [] → resources ≢ [] → publishes repository_verification_completed made.0 ≡ true
    pub restored :
        made.1 ≡ [] → resources ≢ [] → publishes restore_verification_completed made.0 ≡ enabled

  -- What `attempt_events` and `backup_statuses` say of an attempt.
  record Attempted (enabled : Bool) (m : Run (Unit {0})) : Type 0 where
    pub quiet : publishes backup_failed (log_of m) ≡ false
    pub unwritten : statuses (log_of m) ≡ []
    pub verified :
        result_of m ≡ ok tt → publishes repository_verification_completed (log_of m) ≡ true
    pub restored :
        (publishes restore_verification_completed (log_of m) ≡ true)
        ↔ ((result_of m ≡ ok tt) × (enabled ≡ true))

  attempted :
      (a : Attempt) (res : Resource) (enabled : Bool)
      → Attempted enabled (backup_resource job a res enabled)
  attempted a res enabled =
      let h = attempt_events job a res enabled in
      record {
        quiet = h.0;
        unwritten = backup_statuses a res enabled;
        verified = h.2;
        restored = h.1;
      }

  collect-Backups :
      (res : Resource) (enabled : Bool) (m : Run (Unit {0})) {resources : List Resource}
      (made : List Effect × List Text)
      → Attempted enabled m
      → Backups enabled resources made
      → Backups enabled (res ∷ resources) (collect quoted joined job res m made)
  collect-Backups res enabled (ran first r) {resources} (log, errs) h k =
      made r (publishes-append backup_failed first log)
        (publishes-append repository_verification_completed first log)
        (publishes-append restore_verification_completed first log) (statuses-append first log) h
    where
      made :
          (r' : Fallible (Unit {0}))
          → publishes backup_failed (first ++ log)
            ≡ (publishes backup_failed first || publishes backup_failed log)
          → publishes repository_verification_completed (first ++ log) ≡ (
              publishes repository_verification_completed first
              || publishes repository_verification_completed log)
          → publishes restore_verification_completed (first ++ log) ≡ (
              publishes restore_verification_completed first
              || publishes restore_verification_completed log)
          → statuses (first ++ log) ≡ statuses first ++ statuses log
          → Attempted enabled (ran first r')
          → Backups enabled
              (res ∷ resources)
              (collect quoted joined job res (ran first r') (log, errs))
      made (ok u) f v t st h' = record {
        quiet = ground (arith, f, h'.quiet, k.quiet);
        unwritten = ground (arith, st, h'.unwritten, k.unwritten);
        empty = λ e. absurd (cc e);
        verified = λ e ne. ground (arith, v, h'.verified refl);
        restored = λ e ne. elim (List-cases resources) [
          | inl q ↦ ground (arith, t, h'.restored, k.empty q, e)
          | inr q ↦ ground (arith, t, h'.restored, k.restored e q)
        ];
      }
      made (err x) f v t st h' = record {
        quiet = ground (arith, f, h'.quiet, k.quiet);
        unwritten = ground (arith, st, h'.unwritten, k.unwritten);
        empty = λ e. absurd (cc e);
        verified = λ e ne. absurd (cc e);
        restored = λ e ne. absurd (cc e);
      }

  pub backup_resources-Backups :
      (attempts : ℕ → Attempt) (enabled : Bool) (n : ℕ) (resources : List Resource)
      → Backups enabled resources (backup_resources quoted joined job attempts enabled n resources)
  unfolding backup_resources
  backup_resources-Backups attempts enabled n [] = record {
    quiet = refl;
    unwritten = refl;
    empty = λ e. refl;
    verified = λ e ne. absurd (ne refl);
    restored = λ e ne. absurd (ne refl);
  }
  backup_resources-Backups attempts enabled n (res ∷ resources) =
      collect-Backups res enabled (backup_resource job (attempts n) res enabled) _
        (attempted (attempts n) res enabled)
        (backup_resources-Backups attempts enabled (suc n) resources)
