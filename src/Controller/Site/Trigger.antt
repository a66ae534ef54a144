-- ===== src/Controller/Site/Trigger.antt =====
-- The outcomes of `POST /v1/backups`.
use backup_orchestration_pla.Common.{
  ℕ, ltb, length, ◌≡◌, ◌⊎◌, inl, inr, refl, true, false, Bool-cases, not, ◌||◌, Option, none, some,
  is_some, [], ◌∷◌, ◌++◌, if◌then◌else◌, arith,
}
use backup_orchestration_pla.Common.Text.{Text, truthy}
use backup_orchestration_pla.Client.{Response}
use backup_orchestration_pla.Wire
use backup_orchestration_pla.Wire.{TriggerBackupRequest}
use backup_orchestration_pla.Controller.Core.{Job}
use backup_orchestration_pla.Controller.Inventory.{Inventory}
use backup_orchestration_pla.Controller.Metadata.{Store, StoreError, Written, has_job, create_job}
use backup_orchestration_pla.Controller.Queue.{Memory, enqueue}
use backup_orchestration_pla.Controller.Site.{
  Site, Creation, submitted, submit, requested_job, trigger_answer, trigger_request,
  trigger_backup_handler,
}
use backup_orchestration_pla.Controller.Site.Durable.{create_job_done, record_event_rows}

abbrev Answered : Type 0
Answered = Site × Response Wire.Job

-- Nothing has changed, and the answer tells the first of three causes that holds.
abbrev pub Refused : Creation → Option Text → TriggerBackupRequest → Job → Site → Answered → Type 0
Refused c built req job s w =
    (w.0 ≡ s)
    × (((w.1.status ≡ 400) × ((not (truthy req.host) || not (truthy req.plugin)) ≡ true))
        ⊎ (((w.1.status ≡ 404)
              × ((not (truthy req.host) || not (truthy req.plugin)) ≡ false)
              × (is_some built ≡ true))
            ⊎ ((w.1.status ≡ 500)
                × ((not (truthy req.host) || not (truthy req.plugin)) ≡ false)
                × (is_some built ≡ false)
                × ((is_some c.create_fault || has_job job.id s.store.jobs) ≡ true))))

-- No cause for a refusal: the job is a row of the table, and in the queue if the queue has room.
abbrev pub Taken : Creation → Option Text → TriggerBackupRequest → Job → Site → Answered → Type 0
Taken c built req job s w =
    ((not (truthy req.host) || not (truthy req.plugin)) ≡ false)
    × (is_some built ≡ false)
    × ((is_some c.create_fault || has_job job.id s.store.jobs) ≡ false)
    × (w.1.status ≡ 202)
    × (w.0.store.jobs ≡ s.store.jobs ++ job ∷ [])
    × (w.0.queue.jobs ≡ (
        if ltb (length s.queue.jobs) s.queue.capacity
        then s.queue.jobs ++ job ∷ []
        else s.queue.jobs))

create_job_written :
    (f : Option Text) (job : Job) (s t : Store)
    → create_job f job s ≡ (t, none)
    → (is_some f || has_job job.id s.jobs) ≡ false
unfolding create_job
create_job_written (some x) job s t h = absurd (cc h)
create_job_written none job s t h = ground (arith, h)

create_job_failed :
    (f : Option Text) (job : Job) (s t : Store) (e : StoreError)
    → create_job f job s ≡ (t, some e)
    → (is_some f || has_job job.id s.jobs) ≡ true
unfolding create_job
create_job_failed (some x) job s t e h = refl
create_job_failed none job s t e h = ground (arith, h)

enqueue_jobs :
    (job : Job) (m : Memory)
    → (enqueue job m).0.jobs
      ≡ (if ltb (length m.jobs) m.capacity then m.jobs ++ job ∷ [] else m.jobs)
unfolding enqueue
enqueue_jobs job m = elim (Bool-cases (ltb (length m.jobs) m.capacity)) [
  | inl e ↦ rw e refl
  | inr e ↦ rw e refl
]

module _ (reason rfc3339 : ℕ → Text) (create_error : StoreError → Text) (inv : Inventory) where
  answered :
      (c : Creation) (built : Option Text) (req : TriggerBackupRequest) (job : Job) (s : Site)
      (w : Written)
      → (not (truthy req.host) || not (truthy req.plugin)) ≡ false
      → is_some built ≡ false
      → create_job c.create_fault job s.store ≡ w
      → Refused c built req job s
          (trigger_answer reason rfc3339 create_error inv job (submitted c job s w))
        ⊎ Taken c built req job s
            (trigger_answer reason rfc3339 create_error inv job (submitted c job s w))
  answered c built req job s (t, some e) good b h =
      inl (refl, inr (inr (refl, good, b, create_job_failed c.create_fault job s.store t e h)))
  answered c built req job s (t, none) good b h = inr (
    good,
    b,
    create_job_written c.create_fault job s.store t h,
    refl,
    rw (record_event_rows c.event_fault) (create_job_done c.create_fault job s.store t h).1,
    enqueue_jobs job s.queue,
  )

  abbrev Outcome : Creation → Option Text → TriggerBackupRequest → Site → Answered → Type 0
  Outcome c built req s w =
      Refused c built req (requested_job inv c req) s w
      ⊎ Taken c built req (requested_job inv c req) s w

  good_request :
      (c : Creation) (req : TriggerBackupRequest) (s : Site)
      → (not (truthy req.host) || not (truthy req.plugin)) ≡ false
      → trigger_request reason rfc3339 create_error inv c req none s
        ≡ trigger_answer reason rfc3339 create_error inv (requested_job inv c req) (
            submitted c
              (requested_job inv c req)
              s
              (create_job c.create_fault (requested_job inv c req) s.store))
  unfolding trigger_request submit
  good_request c req s e = rw e refl

  bad_request :
      (c : Creation) (req : TriggerBackupRequest) (built : Option Text) (s : Site)
      → (not (truthy req.host) || not (truthy req.plugin)) ≡ true
      → Outcome c built req s (trigger_request reason rfc3339 create_error inv c req built s)
  unfolding trigger_request
  bad_request c req built s e = rw e (inl (refl, inl (refl, refl)))

  unbuilt_request :
      (c : Creation) (req : TriggerBackupRequest) (x : Text) (s : Site)
      → (not (truthy req.host) || not (truthy req.plugin)) ≡ false
      → Outcome c (some x) req s (trigger_request reason rfc3339 create_error inv c req (some x) s)
  unfolding trigger_request
  unbuilt_request c req x s e = rw e (inl (refl, inr (inl (refl, refl, refl))))

  request_outcome :
      (c : Creation) (req : TriggerBackupRequest) (built : Option Text) (s : Site)
      → (not (truthy req.host) || not (truthy req.plugin)) ≡ false
      → Outcome c built req s (trigger_request reason rfc3339 create_error inv c req built s)
  request_outcome c req none s e = rw (good_request c req s e) (
      answered c none req (requested_job inv c req) s
        (create_job c.create_fault (requested_job inv c req) s.store) e refl refl)
  request_outcome c req (some x) s e = unbuilt_request c req x s e

  -- A decoded request for a backup is answered 400 where its host or plugin is empty; else 404 where no plugin can be
  -- built; else 500 where the row cannot be written or its id is taken; and then neither the table nor the queue has
  -- changed. Where none of these causes holds it is answered 202, and its job is a new row of the table, at its end,
  -- and at the end of the queue too if the queue has room, else the queue is as it was.
  pub trigger-Taken :
      (c : Creation) (build : Text → Text → Option Text) (req : TriggerBackupRequest) (s : Site)
      → Refused c
          (build req.host req.plugin)
          req
          (requested_job inv c req)
          s
          (trigger_backup_handler reason rfc3339 create_error inv c build (some req) s)
        ⊎ Taken c
            (build req.host req.plugin)
            req
            (requested_job inv c req)
            s
            (trigger_backup_handler reason rfc3339 create_error inv c build (some req) s)
  unfolding trigger_backup_handler
  trigger-Taken c build req s =
      elim (Bool-cases (not (truthy req.host) || not (truthy req.plugin))) [
        | inl e ↦ bad_request c req (build req.host req.plugin) s e
        | inr e ↦ request_outcome c req (build req.host req.plugin) s e
      ]
