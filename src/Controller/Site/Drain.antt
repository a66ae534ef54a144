-- ===== src/Controller/Site/Drain.antt =====
-- The consumer that takes the queue's jobs one after the other (`runConsumer`), each run to its end.
use backup_orchestration_pla.Common.{
  ℕ, ◌≡◌, refl, sym, ap, subst, ◌∙◌, Bool, true, false, Bool-cases, inl, inr, none, some, List, [],
  ◌∷◌, length, All, arith,
}
use backup_orchestration_pla.Common.Text.{Text, text_eq}
use backup_orchestration_pla.Wire.{JobStatus, queued, in_progress, completed, failed}
use backup_orchestration_pla.Controller.Core.{Job}
use backup_orchestration_pla.Controller.Inventory.{Inventory}
use backup_orchestration_pla.Controller.Metadata.{Store, StoreError, has_job, update_job_status}
use backup_orchestration_pla.Controller.Queue.{dequeue}
use backup_orchestration_pla.Controller.Site.{
  Site, SiteEvent, taken, finished, begin_run, restart, step, run,
}
use backup_orchestration_pla.Controller.Site.Rows.{
  status_of, Unique, status_of-other, status_of-updated, apart_of,
}
use backup_orchestration_pla.Controller.Site.Durable.{
  Durable, update_rows, begin_run-Durable, end_run-Durable,
}
use backup_orchestration_pla.Controller.Site.Oldest.{Oldest}
use backup_orchestration_pla.Controller.Site.Restart.{restart-Durable, restart-Oldest}

-- How the run of a job that the consumer takes ends: it was not started, its last status could not be written, or
-- it is recorded, as a success or a failure.
pub data Ending : Type 0 where
  not_started unrecorded succeeded broken : Ending

-- The jobs, each taken and run to its ending.
abbrev pub rounds : List Ending → List SiteEvent
rounds [] = []
rounds (not_started ∷ es) = taken false ∷ finished none ∷ rounds es
rounds (unrecorded ∷ es) = taken true ∷ finished none ∷ rounds es
rounds (succeeded ∷ es) = taken true ∷ finished (some true) ∷ rounds es
rounds (broken ∷ es) = taken true ∷ finished (some false) ∷ rounds es

-- The status that an ending leaves in the row.
abbrev pub final : Ending → JobStatus
final not_started = queued
final unrecorded = in_progress
final succeeded = completed
final broken = failed

-- The jobs' rows have the statuses of their endings, one by one.
abbrev pub EndsAs : List Job → List Job → List Ending → Type 0
EndsAs rows [] [] = Unit
EndsAs rows (j ∷ q) (e ∷ es) = (status_of j.id rows ≡ some (final e)) × EndsAs rows q es
EndsAs rows _ _ = ⊥

abbrev pub Drained : List Job → List Ending → Site → Type 0
Drained q es t = EndsAs t.store.jobs q es × (t.queue.jobs ≡ []) × (t.running ≡ none)

-- Between two jobs: the consumer waits.
abbrev idle : Store → ℕ → List Job → Site
idle store capacity q = record {
  store = store;
  queue = record { capacity = capacity; jobs = q };
  running = none;
}

-- The store after a job's round.
abbrev ran : Ending → Text → Store → Store
ran not_started id store = store
ran unrecorded id store = (update_job_status none id in_progress store).0
ran succeeded id store =
    (update_job_status none id completed (update_job_status none id in_progress store).0).0
ran broken id store =
    (update_job_status none id failed (update_job_status none id in_progress store).0).0

update_other :
    (id other : Text) (new : JobStatus) (s : Store)
    → text_eq id other ≡ false
    → status_of other (update_job_status none id new s).0.jobs ≡ status_of other s.jobs
unfolding update_job_status
update_other id other new s h = elim (Bool-cases (has_job id s.jobs)) [
  | inl e ↦ rw e (status_of-other id other new s.jobs h)
  | inr e ↦ rw e refl
]

ran-other :
    (e : Ending) (id other : Text) (s : Store)
    → text_eq id other ≡ false
    → status_of other (ran e id s).jobs ≡ status_of other s.jobs
ran-other not_started id other s h = refl
ran-other unrecorded id other s h = update_other id other in_progress s h
ran-other succeeded id other s h =
    update_other id other completed (update_job_status none id in_progress s).0 h
    ∙ update_other id other in_progress s h
ran-other broken id other s h =
    update_other id other failed (update_job_status none id in_progress s).0 h
    ∙ update_other id other in_progress s h

update_own :
    (id : Text) (st new : JobStatus) (s : Store)
    → status_of id s.jobs ≡ some st
    → status_of id (update_job_status none id new s).0.jobs ≡ some new
update_own id st new s h = rw (update_rows id st new s h) (status_of-updated id st new s.jobs h)

ran-own :
    (e : Ending) (id : Text) (s : Store)
    → status_of id s.jobs ≡ some queued
    → status_of id (ran e id s).jobs ≡ some (final e)
ran-own not_started id s h = h
ran-own unrecorded id s h = update_own id queued in_progress s h
ran-own succeeded id s h =
    update_own id in_progress completed (update_job_status none id in_progress s).0
      (update_own id queued in_progress s h)
ran-own broken id s h =
    update_own id in_progress failed (update_job_status none id in_progress s).0
      (update_own id queued in_progress s h)

-- The consumer has taken the first job.
abbrev begun : Bool → Store → ℕ → Job → List Job → Site
begun started store capacity j q =
    begin_run started (some (j, record { capacity = capacity; jobs = q }))
      (idle store capacity (j ∷ q))

module _ (reason rfc3339 : ℕ → Text) (create_error : StoreError → Text) (inv : Inventory) where
  abbrev drained : Store → ℕ → List Job → List Ending → Site
  drained store capacity q es =
      run reason rfc3339 create_error inv (idle store capacity q) (rounds es)

  drained-next :
      (e : Ending) (store : Store) (capacity : ℕ) (j : Job) (q : List Job) (es : List Ending)
      → drained store capacity (j ∷ q) (e ∷ es) ≡ drained (ran e j.id store) capacity q es
  unfolding run step dequeue
  drained-next not_started store capacity j q es = refl
  drained-next unrecorded store capacity j q es = refl
  drained-next succeeded store capacity j q es = refl
  drained-next broken store capacity j q es = refl

  -- The row of a job that does not wait stays what it is.
  drained-other :
      (store : Store) (capacity : ℕ) (q : List Job) (es : List Ending) (id : Text)
      → length es ≡ length q
      → All (λ (k : Job). text_eq k.id id ≡ false) q
      → status_of id (drained store capacity q es).store.jobs ≡ status_of id store.jobs
  unfolding run
  drained-other store capacity [] [] id n a = refl
  drained-other store capacity [] (e ∷ es) id n a = absurd (omega (arith, n))
  drained-other store capacity (j ∷ q) [] id n a = absurd (omega (arith, n))
  drained-other store capacity (j ∷ q) (e ∷ es) id n a =
      ap (λ (t : Site). status_of id t.store.jobs) (drained-next e store capacity j q es)
      ∙ (drained-other (ran e j.id store) capacity q es id (omega (arith, n)) a.1
          ∙ ran-other e j.id id store a.0)

  begun-Durable :
      (started : Bool) (store : Store) (capacity : ℕ) (j : Job) (q : List Job)
      → Durable (idle store capacity (j ∷ q))
      → Durable (begun started store capacity j q)
  unfolding dequeue
  begun-Durable started store capacity j q d =
      begin_run-Durable started (idle store capacity (j ∷ q)) d

  next-Durable :
      (e : Ending) (store : Store) (capacity : ℕ) (j : Job) (q : List Job)
      → Durable (idle store capacity (j ∷ q))
      → Durable (idle (ran e j.id store) capacity q)
  next-Durable not_started store capacity j q d = begun-Durable false store capacity j q d
  next-Durable unrecorded store capacity j q d =
      let b = begun-Durable true store capacity j q d in
      end_run-Durable (some j.id) none (begun true store capacity j q) b.2 b
  next-Durable succeeded store capacity j q d =
      let b = begun-Durable true store capacity j q d in
      end_run-Durable (some j.id) (some true) (begun true store capacity j q) b.2 b
  next-Durable broken store capacity j q d =
      let b = begun-Durable true store capacity j q d in
      end_run-Durable (some j.id) (some false) (begun true store capacity j q) b.2 b

  drained-Drained :
      (store : Store) (capacity : ℕ) (q : List Job) (es : List Ending)
      → length es ≡ length q
      → Durable (idle store capacity q)
      → Drained q es (drained store capacity q es)
  unfolding run
  drained-Drained store capacity [] [] n d = (tt, refl, refl)
  drained-Drained store capacity [] (e ∷ es) n d = absurd (omega (arith, n))
  drained-Drained store capacity (j ∷ q) [] n d = absurd (omega (arith, n))
  drained-Drained store capacity (j ∷ q) (e ∷ es) n (u, (w, v, l), o) =
      let m : length es ≡ length q = omega (arith, n) in
      let rest =
        drained-Drained (ran e j.id store) capacity q es m
          (next-Durable e store capacity j q (u, (w, v, l), o)) in
      subst (Drained (j ∷ q) (e ∷ es)) (sym (drained-next e store capacity j q es)) (
        (
          drained-other (ran e j.id store) capacity q es j.id m (apart_of j.id q v.0)
              ∙ ran-own e j.id store w.0,
          rest.0,
        ),
        rest.1,
        rest.2,
      )

  -- After a start over a table without two rows of one id, the queue has the oldest queued rows in their order, as
  -- many as it holds. Whatever the endings of as many runs as it has jobs, the consumer then leaves it empty and
  -- runs no job, and the row of the first job has the status of the first ending, that of the second of the second,
  -- and so on: completed or failed where the run was recorded, in progress where this could not be written, and
  -- queued where it was not started.
  pub restart-Drained :
      (s : Site) (es : List Ending)
      → Unique s.store.jobs
      → length es ≡ length (restart s).queue.jobs
      → Oldest s.queue.capacity s.store.jobs (restart s).queue.jobs
        × Drained
            (restart s).queue.jobs
            es
            (run reason rfc3339 create_error inv (restart s) (rounds es))
  unfolding restart
  restart-Drained s es u n = (
    restart-Oldest s u,
    drained-Drained (restart s).store (restart s).queue.capacity (restart s).queue.jobs es n
        (restart-Durable s u),
  )
