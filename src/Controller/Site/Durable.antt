-- ===== src/Controller/Site/Durable.antt =====
-- The queue of the process against its jobs table.
use backup_orchestration_pla.Common.{
  ℕ, ltb, ◌≤◌, ◌≡◌, refl, sym, ap, ◌∙◌, Bool, true, false, Bool-cases, inl, inr, Option, none, some,
  List, [], ◌∷◌, ◌++◌, map, length, length-append, All, All_imp, arith,
}
use backup_orchestration_pla.Common.Text.{Text, text_eq, text_eq_iff}
use backup_orchestration_pla.Wire.{JobStatus, queued, in_progress, completed, failed}
use backup_orchestration_pla.Controller.Core.{Job, Event}
use backup_orchestration_pla.Controller.Metadata.{
  Store, Written, has_job, with_status, create_job, record_event, update_job_status,
}
use backup_orchestration_pla.Controller.Queue.{Memory, enqueue, received, dequeue}
use backup_orchestration_pla.Controller.Site.{Site, Creation, submitted, submit, begin_run, end_run}
use backup_orchestration_pla.Controller.Site.Rows.{
  status_of, Unique, has_job-status, status_of-append, status_of-new, append-Unique, map-Unique,
  with_status_id, status_of-updated, status_of-other, apart_of, text_eq_sym,
}

abbrev pub Waiting : List Job → List Job → Type 0
Waiting rows q = All (λ (j : Job). status_of j.id rows ≡ some queued) q

-- The queue's jobs are queued ones of the table, once each, and as many as the queue holds at most.
abbrev pub Backed : List Job → Memory → Type 0
Backed rows m = Waiting rows m.jobs × Unique m.jobs × (length m.jobs ≤ m.capacity)

abbrev pub Occupied : List Job → Option Text → Type 0
Occupied rows none = Unit
Occupied rows (some id) = status_of id rows ≡ some in_progress

abbrev pub Durable : Site → Type 0
Durable s = Unique s.store.jobs × Backed s.store.jobs s.queue × Occupied s.store.jobs s.running

Waiting-absent :
    (id : Text) (rows q : List Job)
    → has_job id rows ≡ false
    → Waiting rows q
    → has_job id q ≡ false
Waiting-absent id rows [] h w = refl
Waiting-absent id rows (j ∷ q) h w = elim (Bool-cases (text_eq id j.id)) [
  | inl e ↦ absurd (
      cc (
        h,
        ap (λ i. has_job i rows) ((text_eq_iff id j.id).0 e),
        has_job-status j.id queued rows w.0,
      ))
  | inr e ↦ rw e (Waiting-absent id rows q h w.1)
]

Waiting-append : (rows q : List Job) (k : Job) → Waiting rows q → Waiting (rows ++ k ∷ []) q
Waiting-append rows [] k w = tt
Waiting-append rows (j ∷ q) k w =
    (status_of-append j.id queued rows (k ∷ []) w.0, Waiting-append rows q k w.1)

Occupied-append :
    (rows : List Job) (o : Option Text) (k : Job) → Occupied rows o → Occupied (rows ++ k ∷ []) o
Occupied-append rows none k r = tt
Occupied-append rows (some id) k r = status_of-append id in_progress rows (k ∷ []) r

Waiting-one :
    (rows q : List Job) (k : Job)
    → status_of k.id rows ≡ some queued
    → Waiting rows q
    → Waiting rows (q ++ k ∷ [])
Waiting-one rows [] k h w = (h, tt)
Waiting-one rows (j ∷ q) k h w = (w.0, Waiting-one rows q k h w.1)

enqueue-Backed :
    (job : Job) (rows : List Job) (m : Memory)
    → status_of job.id rows ≡ some queued
    → has_job job.id m.jobs ≡ false
    → Backed rows m
    → Backed rows (enqueue job m).0
unfolding enqueue
enqueue-Backed job rows m h absent (w, u, l) = elim (Bool-cases (ltb (length m.jobs) m.capacity)) [
  | inl e ↦ rw e (
    Waiting-one rows m.jobs job h w,
    append-Unique m.jobs job absent u,
    ground (arith, length-append m.jobs (job ∷ []), e),
  )
  | inr e ↦ rw e (w, u, l)
]

pub create_job_done :
    (f : Option Text) (job : Job) (s t : Store)
    → create_job f job s ≡ (t, none)
    → (has_job job.id s.jobs ≡ false) × (t.jobs ≡ s.jobs ++ job ∷ [])
unfolding create_job
create_job_done (some e) job s t h = absurd (cc h)
create_job_done none job s t h = elim (Bool-cases (has_job job.id s.jobs)) [
  | inl e ↦ absurd (ground (arith, e, h))
  | inr e ↦ (e, sym (ap (λ (w : Written). w.0.jobs) (rw e at h)))
]

pub record_event_rows :
    (f : Option Text) (e : Event) (s : Store) → (record_event f e s).0.jobs ≡ s.jobs
unfolding record_event
record_event_rows none e s = refl
record_event_rows (some t) e s = refl

submitted-Durable :
    (c : Creation) (job : Job) (s : Site) (w : Written)
    → create_job c.create_fault job s.store ≡ w
    → job.status ≡ queued
    → Durable s
    → Durable (submitted c job s w).0
submitted-Durable c job s (t, some e) h new d = d
submitted-Durable c job s (t, none) h new (u, b, r) =
    let (absent, grown) = create_job_done c.create_fault job s.store t h in
    let own : status_of job.id (s.store.jobs ++ job ∷ []) ≡ some queued =
      status_of-new job s.store.jobs absent ∙ ap some new in
    rw (record_event_rows c.event_fault, grown)
      (
        append-Unique s.store.jobs job absent u,
        enqueue-Backed job (s.store.jobs ++ job ∷ []) s.queue own
            (Waiting-absent job.id s.store.jobs s.queue.jobs absent b.0)
            (Waiting-append s.store.jobs s.queue.jobs job b.0, b.1, b.2),
        Occupied-append s.store.jobs s.running job r,
      )

pub submit-Durable :
    (c : Creation) (job : Job) (s : Site)
    → job.status ≡ queued
    → Durable s
    → Durable (submit c job s).0
unfolding submit
submit-Durable c job s new d =
    submitted-Durable c job s (create_job c.create_fault job s.store) refl new d

-- The change of one row, seen by the others.
Waiting-others :
    (id : Text) (new : JobStatus) (rows q : List Job)
    → All (λ (j : Job). text_eq id j.id ≡ false) q
    → Waiting rows q
    → Waiting (map (with_status id new) rows) q
Waiting-others id new rows [] a w = tt
Waiting-others id new rows (j ∷ q) a w =
    (status_of-other id j.id new rows a.0 ∙ w.0, Waiting-others id new rows q a.1 w.1)

pub update_rows :
    (id : Text) (st new : JobStatus) (s : Store)
    → status_of id s.jobs ≡ some st
    → (update_job_status none id new s).0.jobs ≡ map (with_status id new) s.jobs
unfolding update_job_status
update_rows id st new s h = rw (has_job-status id st s.jobs h) refl

-- What the consumer receives, and what is left.
abbrev Handed : List Job → Option (Job × Memory) → Type 0
Handed rows none = Unit
Handed rows (some (j, rest)) =
    (status_of j.id rows ≡ some queued) × (has_job j.id rest.jobs ≡ false) × Backed rows rest

received-Handed :
    (rows : List Job) (capacity : ℕ) (q : List Job)
    → Waiting rows q
    → Unique q
    → length q ≤ capacity
    → Handed rows (received capacity q)
received-Handed rows capacity [] w u l = tt
received-Handed rows capacity (j ∷ q) w u l = (w.0, u.0, (w.1, u.1, omega (arith, l)))

begin_run-Handed :
    (started : Bool) (taken : Option (Job × Memory)) (s : Site)
    → Handed s.store.jobs taken
    → Durable s
    → Durable (begin_run started taken s)
begin_run-Handed started none s h d = d
begin_run-Handed false (some (j, rest)) s (w, absent, b) (u, c, o) = (u, b, o)
begin_run-Handed true (some (j, rest)) s (h, absent, (w, v, l)) (u, c, o) =
    rw (update_rows j.id queued in_progress s.store h) (
      map-Unique (with_status j.id in_progress) (with_status_id j.id in_progress) s.store.jobs u,
      (
        Waiting-others j.id in_progress s.store.jobs rest.jobs
            (All_imp (λ (k : Job). text_eq k.id j.id ≡ false) rest.jobs
              (λ k e. text_eq_sym j.id k.id ∙ e) (apart_of j.id rest.jobs absent))
            w,
        v,
        l,
      ),
      status_of-updated j.id queued in_progress s.store.jobs h,
    )

-- The consumer takes the first job of the queue.
pub begin_run-Durable :
    (started : Bool) (s : Site) → Durable s → Durable (begin_run started (dequeue s.queue) s)
unfolding dequeue
begin_run-Durable started s (u, (w, v, l), o) =
    begin_run-Handed started (received s.queue.capacity s.queue.jobs) s
      (received-Handed s.store.jobs s.queue.capacity s.queue.jobs w v l) (u, (w, v, l), o)

-- A job in progress is none of those that wait.
Waiting-apart :
    (id : Text) (rows q : List Job)
    → status_of id rows ≡ some in_progress
    → Waiting rows q
    → All (λ (j : Job). text_eq id j.id ≡ false) q
Waiting-apart id rows [] h w = tt
Waiting-apart id rows (j ∷ q) h w = elim (Bool-cases (text_eq id j.id)) [
  | inl e ↦ absurd (cc (h, w.0, (text_eq_iff id j.id).0 e))
  | inr e ↦ (e, Waiting-apart id rows q h w.1)
]

recorded-Durable :
    (id : Text) (new : JobStatus) (s : Site)
    → status_of id s.store.jobs ≡ some in_progress
    → Durable s
    → Durable (record s { store = (update_job_status none id new s.store).0; running = none })
recorded-Durable id new s r (u, (w, v, l), o) = rw (update_rows id in_progress new s.store r) (
  map-Unique (with_status id new) (with_status_id id new) s.store.jobs u,
  (
    Waiting-others id new s.store.jobs s.queue.jobs (Waiting-apart id s.store.jobs s.queue.jobs r w)
        w,
    v,
    l,
  ),
  tt,
)

pub end_run-Durable :
    (o : Option Text) (recorded : Option Bool) (s : Site)
    → Occupied s.store.jobs o
    → Durable s
    → Durable (end_run o recorded s)
end_run-Durable none recorded s r d = d
end_run-Durable (some id) none s r (u, b, o) = (u, b, tt)
end_run-Durable (some id) (some true) s r d = recorded-Durable id completed s r d
end_run-Durable (some id) (some false) s r d = recorded-Durable id failed s r d
