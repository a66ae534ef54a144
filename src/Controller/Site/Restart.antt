-- ===== src/Controller/Site/Restart.antt =====
-- What a new start makes of the table and of the queue: `FailOrphanedJobs` and `reconcileQueuedJobs`.
use mathlib.Core.List.{append-nil, append_assoc}
use backup_orchestration_pla.Common.{
  ℕ, zero, suc, ◌+◌, ltb, leb, ◌≡◌, refl, ap, ◌∙◌, Bool, true, false, Bool-cases, inl, inr, Option,
  none, some, List, [], ◌∷◌, ◌++◌, map, filter, take, All-take, length-take_le, length,
  length-append, All, arith,
}
use backup_orchestration_pla.Common.Text.{Text, text_eq}
use backup_orchestration_pla.Wire.{JobStatus, queued, in_progress, failed}
use backup_orchestration_pla.Pages.{insert, sort}
use backup_orchestration_pla.Pages.Jobs.{same_status}
use backup_orchestration_pla.Controller.Core.{Job}
use backup_orchestration_pla.Controller.Metadata.{
  Store, orphan_failed, fail_orphaned_jobs, list_jobs_by_status,
}
use backup_orchestration_pla.Controller.Queue.{Memory, new_memory, enqueue}
use backup_orchestration_pla.Controller.Site.{Site, enqueue_all, restart}
use backup_orchestration_pla.Controller.Site.Rows.{
  status_of, Unique, own_status, map-Unique, orphan_failed_id, filter-Unique, sort-Unique,
  take-Unique,
}
use backup_orchestration_pla.Controller.Site.Durable.{Durable, Waiting}
use backup_orchestration_pla.Controller.Site.Oldest.{Oldest, listed-Oldest}

-- The queue takes the jobs in their order while it has room for `n` more.
enqueue_all-take :
    (n : ℕ) (js : List Job) (m : Memory)
    → length m.jobs + n ≡ m.capacity
    → enqueue_all js m ≡ record { capacity = m.capacity; jobs = m.jobs ++ take n js }
unfolding enqueue_all enqueue
enqueue_all-take zero [] m h = rw (append-nil m.jobs) refl
enqueue_all-take (suc n) [] m h = rw (append-nil m.jobs) refl
enqueue_all-take zero (j ∷ js) m h =
    let full : ltb (length m.jobs) m.capacity ≡ false = ground (arith, h) in
    rw full (enqueue_all-take zero js m h)
enqueue_all-take (suc n) (j ∷ js) m h =
    let room : ltb (length m.jobs) m.capacity ≡ true = ground (arith, h) in
    rw room (
      enqueue_all-take n js (record m { jobs = m.jobs ++ j ∷ [] })
        (omega (arith, h, length-append m.jobs (j ∷ [])))
      ∙ ap (λ q. record { capacity = m.capacity; jobs = q })
          (append_assoc m.jobs (j ∷ []) (take n js)))

queued_of_orphans :
    (js : List Job)
    → filter (λ (j : Job). same_status j.status queued) (map orphan_failed js)
      ≡ filter (λ (j : Job). same_status j.status queued) js
queued_of_orphans [] = refl
queued_of_orphans (j ∷ js) = elim (Bool-cases (same_status j.status in_progress)) [
  | inl e ↦ rw (e, queued_of_orphans js) (ground (arith, e))
  | inr e ↦ rw (e, queued_of_orphans js) refl
]

-- What `reconcileQueuedJobs` makes of an empty queue.
enqueue_all-new :
    (capacity : ℕ) (js : List Job)
    → enqueue_all js (new_memory capacity) ≡ record { capacity = capacity; jobs = take capacity js }
enqueue_all-new capacity js = enqueue_all-take capacity js (new_memory capacity) (omega arith)

module _ (P : Job → Type 0) (lte : Job → Job → Bool) where
  insert-All : (j : Job) (js : List Job) → P j → All P js → All P (insert lte j js)
  unfolding insert
  insert-All j [] p a = (p, tt)
  insert-All j (k ∷ js) p a = elim (Bool-cases (lte j k)) [
    | inl e ↦ rw e (p, a)
    | inr e ↦ rw e (a.0, insert-All j js p a.1)
  ]

  sort-All : (js : List Job) → All P js → All P (sort lte js)
  unfolding sort
  sort-All [] a = tt
  sort-All (j ∷ js) a = insert-All j (sort lte js) a.0 (sort-All js a.1)

chosen-Waiting :
    (rows js : List Job)
    → All (λ (j : Job). status_of j.id rows ≡ some j.status) js
    → Waiting rows (filter (λ (j : Job). same_status j.status queued) js)
chosen-Waiting rows [] a = tt
chosen-Waiting rows (j ∷ js) a = elim (Bool-cases (same_status j.status queued)) [
  | inl e ↦ rw e (a.0 ∙ ap some (ground (arith, e)), chosen-Waiting rows js a.1)
  | inr e ↦ rw e (chosen-Waiting rows js a.1)
]

reconciled-Durable :
    (capacity : ℕ) (s : Store)
    → Unique s.jobs
    → Durable (record {
      store = s;
      queue = enqueue_all (list_jobs_by_status queued s) (new_memory capacity);
      running = none;
    })
unfolding list_jobs_by_status
reconciled-Durable capacity s u =
    let rows : List Job = filter (λ (j : Job). same_status j.status queued) s.jobs in
    let listed : List Job = list_jobs_by_status queued s in
    rw (enqueue_all-new capacity listed) (
      u,
      (
        All-take (λ (j : Job). status_of j.id s.jobs ≡ some queued) capacity listed
            (sort-All (λ (j : Job). status_of j.id s.jobs ≡ some queued)
              (λ (a b : Job). leb a.queued_at b.queued_at) rows
              (chosen-Waiting s.jobs s.jobs (own_status s.jobs u))),
        take-Unique capacity listed (
            sort-Unique (λ (a b : Job). leb a.queued_at b.queued_at) rows
              (filter-Unique (λ (j : Job). same_status j.status queued) s.jobs u)),
        length-take_le capacity listed,
      ),
      tt,
    )

pub restart-Durable : (s : Site) → Unique s.store.jobs → Durable (restart s)
unfolding restart fail_orphaned_jobs
restart-Durable s u =
    reconciled-Durable s.queue.capacity (record s.store { jobs = map orphan_failed s.store.jobs })
      (map-Unique orphan_failed orphan_failed_id s.store.jobs u)

pub restart_queue :
    (s : Site) → (restart s).queue.jobs ≡ take s.queue.capacity (list_jobs_by_status queued s.store)
unfolding restart fail_orphaned_jobs list_jobs_by_status
restart_queue s = rw (queued_of_orphans s.store.jobs) (
    ap (λ (m : Memory). m.jobs)
      (enqueue_all-new s.queue.capacity (list_jobs_by_status queued s.store)))

-- The status that a new start gives to a row of a status.
abbrev pub after_start : Option JobStatus → Option JobStatus
after_start (some in_progress) = some failed
after_start before = before

orphan_status : (j : Job) → some (orphan_failed j).status ≡ after_start (some j.status)
orphan_status j = ground arith

status_of-start :
    (id : Text) (js : List Job)
    → status_of id (map orphan_failed js) ≡ after_start (status_of id js)
status_of-start id [] = refl
status_of-start id (j ∷ js) = elim (Bool-cases (text_eq id j.id)) [
  | inl e ↦ rw (orphan_failed_id j, e) (orphan_status j)
  | inr e ↦ rw (orphan_failed_id j, e) (status_of-start id js)
]

pub restart-Oldest :
    (s : Site) → Unique s.store.jobs → Oldest s.queue.capacity s.store.jobs (restart s).queue.jobs
restart-Oldest s u = rw (restart_queue s) (listed-Oldest s.queue.capacity s.store u)

restart_capacity : (s : Site) → (restart s).queue.capacity ≡ s.queue.capacity
unfolding restart
restart_capacity s =
    ap (λ (m : Memory). m.capacity)
      (enqueue_all-new s.queue.capacity
        (list_jobs_by_status queued (fail_orphaned_jobs none s.store).0))

restart_status :
    (id : Text) (s : Site)
    → status_of id (restart s).store.jobs ≡ after_start (status_of id s.store.jobs)
unfolding restart fail_orphaned_jobs
restart_status id s = status_of-start id s.store.jobs

pub restart_idle : (s : Site) → (restart s).running ≡ none
unfolding restart
restart_idle s = refl

-- What a new start leaves: the queue, the rows by their ids, and no job that runs.
abbrev pub Recovered : Site → Site → Type 0
Recovered s t =
    Oldest s.queue.capacity s.store.jobs t.queue.jobs
    × (t.queue.capacity ≡ s.queue.capacity)
    × Waiting t.store.jobs t.queue.jobs
    × ((id : Text) → status_of id t.store.jobs ≡ after_start (status_of id s.store.jobs))
    × (t.running ≡ none)

-- After a start over a table without two rows of one id the queue has queued rows of the table, once each, in the
-- order of their times, as many as there are up to its capacity; a queued row that it leaves out is no older than
-- any that it has. They are still queued; of the other rows those in progress are failed and no other changes its
-- status; and no job runs.
pub restart-Recovered : (s : Site) → Unique s.store.jobs → Recovered s (restart s)
restart-Recovered s u = (
  restart-Oldest s u,
  restart_capacity s,
  (restart-Durable s u).1.0,
  (λ id. restart_status id s),
  restart_idle s,
)
