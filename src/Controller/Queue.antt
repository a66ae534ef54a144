-- ===== src/Controller/Queue.antt =====
-- internal/queue/memory.go: the bounded queue, a buffered channel of jobs.
use backup_orchestration_pla.Common.{
  ℕ, ltb, Bool, true, false, Option, none, some, List, [], ◌∷◌, ◌++◌, length, if◌then◌else◌,
}
use backup_orchestration_pla.Controller.Core.{Job}

pub record Memory : Type 0 where
  pub capacity : ℕ
  pub jobs : List Job

abbrev pub new_memory : ℕ → Memory
new_memory capacity = record { capacity = capacity; jobs = [] }

-- The queue, and whether it has taken the job; if not, the error is `ErrQueueFull`.
unfoldable pub enqueue : Job → Memory → Memory × Bool
enqueue job m =
    if ltb (length m.jobs) m.capacity
    then (record m { jobs = m.jobs ++ job ∷ [] }, true)
    else (m, false)

-- `none` while there is no job: the receiver waits.
abbrev pub received : ℕ → List Job → Option (Job × Memory)
received capacity [] = none
received capacity (j ∷ js) = some (j, record { capacity = capacity; jobs = js })

unfoldable pub dequeue : Memory → Option (Job × Memory)
dequeue m = received m.capacity m.jobs
