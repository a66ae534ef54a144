-- ===== src/UseApi.antt =====
-- web/src/hooks/useApi.ts: one mounted use of the hook, with the requests that it has in flight.
-- A call of the fetcher puts a request in flight; the environment answers the requests in any order.
pub mod Invariant
pub mod Stale
pub mod Fresh
pub mod Polling
pub mod Stuck
pub mod Ends
pub mod Current
pub mod Once
pub mod Frames
mod Tests
use backup_orchestration_pla.Common.{
  ℕ, zero, suc, ◌==◌, Bool, true, false, not, ◌&&◌, Option, none, some, List, [], ◌∷◌, find, filter,
  if◌then◌else◌,
}
use backup_orchestration_pla.Common.Text.{Text}
use backup_orchestration_pla.Failure.{Outcome, resolved, rejected, failure_message}

-- A request of `load` is in the foreground, one of `refresh` in the background.
pub data Kind : Type 0 where
  foreground background : Kind

-- `deps` are the dependencies that the fetcher was called under.
pub record Request (D : Type 0) : Type 0 where
  pub id : ℕ
  pub kind : Kind
  pub deps : D

pub record ApiState (D A : Type 0) : Type 0 where
  pub value : Option A
  pub error : Option Text
  pub loading : Bool
  pub request_id : ℕ
  pub deps : D
  pub interval : Option ℕ
  pub timer : Bool
  pub hidden : Bool
  pub pending : List (Request D)

-- `if (!intervalMs) return`: no polling for `undefined` and for 0.
abbrev pub polls : Option ℕ → Bool
polls none = false
polls (some zero) = false
polls (some (suc n)) = true

abbrev pub has_id : {D : Type 0} → ℕ → Request D → Bool
has_id id r = r.id == id

module _ {D A : Type 0} where
  -- Both callbacks begin with `const id = ++requestId.current` and end in a call of the fetcher.
  abbrev pub send : Kind → ApiState D A → ApiState D A
  send kind s = record s {
    request_id = suc s.request_id;
    pending = record { id = suc s.request_id; kind = kind; deps = s.deps } ∷ s.pending;
  }

  pub load : ApiState D A → ApiState D A
  load s = send foreground (record s { loading = true; error = none })

  pub refresh : ApiState D A → ApiState D A
  refresh s = send background s

  -- `start` and `stop` of the polling effect.
  abbrev pub start : ApiState D A → ApiState D A
  start s = record s { timer = true }

  abbrev pub stop : ApiState D A → ApiState D A
  stop s = record s { timer = false }

  -- The polling effect runs again: its clean-up, and its body under the interval `ms`.
  pub poll_effect : Option ℕ → ApiState D A → ApiState D A
  poll_effect ms s =
      if polls ms && not s.hidden
      then start (record s { interval = ms })
      else stop (record s { interval = ms })

  -- `onVisibility` after the browser has set `document.hidden`; the listener is there while polling.
  pub on_visibility : Bool → ApiState D A → ApiState D A
  unfolding refresh
  on_visibility hidden s =
      if polls s.interval
      then (if hidden
          then stop (record s { hidden = true })
          else start (refresh (record s { hidden = false })))
      else record s { hidden = hidden }

  -- The `then` and `catch` of `load`.
  pub settle_load : Outcome A → ApiState D A → ApiState D A
  settle_load (resolved result) s = record s { value = some result; loading = false }
  settle_load (rejected err) s = record s { error = some (failure_message err); loading = false }

  -- The `then` and `catch` of `refresh`.
  pub settle_refresh : Outcome A → ApiState D A → ApiState D A
  settle_refresh (resolved result) s = record s { value = some result }
  settle_refresh (rejected err) s = s

  abbrev pub settle : Kind → Outcome A → ApiState D A → ApiState D A
  settle foreground = settle_load
  settle background = settle_refresh

  abbrev pub forget : ℕ → ApiState D A → ApiState D A
  forget id s = record s { pending = filter (λ r. not (has_id id r)) s.pending }

  abbrev pub receive : Option (Request D) → Outcome A → ApiState D A → ApiState D A
  receive none outcome s = s
  receive (some r) outcome s =
      if r.id == s.request_id then settle r.kind outcome (forget r.id s) else forget r.id s

  -- The request `id` is answered: `if (id !== requestId.current) return`, or it settles.
  pub answer : ℕ → Outcome A → ApiState D A → ApiState D A
  unfolding settle_load settle_refresh
  answer id outcome s = receive (find (has_id id) s.pending) outcome s

pub data Event (D A : Type 0) : Type 0 where
  deps_changed : D → Option ℕ → Event D A
  interval_changed : Option ℕ → Event D A
  reload tick : Event D A
  visibility : Bool → Event D A
  answered : ℕ → Outcome A → Event D A

module _ {D A : Type 0} where
  unfoldable pub step : ApiState D A → Event D A → ApiState D A
  unfolding load refresh poll_effect on_visibility answer
  step s (deps_changed d ms) = poll_effect ms (load (record s { deps = d }))
  step s (interval_changed ms) = poll_effect ms s
  step s reload = load s
  step s tick = if s.timer then refresh s else s
  step s (visibility hidden) = on_visibility hidden s
  step s (answered id outcome) = answer id outcome s

  unfoldable pub run : ApiState D A → List (Event D A) → ApiState D A
  run s [] = s
  run s (e ∷ es) = run (step s e) es

  -- The first render: the initial values of `useState` and `useRef`.
  abbrev pub initial : D → Option ℕ → Bool → ApiState D A
  initial d ms hidden = record {
    value = none;
    error = none;
    loading = true;
    request_id = 0;
    deps = d;
    interval = ms;
    timer = false;
    hidden = hidden;
    pending = [];
  }

  -- The first render and its effects.
  unfoldable pub mount : D → Option ℕ → Bool → ApiState D A
  unfolding load poll_effect
  mount d ms hidden = poll_effect ms (load (initial d ms hidden))
