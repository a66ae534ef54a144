-- ===== src/UseApi/Frames.antt =====
-- What an event leaves alone: the interval, the dependencies and the visibility change by their own events only.
use backup_orchestration_pla.Common.{ℕ, suc, ◌≡◌, refl, Bool, Option, none, some, arith}
use backup_orchestration_pla.UseApi.Stale.{current}
use backup_orchestration_pla.Failure.{Outcome, resolved, rejected}
use backup_orchestration_pla.UseApi.{
  Request, foreground, ApiState, Event, answered, deps_changed, interval_changed, reload, tick,
  visibility, load, refresh, poll_effect, on_visibility, settle_load, settle_refresh, answer, step,
  mount,
}

module _ {D A : Type 0} where
  -- Events that change neither the dependencies nor the interval.
  abbrev pub KeepsInputs : Event D A → Type 0
  KeepsInputs (deps_changed d ms) = ⊥
  KeepsInputs (interval_changed ms) = ⊥
  KeepsInputs _ = Unit

  answer-inputs :
      (id : ℕ) (outcome : Outcome A) (s : ApiState D A)
      → ((answer id outcome s).interval ≡ s.interval)
        × ((answer id outcome s).deps ≡ s.deps)
        × ((answer id outcome s).hidden ≡ s.hidden)
  unfolding answer settle_load settle_refresh
  answer-inputs id (resolved a) s = ground arith
  answer-inputs id (rejected err) s = ground arith

  pub step-inputs :
      (s : ApiState D A) (e : Event D A)
      → KeepsInputs e
      → ((step s e).interval ≡ s.interval) × ((step s e).deps ≡ s.deps)
  unfolding step load refresh on_visibility
  step-inputs s (answered id outcome) k = let f = answer-inputs id outcome s in (f.0, f.1)
  step-inputs s (deps_changed d ms) k = absurd k
  step-inputs s (interval_changed ms) k = absurd k
  step-inputs s reload k = (refl, refl)
  step-inputs s tick k = ground arith
  step-inputs s (visibility hidden) k = ground arith

  pub interval-changed :
      (s : ApiState D A) (ms : Option ℕ) → (step s (interval_changed ms)).interval ≡ ms
  unfolding step poll_effect
  interval-changed s ms = ground arith

  pub deps-changed :
      (s : ApiState D A) (d : D) (ms : Option ℕ)
      → ((step s (deps_changed d ms)).deps ≡ d) × ((step s (deps_changed d ms)).interval ≡ ms)
  unfolding step poll_effect load
  deps-changed s d ms = ground arith

  pub mount-inputs :
      (d : D) (ms : Option ℕ) (hidden : Bool)
      → ((mount {A = A} d ms hidden).interval ≡ ms)
        × ((mount {A = A} d ms hidden).deps ≡ d)
        × ((mount {A = A} d ms hidden).value ≡ none)
  unfolding mount poll_effect load
  mount-inputs d ms hidden = ground arith

  -- A change of the dependencies sends a load, and leaves the value on show.
  pub deps_load :
      (s : ApiState D A) (d : D) (ms : Option ℕ)
      → let t = step s (deps_changed d ms) in
        ((r : Request D) × (current t ≡ some r) × (r.kind ≡ foreground)) × (t.value ≡ s.value)
  unfolding step poll_effect load
  deps_load s d ms = (
    (record { id = suc s.request_id; kind = foreground; deps = d }, ground arith, refl),
    ground arith,
  )
