-- ===== src/UseApi/Tests.antt =====
-- The hook at concrete inputs: dependencies and results are numbers.
use backup_orchestration_pla.Common.{
  ℕ, ◌≡◌, refl, sym, ap, some_inj, true, false, none, some, is_some, [], ◌∷◌, filter,
}
use backup_orchestration_pla.Common.Text.{codes}
use backup_orchestration_pla.Failure.{resolved, rejected, other_error}
use backup_orchestration_pla.UseApi.{
  ApiState, answered, deps_changed, tick, step, run, mount, Request,
}
use backup_orchestration_pla.UseApi.Stale.{view, current, answers, is_current, answers_any_order}
use backup_orchestration_pla.UseApi.Current.{settled_value_is_current}
use backup_orchestration_pla.UseApi.Stuck.{tick_during_load_sticks}
use backup_orchestration_pla.UseApi.Ends.{loading_ends_without_interval}

hook : Unit {0}
unfolding run step mount
hook = tt

-- A job page that polls, and a host list that does not.
abbrev job_page : ApiState ℕ ℕ
job_page = mount 7 (some 5000) false

abbrev host_page : ApiState ℕ ℕ
host_page = mount 7 none false

-- The page moves on to other dependencies while request 1 is in flight.
abbrev moved_on : ApiState ℕ ℕ
moved_on = step host_page (deps_changed 8 none)

late_answers :
    view (run moved_on (answered 2 (resolved 20) ∷ answered 1 (resolved 10) ∷ []))
    ≡ record { value = some 20; error = none; loading = false }
unfolding hook view
late_answers = refl

failed_load : view (step host_page (answered 1 (rejected other_error))) ≡ record {
  value = none;
  error = some (codes "Could not reach the controller.");
  loading = false;
}
unfolding hook view
failed_load = refl

answers_any_order_example :
    view (run moved_on (answers ((1, resolved 10) ∷ (2, resolved 20) ∷ [])))
    ≡ view
        (run moved_on (answers (filter (is_current 2) ((1, resolved 10) ∷ (2, resolved 20) ∷ []))))
unfolding hook
answers_any_order_example = answers_any_order moved_on ((1, resolved 10) ∷ (2, resolved 20) ∷ [])

abbrev hidden_page : ApiState ℕ ℕ
hidden_page = mount 7 (some 5000) true

-- A page with its result on show, and a background request in flight.
abbrev watched : ApiState ℕ ℕ
watched = run job_page (answered 1 (resolved 10) ∷ tick ∷ [])

-- The timer ticks before the first answer: both requests are answered, and the spinner stays.
tick_during_load_sticks_example :
    (run (step job_page tick) (answered 1 (resolved 10) ∷ answered 2 (resolved 20) ∷ [])).loading
    ≡ true
unfolding hook
tick_during_load_sticks_example =
    tick_during_load_sticks job_page (answered 1 (resolved 10) ∷ answered 2 (resolved 20) ∷ []) refl
      refl (tt, (tt, tt))

loading_ends_without_interval_example :
    let s = run host_page (deps_changed 8 none ∷ []) in
    (s.loading ≡ is_some (current s))
    × ((step s (answered s.request_id (resolved 20))).loading ≡ false)
loading_ends_without_interval_example =
    loading_ends_without_interval 7 none false (deps_changed 8 none ∷ []) (resolved 20) refl
      (refl, tt)

-- Each answer is the dependency that its request was made under.
settled_value_is_current_example :
    (run host_page (deps_changed 8 none ∷ answered 2 (resolved 8) ∷ [])).deps ≡ 8
unfolding hook
settled_value_is_current_example = sym (
    settled_value_is_current (λ d a. a ≡ d) 7 none false
      (deps_changed 8 none ∷ answered 2 (resolved 8) ∷ []) 8
      (tt, ((λ r found. ap (λ (x : Request ℕ). x.deps) (some_inj found)), tt)) refl refl refl)
