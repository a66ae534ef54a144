-- ===== src/UseApi/Polling.antt =====
-- Background refreshes are silent, and run only while the tab is shown.
use backup_orchestration_pla.Common.{
  ◌⊎◌, Option-cases, ℕ, suc, ◌≡◌, ◌≢◌, refl, Bool, true, false, not, ◌&&◌, Option, none, some, List,
  [], ◌∷◌, arith, All, ap, sym, subst, ◌∙◌, ◌==◌, ==_iff, Bool-cases, inl, inr,
}
use backup_orchestration_pla.Failure.{Outcome, resolved, rejected}
use backup_orchestration_pla.UseApi.{
  Request, background, ApiState, Event, answered, deps_changed, interval_changed, reload, tick,
  visibility, polls, answer, step, run, mount,
}
use backup_orchestration_pla.UseApi.Invariant.{Inv, step-Inv, run-Inv, mount-Inv}
use backup_orchestration_pla.UseApi.Stale.{
  View, view, current, shows, after, answer-Settled, stale-Same, request_id-answer,
}

module _ {D A : Type 0} where
  -- After any events the timer runs exactly while the hook has an interval and the tab is shown.
  pub timer_iff :
      (d : D) (ms : Option ℕ) (hidden : Bool) (es : List (Event D A))
      → let s = run (mount d ms hidden) es in s.timer ≡ (polls s.interval && not s.hidden)
  timer_iff d ms hidden es = (run-Inv _ es (mount-Inv d ms hidden)).polling

  -- What goes on by itself while nobody touches the page: the timer and the network.
  abbrev pub IsIdle : Event D A → Type 0
  IsIdle tick = Unit
  IsIdle (answered id outcome) = Unit
  IsIdle _ = ⊥

  -- An answer touches neither the timer nor the interval nor the tab.
  pub poll-answer :
      (id : ℕ) (outcome : Outcome A) (s : ApiState D A)
      → ((answer id outcome s).hidden ≡ s.hidden)
        × ((answer id outcome s).interval ≡ s.interval)
        × ((answer id outcome s).timer ≡ s.timer)
  unfolding answer
  poll-answer id outcome s = ground arith

  idle_step :
      (s : ApiState D A) (e : Event D A)
      → IsIdle e
      → s.hidden ≡ true
      → Inv s
      → ((step s e).hidden ≡ true) × ((step s e).request_id ≡ s.request_id)
  unfolding step
  idle_step s tick i h inv = ground arith
  idle_step s (answered id outcome) i h inv =
      ((poll-answer id outcome s).0 ∙ h, request_id-answer id outcome s)
  idle_step s (deps_changed d ms) i h inv = absurd i
  idle_step s (interval_changed ms) i h inv = absurd i
  idle_step s reload i h inv = absurd i
  idle_step s (visibility hidden) i h inv = absurd i

  -- In a state of the invariant whose tab is hidden, no request is sent by any sequence of ticks and answers.
  pub hidden_sends_nothing :
      (s : ApiState D A) (es : List (Event D A))
      → Inv s
      → s.hidden ≡ true
      → All IsIdle es
      → (run s es).request_id ≡ s.request_id
  unfolding run
  hidden_sends_nothing s [] inv h idle = refl
  hidden_sends_nothing s (e ∷ es) inv h idle =
      let next = idle_step s e idle.0 h inv in
      hidden_sends_nothing (step s e) es (step-Inv s e inv) next.0 idle.1 ∙ next.1

  -- With an interval, a `visibilitychange` to a shown tab sends a background refresh at once and starts the
  -- timer, and leaves what the component shows as it is.
  pub shown_again :
      (s : ApiState D A)
      → polls s.interval ≡ true
      → let t = step s (visibility false) in
        (t.request_id ≡ suc s.request_id)
        × (t.timer ≡ true)
        × (t.hidden ≡ false)
        × ((r : Request D) × (current t ≡ some r) × (r.kind ≡ background))
        × (view t ≡ view s)
  unfolding step view
  shown_again s h = rw h (
    refl,
    refl,
    refl,
    (record { id = suc s.request_id; kind = background; deps = s.deps }, ground arith, refl),
    refl,
  )

  -- Events of the background: ticks, visibility changes, and answers to background requests.
  abbrev pub IsQuiet : ApiState D A → Event D A → Type 0
  IsQuiet s tick = Unit
  IsQuiet s (visibility hidden) = Unit
  IsQuiet s (answered id outcome) = (r : Request D) → current s ≡ some r → r.kind ≡ background
  IsQuiet s _ = ⊥

  abbrev pub Silent : ApiState D A → ApiState D A → Type 0
  Silent s t = (t.loading ≡ s.loading) × (t.error ≡ s.error) × (s.value ≢ none → t.value ≢ none)

  view-Silent : (s t : ApiState D A) → view t ≡ view s → Silent s t
  unfolding view
  view-Silent s t e = (
    ap (λ (v : View A). v.loading) e,
    ap (λ (v : View A). v.error) e,
    λ h k. h (sym (ap (λ (v : View A). v.value) e) ∙ k),
  )

  after-Silent :
      (s t : ApiState D A) (outcome : Outcome A) (o : Option (Request D))
      → ((r : Request D) → o ≡ some r → r.kind ≡ background)
      → view t ≡ after o outcome (view s)
      → Silent s t
  unfolding view
  after-Silent s t outcome none h e = view-Silent s t e
  after-Silent s t outcome (some r) h e =
      background_view outcome (e ∙ ap (λ k. shows k outcome (view s)) (h r refl))
    where
      background_view :
          (outcome : Outcome A) → view t ≡ shows background outcome (view s) → Silent s t
      background_view (resolved a) e = (
        ap (λ (v : View A). v.loading) e,
        ap (λ (v : View A). v.error) e,
        λ h k. cc (k, ap (λ (v : View A). v.value) e),
      )
      background_view (rejected err) e = view-Silent s t e

  pub answer-Silent :
      (s : ApiState D A) (id : ℕ) (outcome : Outcome A)
      → ((r : Request D) → current s ≡ some r → r.kind ≡ background)
      → Silent s (answer id outcome s)
  answer-Silent s id outcome h = elim (Bool-cases (id == s.request_id)) [
    | inl cur ↦
        subst (λ i. Silent s (answer i outcome s)) (sym ((==_iff _ _).0 cur))
          (after-Silent s _ outcome (current s) h (answer-Settled s outcome).shown)
    | inr old ↦
        view-Silent s _
          (stale-Same s id outcome (λ same. cc (old, (==_iff id s.request_id).1 same))).shown
  ]

  step-Silent : (s : ApiState D A) (e : Event D A) → IsQuiet s e → Silent s (step s e)
  unfolding step
  step-Silent s tick q = ground arith
  step-Silent s (visibility hidden) q = ground arith
  step-Silent s (answered id outcome) q = answer-Silent s id outcome q
  step-Silent s (deps_changed d ms) q = absurd q
  step-Silent s (interval_changed ms) q = absurd q
  step-Silent s reload q = absurd q

  -- A tick, a change of visibility, and an answer while the last request is no load in flight, never flip
  -- `loading`, never set or clear an error, and never drop a value.
  pub background_is_silent :
      (s : ApiState D A) (e : Event D A)
      → IsQuiet s e
      → ((step s e).loading ≡ s.loading)
        × ((step s e).error ≡ s.error)
        × ((s.value ≡ none) ⊎ ((step s e).value ≢ none))
  background_is_silent s e q =
      let h = step-Silent s e q in
      (
        h.0,
        h.1,
        elim (Option-cases s.value) [ inl v ↦ inl v | inr (a, v) ↦ inr (h.2 (λ n. cc (n, v))) ],
      )
