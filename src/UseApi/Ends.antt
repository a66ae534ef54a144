-- ===== src/UseApi/Ends.antt =====
-- When `loading` ends, and what it leaves: for a hook without an interval, and for a load whose answer
-- is not superseded.
use mathlib.Core.Path.{ap₂}
use backup_orchestration_pla.Common.{
  ℕ, suc, ◌≡◌, ◌≢◌, refl, sym, ap, subst, ◌∙◌, Bool, true, false, Option, none, some, is_some, List,
  [], ◌∷◌, arith, All, filter, ◌==◌, ==_iff, Bool-cases, inl, inr,
}
use backup_orchestration_pla.Failure.{Outcome, resolved, rejected}
use backup_orchestration_pla.UseApi.{
  Request, foreground, ApiState, Event, answered, deps_changed, interval_changed, reload, tick,
  visibility, polls, load, answer, step, run, mount, poll_effect, initial,
}
use backup_orchestration_pla.UseApi.Stale.{
  View, view, current, shows, after, answer-Settled, stale-Same, Same, answers, answers-Same,
  is_current,
}
use backup_orchestration_pla.UseApi.Polling.{poll-answer}

filter-stale :
    {A : Type 0} (last : ℕ) (xs : List (ℕ × Outcome A))
    → All (λ (x : ℕ × Outcome A). x.0 ≢ last) xs
    → filter (is_current last) xs ≡ []
filter-stale last [] h = refl
filter-stale last ((id, outcome) ∷ xs) h = ground (arith, filter-stale last xs h.1)

module _ {D A : Type 0} where
  -- The hook without an interval: `loading` says whether the last request, a load, is in flight.
  pub record Settles (s : ApiState D A) : Type 0 where
    pub unpolled : polls s.interval ≡ false
    pub still : s.timer ≡ false
    pub awaited : is_some (current s) ≡ s.loading
    pub loads : (r : Request D) → current s ≡ some r → r.kind ≡ foreground

  -- Events of a component that never passes an interval.
  abbrev pub Unpolled : Event D A → Type 0
  Unpolled (deps_changed d ms) = polls ms ≡ false
  Unpolled (interval_changed ms) = polls ms ≡ false
  Unpolled _ = Unit

  load_awaits :
      (s : ApiState D A)
      → (is_some (current (load s)) ≡ (load s).loading)
        × ((r : Request D) → current (load s) ≡ some r → r.kind ≡ foreground)
  unfolding load
  load_awaits s = (ground arith, λ r e. ground arith)

  load-Settles : (s : ApiState D A) → Settles s → Settles (load s)
  unfolding load
  load-Settles s h = record {
    unpolled = h.unpolled;
    still = h.still;
    awaited = (load_awaits s).0;
    loads = (load_awaits s).1;
  }

  poll_effect-Settles :
      (ms : Option ℕ) (s : ApiState D A)
      → polls ms ≡ false
      → is_some (current s) ≡ s.loading
      → ((r : Request D) → current s ≡ some r → r.kind ≡ foreground)
      → Settles (poll_effect ms s)
  unfolding poll_effect
  poll_effect-Settles ms s p a l =
      rw p (record { unpolled = p; still = refl; awaited = a; loads = l })

  after_loading :
      (o : Option (Request D)) (outcome : Outcome A) (v : View A)
      → is_some o ≡ v.loading
      → ((r : Request D) → o ≡ some r → r.kind ≡ foreground)
      → (after o outcome v).loading ≡ false
  after_loading none outcome v a l = sym a
  after_loading (some r) (resolved a') v a l = rw (l r refl) refl
  after_loading (some r) (rejected err) v a l = rw (l r refl) refl

  answered_awaits :
      (s : ApiState D A) (outcome : Outcome A)
      → Settles s
      → (current (answer s.request_id outcome s) ≡ none)
        × ((answer s.request_id outcome s).loading ≡ false)
  unfolding view
  answered_awaits s outcome h =
      let p = answer-Settled s outcome in
      (
        p.gone,
        ap (λ (v : View A). v.loading) p.shown
            ∙ after_loading (current s) outcome (view s) h.awaited h.loads,
      )

  answer-Settles :
      (s : ApiState D A) (id : ℕ) (outcome : Outcome A) → Settles s → Settles (answer id outcome s)
  unfolding view
  answer-Settles s id outcome h = record {
    unpolled = ap polls frame.1 ∙ h.unpolled;
    still = frame.2 ∙ h.still;
    awaited = awaits.0;
    loads = awaits.1;
  }
    where
      frame :
          ((answer id outcome s).hidden ≡ s.hidden)
          × ((answer id outcome s).interval ≡ s.interval)
          × ((answer id outcome s).timer ≡ s.timer)
      frame = poll-answer id outcome s

      awaits :
          (is_some (current (answer id outcome s)) ≡ (answer id outcome s).loading)
          × ((r : Request D) → current (answer id outcome s) ≡ some r → r.kind ≡ foreground)
      awaits = elim (Bool-cases (id == s.request_id)) [
        | inl cur ↦
            subst
              (λ i.
                (is_some (current (answer i outcome s)) ≡ (answer i outcome s).loading)
                × ((r : Request D) → current (answer i outcome s) ≡ some r → r.kind ≡ foreground))
              (sym ((==_iff id s.request_id).0 cur))
              (let (gone, ended) = answered_awaits s outcome h in
                (ap is_some gone ∙ sym ended, λ r e. cc (gone, e)))
        | inr old ↦
            let same =
              stale-Same s id outcome (λ same. cc (old, (==_iff id s.request_id).1 same)) in
            (
              ap is_some same.inflight
                  ∙ h.awaited
                  ∙ sym (ap (λ (v : View A). v.loading) same.shown),
              λ r e. h.loads r (sym same.inflight ∙ e),
            )
      ]

  stopped_tick : (s : ApiState D A) → s.timer ≡ false → step s tick ≡ s
  unfolding step
  stopped_tick s t = ground arith

  unpolled_visibility :
      (s : ApiState D A) (hidden : Bool)
      → polls s.interval ≡ false
      → step s (visibility hidden) ≡ record s { hidden = hidden }
  unfolding step
  unpolled_visibility s hidden p = ground arith

  step-Settles : (s : ApiState D A) (e : Event D A) → Unpolled e → Settles s → Settles (step s e)
  unfolding step
  step-Settles s tick u h = subst Settles (sym (stopped_tick s h.still)) h
  step-Settles s (interval_changed ms) u h = poll_effect-Settles ms s u h.awaited h.loads
  step-Settles s (visibility hidden) u h =
      subst Settles (sym (unpolled_visibility s hidden h.unpolled))
        (record { unpolled = h.unpolled; still = h.still; awaited = h.awaited; loads = h.loads })
  step-Settles s (answered id outcome) u h = answer-Settles s id outcome h
  step-Settles s (deps_changed d ms) u h =
      let awaits = load_awaits (record s { deps = d }) in
      poll_effect-Settles ms (load (record s { deps = d })) u awaits.0 awaits.1
  step-Settles s reload u h = load-Settles s h

  run-Settles :
      (s : ApiState D A) (es : List (Event D A)) → All Unpolled es → Settles s → Settles (run s es)
  unfolding run
  run-Settles s [] u h = h
  run-Settles s (e ∷ es) u h = run-Settles (step s e) es u.1 (step-Settles s e u.0 h)

  mount-Settles :
      (d : D) (ms : Option ℕ) (hidden : Bool)
      → polls ms ≡ false
      → Settles (mount {A = A} d ms hidden)
  unfolding mount
  mount-Settles d ms hidden u =
      let awaits = load_awaits (initial d ms hidden) in
      poll_effect-Settles ms (load (initial d ms hidden)) u awaits.0 awaits.1

  -- Without an interval `loading` never sticks: after any events it is true exactly while the last
  -- request is in flight, and the answer to that request, whether a result or a failure, ends it.
  pub loading_ends_without_interval :
      (d : D) (ms : Option ℕ) (hidden : Bool) (es : List (Event D A)) (outcome : Outcome A)
      → polls ms ≡ false
      → All Unpolled es
      → let s = run (mount d ms hidden) es in
        (s.loading ≡ is_some (current s))
        × ((step s (answered s.request_id outcome)).loading ≡ false)
  unfolding step
  loading_ends_without_interval d ms hidden es outcome p u =
      let h = run-Settles (mount d ms hidden) es u (mount-Settles d ms hidden p) in
      (sym h.awaited, (answered_awaits _ outcome h).1)

  current-load :
      (s : ApiState D A)
      → current (load s) ≡ some (record { id = suc s.request_id; kind = foreground; deps = s.deps })
  unfolding load
  current-load s = ground arith

  load-Same :
      (s : ApiState D A) (xs : List (ℕ × Outcome A))
      → All (λ (x : ℕ × Outcome A). x.0 ≢ suc s.request_id) xs
      → Same (run (load s) (answers xs)) (load s)
  unfolding run load
  load-Same s xs h = rw (filter-stale (suc s.request_id) xs h) at (
      answers-Same (suc s.request_id) (load s) (load s) xs refl
        (record { shown = refl; last = refl; inflight = refl }))

  -- The view while a load waits: the error is cleared and the old value stays.
  abbrev pub waiting : ApiState D A → View A
  waiting s = record { value = s.value; error = none; loading = true }

  load_result :
      (s t : ApiState D A) (outcome : Outcome A)
      → Same t (load s)
      → (view t ≡ waiting s)
        × (view (answer (suc s.request_id) outcome t) ≡ shows foreground outcome (waiting s))
  unfolding view load
  load_result s t outcome h = (
    h.shown,
    subst (λ i. view (answer i outcome t) ≡ shows foreground outcome (waiting s)) h.last
        ((answer-Settled t outcome).shown
          ∙ ap₂ (λ o v. after o outcome v) (h.inflight ∙ current-load s) h.shown),
  )

  -- A load shows its own answer: while it waits, whatever superseded requests answer, `loading` is on,
  -- the error is cleared and the old value stays; then the result or the error is put in and `loading`
  -- goes off.
  pub load_shows_its_answer :
      (s : ApiState D A) (xs : List (ℕ × Outcome A)) (outcome : Outcome A)
      → All (λ (x : ℕ × Outcome A). x.0 ≢ suc s.request_id) xs
      → let t = run (step s reload) (answers xs) in
        (view t ≡ waiting s)
        × (view (step t (answered (suc s.request_id) outcome))
            ≡ shows foreground outcome (waiting s))
  unfolding step
  load_shows_its_answer s xs outcome h =
      load_result s (run (load s) (answers xs)) outcome (load-Same s xs h)
