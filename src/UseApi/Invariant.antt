-- ===== src/UseApi/Invariant.antt =====
-- What holds of the requests in flight and of the polling timer after any events.
use backup_orchestration_pla.Common.{
  ℕ, suc, ◌≤◌, ◌≡◌, refl, sym, if◌then◌else◌, false, subst, ◌==◌, Bool-cases, Bool, true, not, ◌&&◌,
  Option, none, some, List, [], ◌∷◌, find, filter, All, arith, inl, inr,
}
use backup_orchestration_pla.Failure.{Outcome, resolved, rejected}
use backup_orchestration_pla.UseApi.{
  Request, ApiState, Event, deps_changed, interval_changed, reload, tick, visibility, answered,
  Kind, foreground, background, settle, forget, receive, start, stop, polls, has_id, load, refresh,
  poll_effect, on_visibility, settle_load, settle_refresh, answer, step, run, initial, mount,
}

module _ {D : Type 0} where
  -- No request is newer than the last one, and the last one was made under the current deps.
  abbrev pub Fits : ℕ → D → Request D → Type 0
  Fits last d r = (r.id ≤ last) × (r.id ≡ last → r.deps ≡ d)

  All-filter :
      (P : Request D → Type 0) (p : Request D → Bool) (rs : List (Request D))
      → All P rs
      → All P (filter p rs)
  All-filter P p [] h = tt
  All-filter P p (r ∷ rs) h = ground (arith, All-filter P p rs h.1)

  -- A new request is newer than all the others.
  All-older :
      (last : ℕ) (d d' : D) (rs : List (Request D))
      → All (Fits last d) rs
      → All (Fits (suc last) d') rs
  All-older last d d' [] h = tt
  All-older last d d' (r ∷ rs) h = ((ground arith), All-older last d d' rs h.1)

  pub find-All :
      (P : Request D → Type 0) (p : Request D → Bool) (rs : List (Request D)) {r : Request D}
      → All P rs
      → find p rs ≡ some r
      → P r × (p r ≡ true)
  find-All P p [] h e = cc
  find-All P p (x ∷ rs) {r} h e = elim (Bool-cases (p x)) [
    | inl yes' ↦
        let same : x ≡ r = ground arith in (subst P same h.0, subst (λ y. p y ≡ true) same yes')
    | inr no' ↦ find-All P p rs h.1 (ground arith)
  ]

module _ {D A : Type 0} where
  pub record Inv (s : ApiState D A) : Type 0 where
    pub requests : All (Fits s.request_id s.deps) s.pending
    pub polling : s.timer ≡ (polls s.interval && not s.hidden)

  either-Inv : (b : Bool) {s t : ApiState D A} → Inv s → Inv t → Inv (if b then s else t)
  either-Inv true h k = h
  either-Inv false h k = k

  load-Inv : (s : ApiState D A) → Inv s → Inv (load s)
  unfolding load
  load-Inv s h = record {
    requests =
        (((omega arith), λ e. refl), All-older s.request_id s.deps s.deps s.pending h.requests);
    polling = h.polling;
  }

  refresh-Inv : (s : ApiState D A) → Inv s → Inv (refresh s)
  unfolding refresh
  refresh-Inv s h = record {
    requests =
        (((omega arith), λ e. refl), All-older s.request_id s.deps s.deps s.pending h.requests);
    polling = h.polling;
  }

  settle-Inv :
      (k : Kind) (outcome : Outcome A) (s : ApiState D A) → Inv s → Inv (settle k outcome s)
  unfolding settle_load settle_refresh
  settle-Inv foreground (resolved a) s h = record { requests = h.requests; polling = h.polling }
  settle-Inv foreground (rejected err) s h = record { requests = h.requests; polling = h.polling }
  settle-Inv background (resolved a) s h = record { requests = h.requests; polling = h.polling }
  settle-Inv background (rejected err) s h = h

  forget-Inv : (id : ℕ) (s : ApiState D A) → Inv s → Inv (forget id s)
  forget-Inv id s h = record {
    requests = All-filter (Fits s.request_id s.deps) (λ r. not (has_id id r)) s.pending h.requests;
    polling = h.polling;
  }

  receive-Inv :
      (o : Option (Request D)) (outcome : Outcome A) (s : ApiState D A)
      → Inv s
      → Inv (receive o outcome s)
  receive-Inv none outcome s h = h
  receive-Inv (some r) outcome s h = elim (Bool-cases (r.id == s.request_id)) [
    | inl current ↦ rw current (settle-Inv r.kind outcome (forget r.id s) (forget-Inv r.id s h))
    | inr stale ↦ rw stale (forget-Inv r.id s h)
  ]

  answer-Inv : (id : ℕ) (outcome : Outcome A) (s : ApiState D A) → Inv s → Inv (answer id outcome s)
  unfolding answer
  answer-Inv id outcome s h = receive-Inv (find (has_id id) s.pending) outcome s h

  -- The timer runs exactly while the hook polls and the tab is shown.
  poll_effect-Inv :
      (ms : Option ℕ) (s : ApiState D A)
      → All (Fits s.request_id s.deps) s.pending
      → Inv (poll_effect ms s)
  unfolding poll_effect
  poll_effect-Inv ms s h = elim (Bool-cases (polls ms && not s.hidden)) [
    | inl e ↦ rw e (record { requests = h; polling = sym e })
    | inr e ↦ rw e (record { requests = h; polling = sym e })
  ]

  on_visibility-Inv : (hidden : Bool) (s : ApiState D A) → Inv s → Inv (on_visibility hidden s)
  unfolding on_visibility
  on_visibility-Inv hidden s h = elim (Bool-cases (polls s.interval)) [
    | inl e ↦ rw e (shown hidden e)
    | inr e ↦ rw e (record { requests = h.requests; polling = ground arith })
  ]
    where
      shown :
          (hidden : Bool)
          → polls s.interval ≡ true
          → Inv (
              if hidden
              then stop (record s { hidden = true })
              else start (refresh (record s { hidden = false })))
      shown true e = record { requests = h.requests; polling = ground arith }
      shown false e = record { requests = (refresh-Inv s h).requests; polling = ground arith }

  -- Every event keeps the invariant.
  pub step-Inv : (s : ApiState D A) (e : Event D A) → Inv s → Inv (step s e)
  unfolding step
  step-Inv s (deps_changed d ms) h =
      poll_effect-Inv ms (load (record s { deps = d }))
        (((omega arith), λ e. refl), All-older s.request_id s.deps d s.pending h.requests)
  step-Inv s (interval_changed ms) h = poll_effect-Inv ms s h.requests
  step-Inv s reload h = load-Inv s h
  step-Inv s tick h = either-Inv s.timer (refresh-Inv s h) h
  step-Inv s (visibility hidden) h = on_visibility-Inv hidden s h
  step-Inv s (answered id outcome) h = answer-Inv id outcome s h

  -- The invariant is kept by every sequence of events: no request in flight is newer than the last one, the
  -- last one was made under the dependencies of now, and the timer runs exactly while the hook has an
  -- interval and the tab is shown.
  pub run-Inv : (s : ApiState D A) (es : List (Event D A)) → Inv s → Inv (run s es)
  unfolding run
  run-Inv s [] h = h
  run-Inv s (e ∷ es) h = run-Inv (step s e) es (step-Inv s e h)

  pub mount-Inv : (d : D) (ms : Option ℕ) (hidden : Bool) → Inv (mount {A = A} d ms hidden)
  unfolding mount
  mount-Inv d ms hidden =
      poll_effect-Inv ms (load (initial d ms hidden)) (((omega arith), λ e. refl), tt)
