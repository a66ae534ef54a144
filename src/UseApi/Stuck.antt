-- ===== src/UseApi/Stuck.antt =====
-- `loading` never ends once a background refresh has superseded a load.
use backup_orchestration_pla.Common.{
  ℕ, ◌≡◌, refl, sym, subst, ◌∙◌, true, none, some, List, [], ◌∷◌, arith, All, ◌==◌, ==_iff,
  Bool-cases, inl, inr,
}
use backup_orchestration_pla.Failure.{Outcome}
use backup_orchestration_pla.UseApi.{
  Request, background, ApiState, Event, answered, deps_changed, interval_changed, reload, tick,
  visibility, polls, answer, step, run, refresh,
}
use backup_orchestration_pla.UseApi.Stale.{current, answer-Settled, stale-Same}
use backup_orchestration_pla.UseApi.Polling.{answer-Silent}

module _ {D A : Type 0} where
  -- Neither new dependencies nor a reload: what happens to a page that is only watched.
  abbrev pub NoLoad : Event D A → Type 0
  NoLoad (deps_changed d ms) = ⊥
  NoLoad reload = ⊥
  NoLoad _ = Unit

  -- No foreground request is awaited.
  abbrev Unawaited : ApiState D A → Type 0
  Unawaited s = (r : Request D) → current s ≡ some r → r.kind ≡ background

  answer-Unawaited :
      (s : ApiState D A) (id : ℕ) (outcome : Outcome A)
      → Unawaited s
      → Unawaited (answer id outcome s)
  answer-Unawaited s id outcome u r e = elim (Bool-cases (id == s.request_id)) [
    | inl cur ↦
        let gone = (answer-Settled s outcome).gone in
        cc (
          subst (λ i. current (answer i outcome s) ≡ none) (sym ((==_iff id s.request_id).0 cur))
              gone,
          e,
        )
    | inr old ↦ u r (
        sym (stale-Same s id outcome (λ same. cc (old, (==_iff id s.request_id).1 same))).inflight
        ∙ e)
  ]

  -- A background request has been sent since.
  refresh-Unawaited : (s : ApiState D A) → Unawaited (refresh s)
  unfolding refresh
  refresh-Unawaited s r e = ground arith

  stuck_step :
      (s : ApiState D A) (e : Event D A)
      → NoLoad e
      → s.loading ≡ true
      → Unawaited s
      → ((step s e).loading ≡ true) × Unawaited (step s e)
  unfolding step
  stuck_step s tick n l u = (
    ground arith,
    λ r e. elim (Bool-cases s.timer) [
      | inl on ↦ refresh-Unawaited s r (ground arith)
      | inr off ↦ u r (ground arith)
    ],
  )
  stuck_step s (interval_changed ms) n l u = (ground arith, λ r e. u r (ground arith))
  stuck_step s (visibility hidden) n l u = (
    ground arith,
    λ r e. elim (Bool-cases (polls s.interval)) [
      | inl on ↦ ground (arith, u r)
      | inr off ↦ u r (ground arith)
    ],
  )
  stuck_step s (answered id outcome) n l u =
      ((answer-Silent s id outcome u).0 ∙ l, answer-Unawaited s id outcome u)
  stuck_step s (deps_changed d ms) n l u = absurd n
  stuck_step s reload n l u = absurd n

  stuck_run :
      (s : ApiState D A) (es : List (Event D A))
      → All NoLoad es
      → s.loading ≡ true
      → Unawaited s
      → (run s es).loading ≡ true
  unfolding run
  stuck_run s [] n l u = l
  stuck_run s (e ∷ es) n l u =
      let (l', u') = stuck_step s e n.0 l u in stuck_run (step s e) es n.1 l' u'

  running_tick : (s : ApiState D A) → s.timer ≡ true → step s tick ≡ refresh s
  unfolding step
  running_tick s t = ground arith

  loading-refresh : (s : ApiState D A) → (refresh s).loading ≡ s.loading
  unfolding refresh
  loading-refresh s = refl

  -- A tick of the running timer during a load makes `loading` stay: it is true after any further events, as
  -- long as the dependencies do not change and `reload` is not called.
  pub tick_during_load_sticks :
      (s : ApiState D A) (es : List (Event D A))
      → s.timer ≡ true
      → s.loading ≡ true
      → All NoLoad es
      → (run (step s tick) es).loading ≡ true
  tick_during_load_sticks s es t l n =
      subst (λ u. (run u es).loading ≡ true) (sym (running_tick s t))
        (stuck_run (refresh s) es n (loading-refresh s ∙ l) (refresh-Unawaited s))
