-- ===== src/UseApi/Current.antt =====
-- What a settled hook shows: a value for the dependencies of now, and never nothing at all.
use backup_orchestration_pla.Common.{
  ℕ, ◌≡◌, ◌≢◌, refl, sym, subst, ◌∙◌, ◌==◌, ==_iff, Bool, true, false, Bool-cases, inl, inr, Option,
  none, some, List, [], ◌∷◌, find, arith,
}
use backup_orchestration_pla.Failure.{Failure, failure_message, Outcome, resolved, rejected}
use backup_orchestration_pla.UseApi.{
  Request, Kind, foreground, background, ApiState, Event, answered, deps_changed, interval_changed,
  reload, tick, visibility, has_id, load, refresh, poll_effect, on_visibility, settle, settle_load,
  settle_refresh, receive, forget, answer, step, run, mount,
}
use backup_orchestration_pla.UseApi.Invariant.{Inv, find-All, Fits, mount-Inv, step-Inv}
use backup_orchestration_pla.UseApi.Stale.{current, find-has_id}

module _ {D A : Type 0} where
  -- What the server says: `P d a` when `a` answers a request that was made under the dependencies `d`.
  abbrev pub Says : (D → A → Type 0) → ApiState D A → Event D A → Type 0
  Says P s (answered id (resolved a)) =
      (r : Request D) → find (has_id id) s.pending ≡ some r → P r.deps a
  Says P s _ = Unit

  abbrev pub Honest : (D → A → Type 0) → ApiState D A → List (Event D A) → Type 0
  Honest P s [] = Unit
  Honest P s (e ∷ es) = Says P s e × Honest P (step s e) es

  -- While neither the spinner nor an error shows, the value on show fits the dependencies of now.
  pub record Current (P : D → A → Type 0) (s : ApiState D A) : Type 0 where
    pub fits : (a : A) → s.loading ≡ false → s.error ≡ none → s.value ≡ some a → P s.deps a

  settle-Current :
      (P : D → A → Type 0) (kind : Kind) (outcome : Outcome A) (s : ApiState D A)
      → ((a : A) → outcome ≡ resolved a → P s.deps a)
      → Current P s
      → Current P (settle kind outcome s)
  unfolding settle_load settle_refresh
  settle-Current P foreground (resolved a) s h c = record {
    fits = λ b l e v. subst (P s.deps) (cc v) (h a refl);
  }
  settle-Current P foreground (rejected err) s h c = record { fits = λ b l e v. absurd (cc e) }
  settle-Current P background (resolved a) s h c = record {
    fits = λ b l e v. subst (P s.deps) (cc v) (h a refl);
  }
  settle-Current P background (rejected err) s h c = c

  receive-Current :
      (P : D → A → Type 0) (o : Option (Request D)) (outcome : Outcome A) (s : ApiState D A)
      → ((r : Request D) (a : A)
          → o ≡ some r
          → r.id ≡ s.request_id
          → outcome ≡ resolved a
          → P s.deps a)
      → Current P s
      → Current P (receive o outcome s)
  receive-Current P none outcome s h c = c
  receive-Current P (some r) outcome s h c = elim (Bool-cases (r.id == s.request_id)) [
    | inl now ↦ rw now (
        settle-Current P r.kind outcome (forget r.id s)
          (λ a e. h r a refl ((==_iff r.id s.request_id).0 now) e) (record { fits = c.fits }))
    | inr old ↦ rw old (record { fits = c.fits })
  ]

  answer-Current :
      (P : D → A → Type 0) (id : ℕ) (outcome : Outcome A) (s : ApiState D A)
      → Says P s (answered id outcome)
      → Inv s
      → Current P s
      → Current P (answer id outcome s)
  unfolding answer
  answer-Current P id (resolved b) s says inv c =
      receive-Current P (find (has_id id) s.pending) (resolved b) s
        (λ r a found now e.
          let fit =
            (find-All (Fits s.request_id s.deps) (has_id id) s.pending inv.requests found).0 in
          subst (λ d. P d a) (fit.1 now) (subst (P r.deps) (cc e) (says r found)))
        c
  answer-Current P id (rejected err) s says inv c =
      receive-Current P (find (has_id id) s.pending) (rejected err) s
        (λ r a found now e. absurd (cc e)) c

  load-Current : (P : D → A → Type 0) (s : ApiState D A) → Current P (load s)
  unfolding load
  load-Current P s = record { fits = λ a l e v. absurd (cc l) }

  same-Current :
      (P : D → A → Type 0) (s t : ApiState D A)
      → (t.value ≡ s.value) × (t.loading ≡ s.loading) × (t.error ≡ s.error) × (t.deps ≡ s.deps)
      → Current P s
      → Current P t
  same-Current P s t h c = record {
    fits = λ a l e v.
        subst (λ d. P d a) (sym h.3) (c.fits a (sym h.1 ∙ l) (sym h.2 ∙ e) (sym h.0 ∙ v));
  }

  pub step-Current :
      (P : D → A → Type 0) (s : ApiState D A) (e : Event D A)
      → Says P s e
      → Inv s
      → Current P s
      → Current P (step s e)
  unfolding step refresh
  step-Current P s (answered id outcome) says inv c = answer-Current P id outcome s says inv c
  step-Current P s (deps_changed d ms) says inv c =
      same-Current P (load (record s { deps = d })) (poll_effect ms (load (record s { deps = d })))
        (ground arith) (load-Current P (record s { deps = d }))
  step-Current P s (interval_changed ms) says inv c =
      same-Current P s (poll_effect ms s) (ground arith) c
  step-Current P s reload says inv c = load-Current P s
  step-Current P s tick says inv c = same-Current P s (step s tick) (ground arith) c
  step-Current P s (visibility hidden) says inv c =
      same-Current P s (on_visibility hidden s) (ground arith) c

  run-Current :
      (P : D → A → Type 0) (s : ApiState D A) (es : List (Event D A))
      → Honest P s es
      → Inv s
      → Current P s
      → Current P (run s es)
  unfolding run
  run-Current P s [] h inv c = c
  run-Current P s (e ∷ es) h inv c =
      run-Current P (step s e) es h.1 (step-Inv s e inv) (step-Current P s e h.0 inv c)

  pub mount-Current :
      (P : D → A → Type 0) (d : D) (ms : Option ℕ) (hidden : Bool)
      → Current P (mount {A = A} d ms hidden)
  unfolding mount poll_effect load
  mount-Current P d ms hidden = record { fits = λ a l e v. absurd (ground arith) }

  -- If every answer of the server fits the dependencies that its request was made under, then after any
  -- events, while neither the spinner nor an error shows, the value on show fits the dependencies of now.
  pub settled_value_is_current :
      (P : D → A → Type 0) (d : D) (ms : Option ℕ) (hidden : Bool) (es : List (Event D A)) (a : A)
      → Honest P (mount d ms hidden) es
      → let s = run (mount d ms hidden) es in
        s.loading ≡ false → s.error ≡ none → s.value ≡ some a → P s.deps a
  settled_value_is_current P d ms hidden es a h l e v =
      (run-Current P (mount d ms hidden) es h (mount-Inv d ms hidden)
          (mount-Current P d ms hidden)).fits
        a l e v

  -- What shows of the hook: the spinner alone, or an error, or a value.
  pub record Filled (s : ApiState D A) : Type 0 where
    pub filled : s.loading ≡ false → s.error ≡ none → s.value ≢ none
    pub apart : s.loading ≡ true → s.error ≡ none

  answer-Filled :
      (id : ℕ) (outcome : Outcome A) (s : ApiState D A) → Filled s → Filled (answer id outcome s)
  unfolding answer settle_load settle_refresh
  answer-Filled id (resolved a) s h = ground arith
  answer-Filled id (rejected err) s h = ground arith

  pub step-Filled : (s : ApiState D A) (e : Event D A) → Filled s → Filled (step s e)
  unfolding step load refresh poll_effect on_visibility
  step-Filled s (answered id outcome) h = answer-Filled id outcome s h
  step-Filled s (deps_changed d ms) h = ground arith
  step-Filled s (interval_changed ms) h = ground arith
  step-Filled s reload h = ground arith
  step-Filled s tick h = ground arith
  step-Filled s (visibility hidden) h = ground arith

  pub run-Filled : (s : ApiState D A) (es : List (Event D A)) → Filled s → Filled (run s es)
  unfolding run
  run-Filled s [] h = h
  run-Filled s (e ∷ es) h = run-Filled (step s e) es (step-Filled s e h)

  pub mount-Filled : (d : D) (ms : Option ℕ) (hidden : Bool) → Filled (mount {A = A} d ms hidden)
  unfolding mount poll_effect load
  mount-Filled d ms hidden = ground arith

  -- The last request, a load, fails: the spinner goes off, its message shows, and the value stays.
  pub failed_load :
      (s : ApiState D A) (err : Failure) (r : Request D)
      → current s ≡ some r
      → r.kind ≡ foreground
      → let t = step s (answered s.request_id (rejected err)) in
        (t.loading ≡ false)
        × (t.error ≡ some (failure_message err))
        × (t.value ≡ s.value)
        × (t.deps ≡ s.deps)
  unfolding step answer settle_load
  failed_load s err r now kind =
      let found = (==_iff r.id s.request_id).1 (find-has_id s.request_id s.pending r now) in
      rw now (rw found (rw kind (refl, refl, refl, refl)))
