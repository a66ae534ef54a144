-- ===== src/UseApi/Once.antt =====
-- A hook without an interval that is never reloaded, as that of the inventory: it takes one answer.
use backup_orchestration_pla.Common.{
  ℕ, ◌≡◌, ◌⊎◌, refl, sym, ap, subst, ◌∙◌, ◌==◌, ==_iff, Bool, false, not, Bool-cases, inl, inr,
  Option, none, some, [], ◌∷◌, find, filter, arith,
}
use backup_orchestration_pla.Failure.{Failure, Outcome, resolved, rejected}
use backup_orchestration_pla.UseApi.{
  Request, Kind, foreground, background, ApiState, answered, visibility, polls, has_id, load,
  poll_effect, on_visibility, settle, settle_load, settle_refresh, receive, forget, answer, step,
  mount,
}

module _ {D A : Type 0} where
  -- At most one request is in flight, and none once there is a value.
  pub record Once (s : ApiState D A) : Type 0 where
    pub unpolled : polls s.interval ≡ false
    pub few : (s.pending ≡ []) ⊎ ((r : Request D) × (s.pending ≡ r ∷ []))
    pub answered_once : (a : A) → s.value ≡ some a → s.pending ≡ []

  settle-value :
      (k : Kind) (outcome : Outcome A) (s : ApiState D A) (a : A)
      → (settle k outcome s).value ≡ some a
      → (s.value ≡ some a) ⊎ (outcome ≡ resolved a)
  unfolding settle_load settle_refresh
  settle-value foreground (resolved b) s a e = ground arith
  settle-value foreground (rejected err) s a e = inl e
  settle-value background (resolved b) s a e = ground arith
  settle-value background (rejected err) s a e = inl e

  settle-frame :
      (k : Kind) (outcome : Outcome A) (s : ApiState D A)
      → ((settle k outcome s).pending ≡ s.pending) × ((settle k outcome s).interval ≡ s.interval)
  unfolding settle_load settle_refresh
  settle-frame foreground (resolved b) s = (refl, refl)
  settle-frame foreground (rejected err) s = (refl, refl)
  settle-frame background (resolved b) s = (refl, refl)
  settle-frame background (rejected err) s = (refl, refl)

  -- A value is there from before, or the answer has brought it.
  receive-value :
      (o : Option (Request D)) (outcome : Outcome A) (s : ApiState D A) (a : A)
      → (receive o outcome s).value ≡ some a
      → (s.value ≡ some a) ⊎ (outcome ≡ resolved a)
  receive-value none outcome s a e = inl e
  receive-value (some r) outcome s a e = elim (Bool-cases (r.id == s.request_id)) [
    | inl now ↦ settle-value r.kind outcome (forget r.id s) a (rw now at e)
    | inr old ↦ inl (rw old at e)
  ]

  receive-pending :
      (r : Request D) (outcome : Outcome A) (s : ApiState D A)
      → (receive (some r) outcome s).pending ≡ filter (λ q. not (has_id r.id q)) s.pending
  receive-pending r outcome s = elim (Bool-cases (r.id == s.request_id)) [
    | inl now ↦ rw now ((settle-frame r.kind outcome (forget r.id s)).0)
    | inr old ↦ rw old refl
  ]

  receive-interval :
      (o : Option (Request D)) (outcome : Outcome A) (s : ApiState D A)
      → (receive o outcome s).interval ≡ s.interval
  receive-interval none outcome s = refl
  receive-interval (some r) outcome s = elim (Bool-cases (r.id == s.request_id)) [
    | inl now ↦ rw now ((settle-frame r.kind outcome (forget r.id s)).1)
    | inr old ↦ rw old refl
  ]

  pub empty_pending :
      (s : ApiState D A) (id : ℕ) (outcome : Outcome A) → s.pending ≡ [] → answer id outcome s ≡ s
  unfolding answer
  empty_pending s id outcome e =
      subst (λ o. receive o outcome s ≡ s) (sym (ap (find (has_id id)) e)) refl

  one_pending :
      (s : ApiState D A) (id : ℕ) (outcome : Outcome A) (r : Request D)
      → s.pending ≡ r ∷ []
      → (answer id outcome s ≡ s) ⊎ ((answer id outcome s).pending ≡ [])
  unfolding answer
  one_pending s id outcome r e = elim (Bool-cases (r.id == id)) [
    | inl hit ↦
        let found : find (has_id id) s.pending ≡ some r = ap (find (has_id id)) e ∙ rw hit refl in
        inr (
          subst (λ o. (receive o outcome s).pending ≡ []) (sym found)
            (receive-pending r outcome s
              ∙ ap (filter (λ q. not (has_id r.id q))) e
              ∙ rw ((==_iff r.id r.id).1 refl) refl))
    | inr miss ↦
        let lost : find (has_id id) s.pending ≡ none = ap (find (has_id id)) e ∙ rw miss refl in
        inl (subst (λ o. receive o outcome s ≡ s) (sym lost) refl)
  ]

  pub answer-value :
      (s : ApiState D A) (id : ℕ) (outcome : Outcome A) (a : A)
      → (answer id outcome s).value ≡ some a
      → (s.value ≡ some a) ⊎ (outcome ≡ resolved a)
  unfolding answer
  answer-value s id outcome a e = receive-value (find (has_id id) s.pending) outcome s a e

  answer-interval :
      (s : ApiState D A) (id : ℕ) (outcome : Outcome A)
      → (answer id outcome s).interval ≡ s.interval
  unfolding answer
  answer-interval s id outcome = receive-interval (find (has_id id) s.pending) outcome s

  pub answer-Once :
      (s : ApiState D A) (id : ℕ) (outcome : Outcome A) → Once s → Once (answer id outcome s)
  answer-Once s id outcome h = elim h.few [
    | inl none' ↦ subst Once (sym (empty_pending s id outcome none')) h
    | inr (r, one) ↦ elim (one_pending s id outcome r one) [
      | inl same ↦ subst Once (sym same) h
      | inr gone ↦ record {
        unpolled = ap polls (answer-interval s id outcome) ∙ h.unpolled;
        few = inl gone;
        answered_once = λ a e. gone;
      }
    ]
  ]

  pub visibility-Once :
      (s : ApiState D A) (hidden : Bool)
      → Once s
      → Once (step s (visibility hidden)) × ((step s (visibility hidden)).value ≡ s.value)
  unfolding step on_visibility
  visibility-Once s hidden h =
      rw h.unpolled
        (record { unpolled = h.unpolled; few = h.few; answered_once = h.answered_once }, refl)

  pub mount-Once :
      (d : D) (hidden : Bool)
      → Once (mount {A = A} d none hidden) × ((mount {A = A} d none hidden).value ≡ none)
  unfolding mount load poll_effect
  mount-Once d hidden =
      (record { unpolled = refl; few = inr (_, refl); answered_once = λ a e. absurd (cc e) }, refl)

  pub step-answered :
      (s : ApiState D A) (id : ℕ) (outcome : Outcome A)
      → step s (answered id outcome) ≡ answer id outcome s
  unfolding step
  step-answered s id outcome = refl

  pub visibility_unpolled :
      (s : ApiState D A) (hidden : Bool)
      → polls s.interval ≡ false
      → step s (visibility hidden) ≡ record s { hidden = hidden }
  unfolding step on_visibility
  visibility_unpolled s hidden u = rw u refl

  pub mount-visibility :
      (d : D) (before hidden : Bool)
      → step (mount {A = A} d none before) (visibility hidden) ≡ mount {A = A} d none hidden
  unfolding mount load poll_effect step on_visibility
  mount-visibility d before hidden = refl

  -- The first load fails: nothing is in flight, and there is no value.
  pub mount_failed :
      (d : D) (hidden : Bool) (err : Failure)
      → let s = answer 1 (rejected err) (mount {A = A} d none hidden) in
        (polls s.interval ≡ false) × (s.pending ≡ []) × (s.value ≡ none) × (s.loading ≡ false)
  unfolding mount load poll_effect answer settle_load
  mount_failed d hidden err = ground arith
