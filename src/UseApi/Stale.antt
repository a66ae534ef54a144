-- ===== src/UseApi/Stale.antt =====
-- Answers: a superseded request never reaches the view, and what is shown is the answer of the last
-- request, made under the current dependencies.
use mathlib.Core.Path.{ap₂, subst₂}
use backup_orchestration_pla.Common.{
  ℕ, ◌≡◌, ◌≢◌, refl, sym, ◌∙◌, Bool, false, not, Option, none, some, List, [], ◌∷◌, find, filter,
  arith, Bool-cases, Option-cases, inl, inr, ◌==◌, ==_iff,
}
use backup_orchestration_pla.Common.Text.{Text}
use backup_orchestration_pla.Failure.{Outcome, resolved, rejected, failure_message}
use backup_orchestration_pla.UseApi.{
  Request, Kind, foreground, background, ApiState, Event, answered, has_id, settle, settle_load,
  settle_refresh, receive, forget, answer, step, run,
}

-- What the component reads from the hook.
pub record View (A : Type 0) : Type 0 where
  pub value : Option A
  pub error : Option Text
  pub loading : Bool

-- What the answer of the last request makes of the view.
abbrev pub shows : {A : Type 0} → Kind → Outcome A → View A → View A
shows foreground (resolved a) v = record v { value = some a; loading = false }
shows foreground (rejected err) v = record v { error = some (failure_message err); loading = false }
shows background (resolved a) v = record v { value = some a }
shows background (rejected err) v = v

abbrev pub is_current : {A : Type 0} → ℕ → ℕ × Outcome A → Bool
is_current last (id, outcome) = id == last

module _ {D : Type 0} where
  pub find-has_id :
      (id : ℕ) (rs : List (Request D)) (r : Request D) → find (has_id id) rs ≡ some r → r.id ≡ id
  find-has_id id [] r e = cc
  find-has_id id (x ∷ rs) r e = elim (Bool-cases (has_id id x)) [
    | inl found ↦ ground arith
    | inr other ↦ find-has_id id rs r (ground arith)
  ]

  -- Forgetting one request leaves the others where they are.
  find-forget_other :
      (id j : ℕ) (rs : List (Request D))
      → j ≢ id
      → find (has_id id) (filter (λ r. not (has_id j r)) rs) ≡ find (has_id id) rs
  find-forget_other id j [] h = refl
  find-forget_other id j (x ∷ rs) h = ground (arith, find-forget_other id j rs h)

  find-forget_self :
      (id : ℕ) (rs : List (Request D))
      → find (has_id id) (filter (λ r. not (has_id id r)) rs) ≡ none
  find-forget_self id [] = refl
  find-forget_self id (x ∷ rs) = ground (arith, find-forget_self id rs)

module _ {D A : Type 0} where
  unfoldable pub view : ApiState D A → View A
  view s = record { value = s.value; error = s.error; loading = s.loading }

  -- The last request, while it is in flight.
  abbrev pub current : ApiState D A → Option (Request D)
  current s = find (has_id s.request_id) s.pending

  -- Two states that differ in superseded requests only.
  pub record Same (s t : ApiState D A) : Type 0 where
    pub shown : view s ≡ view t
    pub last : s.request_id ≡ t.request_id
    pub inflight : current s ≡ current t

  Same-trans : {s t u : ApiState D A} → Same s t → Same t u → Same s u
  Same-trans h k = record {
    shown = h.shown ∙ k.shown;
    last = h.last ∙ k.last;
    inflight = h.inflight ∙ k.inflight;
  }

  pub stale-Same :
      (s : ApiState D A) (id : ℕ) (outcome : Outcome A)
      → id ≢ s.request_id
      → Same (answer id outcome s) s
  unfolding answer view
  stale-Same s id outcome h = elim (Option-cases (find (has_id id) s.pending)) [
    | inl e ↦ rw e (record { shown = refl; last = refl; inflight = refl })
    | inr (r, e) ↦ rw e (other r (find-has_id id s.pending r e))
  ]
    where
      other : (r : Request D) → r.id ≡ id → Same (receive (some r) outcome s) s
      other r e = elim (Bool-cases (r.id == s.request_id)) [
        | inl same ↦ absurd (h (sym e ∙ (==_iff _ _).0 same))
        | inr stale ↦ rw stale (record {
          shown = refl;
          last = refl;
          inflight = find-forget_other s.request_id r.id s.pending (ground arith);
        })
      ]

  -- An answer to any request but the last one leaves the value, the error and `loading` as they are.
  pub stale_answer_ignored :
      (s : ApiState D A) (id : ℕ) (outcome : Outcome A)
      → id ≢ s.request_id
      → view (step s (answered id outcome)) ≡ view s
  unfolding step
  stale_answer_ignored s id outcome h = (stale-Same s id outcome h).shown

  abbrev pub after : Option (Request D) → Outcome A → View A → View A
  after none outcome v = v
  after (some r) outcome v = shows r.kind outcome v

  view-settle :
      (k : Kind) (outcome : Outcome A) (s : ApiState D A)
      → view (settle k outcome s) ≡ shows k outcome (view s)
  unfolding view settle_load settle_refresh
  view-settle foreground (resolved a) s = refl
  view-settle foreground (rejected err) s = refl
  view-settle background (resolved a) s = refl
  view-settle background (rejected err) s = refl

  settle-frame :
      (k : Kind) (outcome : Outcome A) (s : ApiState D A)
      → ((settle k outcome s).request_id ≡ s.request_id)
        × ((settle k outcome s).pending ≡ s.pending)
  unfolding settle_load settle_refresh
  settle-frame foreground (resolved a) s = (refl, refl)
  settle-frame foreground (rejected err) s = (refl, refl)
  settle-frame background (resolved a) s = (refl, refl)
  settle-frame background (rejected err) s = (refl, refl)

  -- The last request is answered once: it shows what it brings, and is gone.
  pub record Settled (s : ApiState D A) (outcome : Outcome A) (t : ApiState D A) : Type 0 where
    pub shown : view t ≡ after (current s) outcome (view s)
    pub last : t.request_id ≡ s.request_id
    pub gone : current t ≡ none

  received :
      (s : ApiState D A) (outcome : Outcome A) (o : Option (Request D))
      → current s ≡ o
      → Settled s outcome (receive o outcome s)
  unfolding view
  received s outcome none e = record { shown = rw e refl; last = refl; gone = e }
  received s outcome (some r) e =
      let same = find-has_id s.request_id s.pending r e in
      let frame = settle-frame r.kind outcome (forget r.id s) in
      rw ((==_iff r.id s.request_id).1 same) (record {
        shown = rw e (view-settle r.kind outcome (forget r.id s));
        last = frame.0;
        gone = rw (frame.0, frame.1) (rw same (find-forget_self s.request_id s.pending));
      })

  pub answer-Settled :
      (s : ApiState D A) (outcome : Outcome A) → Settled s outcome (answer s.request_id outcome s)
  unfolding answer
  answer-Settled s outcome = received s outcome (current s) refl

  pub current-Same :
      (s t : ApiState D A) (outcome : Outcome A)
      → Same s t
      → Same (answer s.request_id outcome s) (answer t.request_id outcome t)
  current-Same s t outcome h =
      let p = answer-Settled s outcome in
      let q = answer-Settled t outcome in
      record {
        shown = p.shown ∙ ap₂ (λ o v. after o outcome v) h.inflight h.shown ∙ sym q.shown;
        last = p.last ∙ h.last ∙ sym q.last;
        inflight = p.gone ∙ sym q.gone;
      }

  -- A sequence of answers as events.
  abbrev pub answers : List (ℕ × Outcome A) → List (Event D A)
  answers [] = []
  answers ((id, outcome) ∷ xs) = answered id outcome ∷ answers xs

  pub request_id-answer :
      (id : ℕ) (outcome : Outcome A) (s : ApiState D A)
      → (answer id outcome s).request_id ≡ s.request_id
  unfolding answer
  request_id-answer id outcome s = ground arith

  pub answers-Same :
      (last : ℕ) (s t : ApiState D A) (xs : List (ℕ × Outcome A))
      → s.request_id ≡ last
      → Same s t
      → Same (run s (answers xs)) (run t (answers (filter (is_current last) xs)))
  unfolding run step
  answers-Same last s t [] e h = h
  answers-Same last s t ((id, outcome) ∷ xs) e h = elim (Bool-cases (id == last)) [
    | inl cur ↦
        let same : id ≡ s.request_id = (==_iff id last).0 cur ∙ sym e in
        rw cur (
          answers-Same last (answer id outcome s) (answer id outcome t) xs
            (request_id-answer id outcome s ∙ e)
            (subst₂ (λ i j. Same (answer i outcome s) (answer j outcome t)) (sym same)
              (sym (same ∙ h.last)) (current-Same s t outcome h)))
    | inr old ↦ rw old (
        answers-Same last (answer id outcome s) t xs (request_id-answer id outcome s ∙ e) (
          Same-trans (stale-Same s id outcome (λ same. cc (old, (==_iff id last).1 (same ∙ e)))) h))
  ]

  -- Superseded answers, in whatever order they come between the others, change nothing: the view is
  -- that of the answers to the last request alone.
  pub answers_any_order :
      (s : ApiState D A) (xs : List (ℕ × Outcome A))
      → view (run s (answers xs)) ≡ view (run s (answers (filter (is_current s.request_id) xs)))
  answers_any_order s xs =
      (answers-Same s.request_id s s xs refl
        (record { shown = refl; last = refl; inflight = refl })).shown
