-- ===== src/UseApi/Fresh.antt =====
-- A value on show answers the last request, which was made under the current dependencies.
use backup_orchestration_pla.Common.{
  ℕ, ◌≡◌, refl, sym, ◌∙◌, ap, subst, Option, none, some, ◌⊎◌, arith, Bool-cases, inl, inr, ◌==◌,
  ==_iff,
}
use backup_orchestration_pla.Failure.{Outcome, resolved, rejected}
use backup_orchestration_pla.UseApi.{
  Request, Kind, foreground, background, ApiState, Event, answered, deps_changed, interval_changed,
  reload, tick, visibility, has_id, answer, step,
}
use backup_orchestration_pla.UseApi.Invariant.{Inv, find-All, Fits}
use backup_orchestration_pla.UseApi.Stale.{
  View, view, shows, current, after, find-has_id, answer-Settled, stale-Same,
}

shows_value :
    {A : Type 0} (k : Kind) (outcome : Outcome A) (v : View A) (a : A)
    → (shows k outcome v).value ≡ some a
    → (v.value ≡ some a) ⊎ (outcome ≡ resolved a)
shows_value foreground (resolved b) v a h = inr (ground arith)
shows_value background (resolved b) v a h = inr (ground arith)
shows_value foreground (rejected err) v a h = inl h
shows_value background (rejected err) v a h = inl h

module _ {D A : Type 0} where
  -- A value that a step puts on show answers the last request, which was made under the deps of now.
  pub record Answers (s : ApiState D A) (e : Event D A) (a : A) : Type 0 where
    pub request : Request D
    pub inflight : current s ≡ some request
    pub deps : request.deps ≡ s.deps
    pub answer : e ≡ answered s.request_id (resolved a)

  fresh_answer :
      (s : ApiState D A) (outcome : Outcome A) (o : Option (Request D)) (a : A)
      → Inv s
      → current s ≡ o
      → (after o outcome (view s)).value ≡ some a
      → (s.value ≡ some a) ⊎ Answers s (answered s.request_id outcome) a
  unfolding view
  fresh_answer s outcome none a inv e h = inl h
  fresh_answer s outcome (some r) a inv e h = elim (shows_value r.kind outcome (view s) a h) [
    | inl old ↦ inl old
    | inr new ↦
        let found =
          find-All (Fits s.request_id s.deps) (has_id s.request_id) s.pending inv.requests e in
        inr (record {
          request = r;
          inflight = e;
          deps = found.0.1 (find-has_id s.request_id s.pending r e);
          answer = ap (answered s.request_id) new;
        })
  ]

  -- An answer changes the value to its own, or not at all.
  fresh_or_old :
      (s : ApiState D A) (id : ℕ) (outcome : Outcome A) {a : A}
      → Inv s
      → (answer id outcome s).value ≡ some a
      → (s.value ≡ some a) ⊎ Answers s (answered id outcome) a
  unfolding view
  fresh_or_old s id outcome {a} inv h = elim (Bool-cases (id == s.request_id)) [
    | inl cur ↦
        let same = (==_iff id s.request_id).0 cur in
        subst (λ i. (s.value ≡ some a) ⊎ Answers s (answered i outcome) a) (sym same)
          (fresh_answer s outcome (current s) a inv refl (
            ap (λ (v : View A). v.value) (sym (answer-Settled s outcome).shown)
            ∙ subst (λ i. (answer i outcome s).value ≡ some a) same h))
    | inr old ↦ inl (
        ap (λ (v : View A). v.value)
          (sym (stale-Same s id outcome (λ same. cc (old, (==_iff id s.request_id).1 same))).shown)
        ∙ h)
  ]

  -- In a state of the invariant, a value that is on show after an event was on show before it, or it is the
  -- result of the last request, which was made under the dependencies of now.
  pub shown_value_is_fresh :
      (s : ApiState D A) (e : Event D A) {a : A}
      → Inv s
      → (step s e).value ≡ some a
      → (s.value ≡ some a) ⊎ Answers s e a
  unfolding step
  shown_value_is_fresh s (answered id outcome) inv h = fresh_or_old s id outcome inv h
  shown_value_is_fresh s (deps_changed d ms) inv h = inl (ground arith)
  shown_value_is_fresh s (interval_changed ms) inv h = inl (ground arith)
  shown_value_is_fresh s reload inv h = inl (ground arith)
  shown_value_is_fresh s tick inv h = inl (ground arith)
  shown_value_is_fresh s (visibility hidden) inv h = inl (ground arith)
