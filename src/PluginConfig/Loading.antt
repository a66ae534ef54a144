-- ===== src/PluginConfig/Loading.antt =====
-- The load of a form: it ends, it is never taken from an earlier target, and it shows what it brings.
use backup_orchestration_pla.Common.{
  ℕ, zero, suc, ◌≡◌, ◌≢◌, refl, ◌∙◌, Bool, true, false, not, ◌&&◌, ◌==◌, ==_iff, Bool-cases, inl,
  inr, none, some, List, [], ◌∷◌, any, filter, arith, if◌then◌else◌,
}
use backup_orchestration_pla.Common.Text.{truthy}
use backup_orchestration_pla.Failure.{Outcome, resolved, rejected, failure_message}
use backup_orchestration_pla.PluginConfig.{
  ConfigForm, FormEvent, target_changed, edited, submitted, load_settled, save_settled,
  is_not_found, form_shown, finish_load, load_answered, save_answered, load_effect, begin_save,
  step, run, initial, mount,
}

any-filter_self : (g : ℕ) (ls : List ℕ) → any (◌==◌ g) (filter (λ k. not (k == g)) ls) ≡ false
any-filter_self g [] = refl
any-filter_self g (k ∷ ls) = ground (arith, any-filter_self g ls)

any-filter_other :
    (g h : ℕ) (ls : List ℕ) → g ≢ h → any (◌==◌ h) (filter (λ k. not (k == g)) ls) ≡ any (◌==◌ h) ls
any-filter_other g h [] e = refl
any-filter_other g h (k ∷ ls) e = ground (arith, any-filter_other g h ls e)

module _ {T X : Type 0} where
  -- `loading` says whether the load of the last run of the effect is in flight; while it is, no error
  -- of an earlier load shows.
  pub record Awaits (s : ConfigForm T X) : Type 0 where
    pub awaited : any (◌==◌ s.generation) s.loads ≡ s.loading
    pub clear : s.loading ≡ true → s.load_error ≡ none

  load_effect-Awaits : (s : ConfigForm T X) → Awaits (load_effect s)
  unfolding load_effect
  load_effect-Awaits s = record { awaited = ground arith; clear = λ h. refl }

  either-Awaits :
      (b : Bool) {s t : ConfigForm T X} → Awaits s → Awaits t → Awaits (if b then s else t)
  either-Awaits true h k = h
  either-Awaits false h k = k

  begin_save-Awaits : (s : ConfigForm T X) → Awaits s → Awaits (begin_save s)
  unfolding begin_save
  begin_save-Awaits s h = record { awaited = h.awaited; clear = h.clear }

module _ {T X : Type 0} (empty_config : T) (sync : T → X) where
  save_answered-Awaits :
      (n : ℕ) (outcome : Outcome T) (s : ConfigForm T X)
      → Awaits s
      → Awaits (save_answered empty_config sync n outcome s)
  unfolding save_answered
  save_answered-Awaits zero outcome s h = h
  save_answered-Awaits (suc n) (resolved updated) s h = record {
    awaited = h.awaited;
    clear = h.clear;
  }
  save_answered-Awaits (suc n) (rejected err) s h = record { awaited = h.awaited; clear = h.clear }

  finish_load-frame :
      (outcome : Outcome T) (s : ConfigForm T X)
      → ((finish_load empty_config sync outcome s).loads ≡ s.loads)
        × ((finish_load empty_config sync outcome s).generation ≡ s.generation)
        × ((finish_load empty_config sync outcome s).loading ≡ false)
  unfolding finish_load
  finish_load-frame (resolved cfg) s = (refl, refl, refl)
  finish_load-frame (rejected err) s = ground arith

  load_answered-Awaits :
      (g : ℕ) (outcome : Outcome T) (s : ConfigForm T X)
      → Awaits s
      → Awaits (load_answered empty_config sync g outcome s)
  unfolding load_answered
  load_answered-Awaits g outcome s h = elim (Bool-cases (any (◌==◌ g) s.loads)) [
    | inr none' ↦ rw none' h
    | inl known ↦ rw known (elim (Bool-cases (g == s.generation)) [
      | inl now ↦
          rw now (finished (finish_load-frame outcome (forget s)) ((==_iff g s.generation).0 now))
      | inr old ↦ rw old (record {
        awaited = any-filter_other g s.generation s.loads (ground arith) ∙ h.awaited;
        clear = h.clear;
      })
    ])
  ]
    where
      forget : ConfigForm T X → ConfigForm T X
      forget s = record s { loads = filter (λ k. not (k == g)) s.loads }

      finished :
          let t = finish_load empty_config sync outcome (forget s) in
          (t.loads ≡ filter (λ k. not (k == g)) s.loads)
            × (t.generation ≡ s.generation)
            × (t.loading ≡ false)
          → g ≡ s.generation
          → Awaits (finish_load empty_config sync outcome (forget s))
      finished f same = record {
        awaited = rw (f.1, f.0, f.2, ← same) (any-filter_self g s.loads);
        clear = λ l. cc (l, f.2);
      }

  step-Awaits :
      (s : ConfigForm T X) (e : FormEvent T X) → Awaits s → Awaits (step empty_config sync s e)
  unfolding step
  step-Awaits s target_changed h = load_effect-Awaits s
  step-Awaits s (edited form texts) h =
      either-Awaits (form_shown s) (record { awaited = h.awaited; clear = h.clear }) h
  step-Awaits s submitted h = either-Awaits (form_shown s && not s.saving) (begin_save-Awaits s h) h
  step-Awaits s (load_settled g outcome) h = load_answered-Awaits g outcome s h
  step-Awaits s (save_settled outcome) h = save_answered-Awaits s.saves outcome s h

  run-Awaits :
      (s : ConfigForm T X) (es : List (FormEvent T X))
      → Awaits s
      → Awaits (run empty_config sync s es)
  unfolding run
  run-Awaits s [] h = h
  run-Awaits s (e ∷ es) h = run-Awaits (step empty_config sync s e) es (step-Awaits s e h)

  mount-Awaits : (blank : X) → Awaits (mount empty_config sync blank)
  unfolding mount
  mount-Awaits blank = load_effect-Awaits (initial empty_config sync blank)

  -- The answer to a load of an earlier target changes neither the form, nor its texts, `loading` or the error.
  pub stale_load_ignored :
      (s : ConfigForm T X) (g : ℕ) (outcome : Outcome T)
      → g ≢ s.generation
      → let t = step empty_config sync s (load_settled g outcome) in
        (t.form ≡ s.form)
        × (t.texts ≡ s.texts)
        × (t.loading ≡ s.loading)
        × (t.load_error ≡ s.load_error)
  unfolding step load_answered
  stale_load_ignored s g outcome h = ground arith

  -- What a form shows when its load has ended.
  abbrev pub Loaded : Outcome T → ConfigForm T X → ConfigForm T X → Type 0
  Loaded (resolved cfg) s t = (form_shown t ≡ true) × (t.form ≡ cfg) × (t.texts ≡ sync cfg)
  Loaded (rejected err) s t =
      if is_not_found err
      then (form_shown t ≡ true) × (t.form ≡ empty_config) × (t.texts ≡ sync empty_config)
      else (form_shown t ≡ not (truthy (failure_message err)))
        × (t.load_error ≡ some (failure_message err))
        × (t.form ≡ s.form)

  load_known :
      (outcome : Outcome T) (s : ConfigForm T X)
      → any (◌==◌ s.generation) s.loads ≡ true
      → load_answered empty_config sync s.generation outcome s
        ≡ finish_load empty_config sync outcome
            (record s { loads = filter (λ k. not (k == s.generation)) s.loads })
  unfolding load_answered
  load_known outcome s e = rw (e, (==_iff s.generation s.generation).1 refl)

  finish_load-Loaded :
      (outcome : Outcome T) (s t : ConfigForm T X)
      → t.load_error ≡ none
      → t.form ≡ s.form
      → Loaded outcome s (finish_load empty_config sync outcome t)
  unfolding finish_load
  finish_load-Loaded (resolved cfg) s t e f = ground arith
  finish_load-Loaded (rejected err) s t e f = ground arith

  -- After any events, a form that is loading ends its load by the answer of the last one: it shows the
  -- stored configuration, an empty one if there is none (404), or else the error in place of the form, unless
  -- the error's message is empty, which leaves the form as it was before the load.
  pub load_ends :
      (blank : X) (es : List (FormEvent T X)) (outcome : Outcome T)
      → let s = run empty_config sync (mount empty_config sync blank) es in
        s.loading ≡ true
        → let t = step empty_config sync s (load_settled s.generation outcome) in
          (t.loading ≡ false) × Loaded outcome s t
  unfolding step
  load_ends blank es outcome l =
      let s = run empty_config sync (mount empty_config sync blank) es in
      let h = run-Awaits (mount empty_config sync blank) es (mount-Awaits blank) in
      rw (load_known outcome s (h.awaited ∙ l))
        ((finish_load-frame outcome _).2, finish_load-Loaded outcome s _ (h.clear l) refl)
