-- ===== src/PluginConfig/Saving.antt =====
-- The save of a form: one at a time, and it ends in the confirmation or in one error.
use backup_orchestration_pla.Common.{
  ℕ, zero, suc, ◌≡◌, refl, true, false, none, some, List, [], ◌∷◌, arith, if◌then◌else◌,
}
use backup_orchestration_pla.Failure.{Outcome, resolved, rejected}
use backup_orchestration_pla.PluginConfig.{
  ConfigForm, FormEvent, target_changed, edited, submitted, load_settled, save_settled,
  save_failure, form_shown, finish_load, load_answered, finish_save, save_answered, load_effect,
  step, run, mount,
}

module _ {T X : Type 0} where
  pub record Saves (s : ConfigForm T X) : Type 0 where
    pub counted : s.saves ≡ (if s.saving then 1 else 0)
    pub exclusive : s.saved ≡ true → s.save_error ≡ none
    pub busy : s.saving ≡ true → (s.saved ≡ false) × (s.save_error ≡ none)

module _ {T X : Type 0} (empty_config : T) (sync : T → X) where
  load_answered-Saves :
      (g : ℕ) (outcome : Outcome T) (s : ConfigForm T X)
      → Saves s
      → Saves (load_answered empty_config sync g outcome s)
  unfolding load_answered finish_load
  load_answered-Saves g (resolved cfg) s h = ground arith
  load_answered-Saves g (rejected err) s h = ground arith

  save_answered-Saves :
      (n : ℕ) (outcome : Outcome T) (s : ConfigForm T X)
      → s.saves ≡ n
      → Saves s
      → Saves (save_answered empty_config sync n outcome s)
  unfolding save_answered
  save_answered-Saves zero outcome s e h = h
  save_answered-Saves (suc n) (resolved updated) s e h = ground arith
  save_answered-Saves (suc n) (rejected err) s e h = ground arith

  step-Saves :
      (s : ConfigForm T X) (e : FormEvent T X) → Saves s → Saves (step empty_config sync s e)
  unfolding step
  step-Saves s target_changed h = record {
    counted = h.counted;
    exclusive = h.exclusive;
    busy = h.busy;
  }
  step-Saves s (edited form texts) h = ground arith
  step-Saves s submitted h = ground arith
  step-Saves s (load_settled g outcome) h = load_answered-Saves g outcome s h
  step-Saves s (save_settled outcome) h = save_answered-Saves s.saves outcome s refl h

  run-Saves :
      (s : ConfigForm T X) (es : List (FormEvent T X))
      → Saves s
      → Saves (run empty_config sync s es)
  unfolding run
  run-Saves s [] h = h
  run-Saves s (e ∷ es) h = run-Saves (step empty_config sync s e) es (step-Saves s e h)

  mount-Saves : (blank : X) → Saves (mount empty_config sync blank)
  unfolding mount
  mount-Saves blank = record { counted = refl; exclusive = λ h. refl; busy = λ h. (refl, refl) }

  -- What a form shows when its save has ended.
  abbrev pub Ended : Outcome T → ConfigForm T X → ConfigForm T X → Type 0
  Ended (resolved updated) s t =
      (t.saved ≡ true) × (t.save_error ≡ none) × (t.form ≡ updated) × (t.texts ≡ sync updated)
  Ended (rejected err) s t =
      (t.saved ≡ false)
      × (t.save_error ≡ some (save_failure err))
      × (t.form ≡ s.form)
      × (t.texts ≡ s.texts)

  save_settles :
      (outcome : Outcome T) (s : ConfigForm T X)
      → Saves s
      → s.saving ≡ true
      → let t = step empty_config sync s (save_settled outcome) in
        (t.saving ≡ false) × (t.saves ≡ 0) × Ended outcome s t
  unfolding step
  save_settles (resolved updated) s h b = ground arith
  save_settles (rejected err) s h b = ground arith

  -- After any events, a form that is saving has one save in flight, and shows neither the confirmation nor an
  -- error; the answer ends the save: either the form shows the configuration that the controller returned,
  -- with the confirmation alone, or it keeps what was typed, with the error alone.
  pub save_ends :
      (blank : X) (es : List (FormEvent T X)) (outcome : Outcome T)
      → let s = run empty_config sync (mount empty_config sync blank) es in
        s.saving ≡ true
        → let t = step empty_config sync s (save_settled outcome) in
          (s.saves ≡ 1)
          × (s.saved ≡ false)
          × (s.save_error ≡ none)
          × (t.saving ≡ false)
          × (t.saves ≡ 0)
          × Ended outcome s t
  save_ends blank es outcome b =
      let h = run-Saves (mount empty_config sync blank) es (mount-Saves blank) in
      let t = save_settles outcome _ h b in
      (ground (arith, h.counted), (h.busy b).0, (h.busy b).1, t.0, t.1, t.2)

  -- The hook, left mounted while its target changes during a save: the new configuration is loaded and shown, and
  -- the answer to the save then puts the one of the former target in its place, as saved. The console mounts the
  -- page anew for every path.
  pub late_save_shows :
      (s : ConfigForm T X) (cfg updated : T) {n : ℕ}
      → s.saves ≡ suc n
      → let t =
          step empty_config sync
            (step empty_config sync s target_changed)
            (load_settled (suc s.generation) (resolved cfg)) in
        let u = step empty_config sync t (save_settled (resolved updated)) in
        (form_shown t ≡ true)
        × (t.form ≡ cfg)
        × (form_shown u ≡ true)
        × (u.form ≡ updated)
        × (u.saved ≡ true)
  unfolding step load_effect load_answered finish_load save_answered finish_save
  late_save_shows s cfg updated e = ground arith
