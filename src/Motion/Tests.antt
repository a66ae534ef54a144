-- ===== src/Motion/Tests.antt =====
-- Rows that come in, and a preference that changes.
use backup_orchestration_pla.Common.{◌≡◌, refl, true, false, some, [], ◌∷◌}
use backup_orchestration_pla.Motion.{stagger_transition, mount, step, run, changed, unmounted}

third_row : stagger_transition false 3 12 ≡ record { duration = 15; delay = some 6 }
unfolding stagger_transition
third_row = refl

after_unmount : (run (mount false) (unmounted ∷ changed true ∷ [])).reduced ≡ false
unfolding run step mount
after_unmount = refl
