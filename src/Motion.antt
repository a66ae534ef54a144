-- ===== src/Motion.antt =====
-- web/src/lib/motion.ts and web/src/hooks/usePrefersReducedMotion.ts: how the rows of a list come in. Times
-- are hundredths of a second. The browser's media query is the environment: `matches`, and its events.
mod Tests
use backup_orchestration_pla.Common.{
  All, or_default, ℕ, zero, suc, ◌+◌, ◌*◌, ◌≤◌, ◌≡◌, refl, sym, subst, min, Bool, true, false,
  Option, none, some, List, [], ◌∷◌, arith, if◌then◌else◌,
}

pub record Transition : Type 0 where
  pub duration : ℕ
  pub delay : Option ℕ

unfoldable pub stagger_transition : Bool → ℕ → ℕ → Transition
stagger_transition reduce_motion index cap =
    if reduce_motion
    then record { duration = 0; delay = none }
    else record { duration = 15; delay = some (min index cap * 2) }

-- One mounted use of the hook: its state, whether it listens, and what the query matches.
pub record Preference : Type 0 where
  pub reduced : Bool
  pub listening : Bool
  pub matches : Bool

unfoldable pub mount : Bool → Preference
mount matches = record { reduced = matches; listening = true; matches = matches }

pub data Event : Type 0 where
  changed : Bool → Event
  unmounted : Event

unfoldable pub step : Preference → Event → Preference
step s (changed m) =
    if s.listening then record s { matches = m; reduced = m } else record s { matches = m }
step s unmounted = record s { listening = false }

unfoldable pub run : Preference → List Event → Preference
run s [] = s
run s (e ∷ es) = run (step s e) es

-- The time by which a row has come in.
abbrev pub total : Transition → ℕ
total t = or_default t.delay 0 + t.duration

-- A list of any length has come in by the time of its row `cap`, in the order of its rows; and at once where
-- the user wants no motion.
pub rows_come_in :
    (cap i j : ℕ)
    → i ≤ j
    → (total (stagger_transition false i cap) ≤ total (stagger_transition false j cap))
      × (total (stagger_transition false j cap) ≤ total (stagger_transition false cap cap))
      × (total (stagger_transition true j cap) ≡ 0)
unfolding stagger_transition
rows_come_in cap i j h = omega arith

abbrev StaysMounted : Event → Type 0
StaysMounted (changed m) = Unit
StaysMounted unmounted = ⊥

heard :
    (s : Preference) (m : Bool)
    → s.listening ≡ true
    → step s (changed m) ≡ record s { matches = m; reduced = m }
unfolding step
heard s m l = ground arith

follows :
    (s : Preference) (es : List Event)
    → All StaysMounted es
    → s.listening ≡ true
    → s.reduced ≡ s.matches
    → (run s es).reduced ≡ (run s es).matches
unfolding run
follows s [] k l h = h
follows s (changed m ∷ es) k l h =
    subst (λ t. (run t es).reduced ≡ (run t es).matches) (sym (heard s m l))
      (follows (record s { matches = m; reduced = m }) es k.1 l refl)
follows s (unmounted ∷ es) k l h = absurd k.0

-- While the component is mounted, the hook has what the media query matches.
pub preference_followed :
    (matches : Bool) (es : List Event)
    → All StaysMounted es
    → let s = run (mount matches) es in s.reduced ≡ s.matches
unfolding mount
preference_followed matches es k = follows (mount matches) es k refl refl
