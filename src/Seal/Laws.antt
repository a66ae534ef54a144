-- ===== src/Seal/Laws.antt =====
-- The tier depends on the set of event types only, and never falls as events arrive.
use Prim.Native.Nat.{max}
use backup_orchestration_pla.Common.{
  ℕ, ◌≡◌, refl, ◌↔◌, true, false, ◌||◌, subst, inl, inr, Bool-cases, List, [], ◌∷◌, ◌++◌, arith,
}
use backup_orchestration_pla.Wire.{
  BopEvent, EventType, backup_failed, restore_verification_completed,
  repository_verification_completed, artifact_created,
}
use backup_orchestration_pla.Seal.{
  seal_view, check_mark, cross_mark, SealTier, none, structural, storage, restored, failed,
  has_type, same_type, same_type_iff, seal_tier_for_events,
}

-- The order of the tiers: the verification tiers upwards, and failure above them all.
abbrev pub rank : SealTier → ℕ
rank none = 0
rank structural = 1
rank storage = 2
rank restored = 3
rank failed = 4

has_type-append :
    (t : EventType) (xs ys : List BopEvent)
    → has_type t (xs ++ ys) ≡ (has_type t xs || has_type t ys)
unfolding has_type
has_type-append t [] ys = refl
has_type-append t (x ∷ xs) ys = ground (arith, has_type-append t xs ys)

-- The tier of all events together is the higher of the tiers of its two parts.
pub rank-append :
    (xs ys : List BopEvent)
    → rank (seal_tier_for_events (xs ++ ys))
      ≡ max (rank (seal_tier_for_events xs)) (rank (seal_tier_for_events ys))
unfolding seal_tier_for_events
rank-append xs ys = ground (
  arith,
  has_type-append backup_failed xs ys,
  has_type-append restore_verification_completed xs ys,
  has_type-append repository_verification_completed xs ys,
  has_type-append artifact_created xs ys,
)

-- `t` is the type of one of the events.
pub data Happened (t : EventType) : List BopEvent → Type 0 where
  now : {e : BopEvent} {es : List BopEvent} → e.type ≡ t → Happened t (e ∷ es)
  later : {e : BopEvent} {es : List BopEvent} → Happened t es → Happened t (e ∷ es)

has_type_sound : (t : EventType) (es : List BopEvent) → has_type t es ≡ true → Happened t es
unfolding has_type
has_type_sound t [] h = cc
has_type_sound t (e ∷ es) h = elim (Bool-cases (same_type e.type t)) [
  | inl same ↦ now ((same_type_iff e.type t).0 same)
  | inr other ↦ later (has_type_sound t es (ground arith))
]

has_type_complete : (t : EventType) {es : List BopEvent} → Happened t es → has_type t es ≡ true
unfolding has_type
has_type_complete t (now {e} same) = ground (arith, same_type_iff e.type t)
has_type_complete t (later h) = ground (arith, has_type_complete t h)

abbrev pub Never : EventType → List BopEvent → Type 0
Never t es = ¬ (Happened t es)

-- What each tier asserts of the events, from the failure downwards.
abbrev pub Means : SealTier → List BopEvent → Type 0
Means failed es = Happened backup_failed es
Means restored es = Never backup_failed es × Happened restore_verification_completed es
Means storage es =
    Never backup_failed es
    × Never restore_verification_completed es
    × Happened repository_verification_completed es
Means structural es =
    Never backup_failed es
    × Never restore_verification_completed es
    × Never repository_verification_completed es
    × Happened artifact_created es
Means none es =
    Never backup_failed es
    × Never restore_verification_completed es
    × Never repository_verification_completed es
    × Never artifact_created es

absent : (t : EventType) (es : List BopEvent) → has_type t es ≡ false → Never t es
absent t es h happened = cc (h, has_type_complete t happened)

-- The tier shown holds of the events, whichever tier it is.
pub tier-Means : (es : List BopEvent) → Means (seal_tier_for_events es) es
unfolding seal_tier_for_events
tier-Means es = ground (
  arith,
  has_type_sound backup_failed es,
  has_type_sound restore_verification_completed es,
  has_type_sound repository_verification_completed es,
  has_type_sound artifact_created es,
  absent backup_failed es,
  absent restore_verification_completed es,
  absent repository_verification_completed es,
  absent artifact_created es,
)

Means-unique : (s t : SealTier) (es : List BopEvent) → Means s es → Means t es → s ≡ t
Means-unique s t es h k = ground arith

-- The tier is the one whose meaning holds, and no other.
pub tier_iff : (es : List BopEvent) (t : SealTier) → (seal_tier_for_events es ≡ t) ↔ Means t es
tier_iff es t =
    (λ e. subst (λ u. Means u es) e (tier-Means es), λ h. Means-unique _ t es (tier-Means es) h)

-- Which events put the cross, and which the check mark, into the ring.
pub mark_iff :
    (events : List BopEvent)
    → let mark = (seal_view (seal_tier_for_events events)).mark in
      ((mark ≡ cross_mark) ↔ (has_type backup_failed events ≡ true))
      × ((mark ≡ check_mark) ↔ (
          (has_type backup_failed events ≡ false)
          × (has_type restore_verification_completed events ≡ true)))
unfolding seal_view seal_tier_for_events
mark_iff events = ground arith
