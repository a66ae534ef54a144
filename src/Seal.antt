-- ===== src/Seal.antt =====
-- web/src/components/Seal.tsx: the verification tier of a job, read off its events, and what the
-- ring shows for it. Fractions are hundredths.
pub mod Laws
mod Tests
use backup_orchestration_pla.Common.{
  ℕ, ◌≡◌, ◌↔◌, Bool, true, false, List, any, if◌then◌else◌, ltb, arith,
}
use backup_orchestration_pla.Common.Text.{Text, codes}
use backup_orchestration_pla.Wire.{
  BopEvent, EventType, backup_failed, restore_verification_completed,
  repository_verification_completed, artifact_created,
}

pub data SealTier : Type 0 where
  none structural storage restored failed : SealTier

pub EventType-discrete : Discrete EventType
EventType-discrete = hlevel

unfoldable pub same_type : EventType → EventType → Bool
unfolding EventType-discrete
same_type a b = elim (EventType-discrete a b) [ yes _ ↦ true | no _ ↦ false ]

pub same_type_iff : (a b : EventType) → (same_type a b ≡ true) ↔ (a ≡ b)
unfolding same_type
same_type_iff a b = ground arith

-- `types.has(t)`, for the set `types` of the events' types.
unfoldable pub has_type : EventType → List BopEvent → Bool
has_type t events = any (λ e. same_type e.type t) events

unfoldable pub seal_tier_for_events : List BopEvent → SealTier
seal_tier_for_events events =
    if has_type backup_failed events
    then failed
    else if has_type restore_verification_completed events
    then restored
    else if has_type repository_verification_completed events
    then storage
    else if has_type artifact_created events
    then structural
    else none

abbrev pub tier_fraction : SealTier → ℕ
tier_fraction none = 0
tier_fraction structural = 34
tier_fraction storage = 67
tier_fraction restored = 100
tier_fraction failed = 100

abbrev pub tier_label : SealTier → Text
tier_label none = codes "Not yet verified"
tier_label structural = codes "Artifact produced"
tier_label storage = codes "Storage integrity confirmed"
tier_label restored = codes "Restore-tested"
tier_label failed = codes "Backup failed"

pub data RingClass : Type 0 where
  progress complete failed_ring : RingClass

abbrev ring_class : SealTier → RingClass
ring_class failed = failed_ring
ring_class restored = complete
ring_class _ = progress

pub data Mark : Type 0 where
  no_mark check_mark cross_mark : Mark

abbrev mark_of : SealTier → Mark
mark_of restored = check_mark
mark_of failed = cross_mark
mark_of _ = no_mark

-- What `Seal` renders: the label, the arc (drawn only for a positive fraction), and the mark.
pub record SealView : Type 0 where
  pub label : Text
  pub arc_drawn : Bool
  pub arc : ℕ
  pub ring : RingClass
  pub mark : Mark

pub seal_view : SealTier → SealView
seal_view tier = record {
  label = tier_label tier;
  arc_drawn = ltb 0 (tier_fraction tier);
  arc = tier_fraction tier;
  ring = ring_class tier;
  mark = mark_of tier;
}
