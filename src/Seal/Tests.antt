-- ===== src/Seal/Tests.antt =====
-- The seal at concrete event lists.
use backup_orchestration_pla.Common.{true, ◌≡◌, refl, ◌↔◌, List, [], ◌∷◌, ◌++◌}
use backup_orchestration_pla.Common.Text.{codes}
use backup_orchestration_pla.Wire.{
  BopEvent, EventType, backup_failed, backup_started, artifact_created,
  repository_verification_completed,
}
use backup_orchestration_pla.Seal.{
  storage, restored, failed, seal_tier_for_events, has_type, same_type, EventType-discrete,
  complete, check_mark, seal_view,
}
use backup_orchestration_pla.Seal.Laws.{Means, tier_iff}

abbrev event : EventType → BopEvent
event t = record {
  type = t;
  job_id = codes "job-1";
  host = codes "web";
  plugin = codes "postgres";
  resource = [];
  fields = [];
  timestamp = codes "2024-03-10T12:00:00Z";
}

abbrev verified : List BopEvent
verified =
    event repository_verification_completed ∷ event artifact_created ∷ event backup_started ∷ []

verified_tier :
    (seal_tier_for_events verified ≡ storage)
    × (seal_tier_for_events (verified ++ event backup_failed ∷ []) ≡ failed)
unfolding seal_tier_for_events has_type same_type EventType-discrete
verified_tier = (refl, refl)

restored_ring : seal_view restored ≡ record {
  label = codes "Restore-tested";
  arc_drawn = true;
  arc = 100;
  ring = complete;
  mark = check_mark;
}
unfolding seal_view
restored_ring = refl

tier_iff_example : (seal_tier_for_events verified ≡ storage) ↔ Means storage verified
tier_iff_example = tier_iff verified storage
