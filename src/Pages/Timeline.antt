-- ===== src/Pages/Timeline.antt =====
-- What web/src/pages/JobDetailPage.tsx renders: the job, its seal, and the events in their order.
use backup_orchestration_pla.Common.{
  ℤ, pos, negsuc, suc, ◌≡◌, ◌↔◌, refl, sym, ap, ◌∙◌, Bool, true, false, ◌||◌, Option, none, some,
  List, [], ◌∷◌, ◌++◌, map, any, if◌then◌else◌, arith,
}
use backup_orchestration_pla.Common.Text.{Text, codes, is_given}
use backup_orchestration_pla.Client.Paths.{decimal}
use backup_orchestration_pla.Format.{Offset, Relative}
use backup_orchestration_pla.Wire.{
  Job, Policy, BopEvent, EventType, backup_failed, restore_verification_completed,
}
use backup_orchestration_pla.Seal.{
  SealView, seal_view, seal_tier_for_events, has_type, same_type, check_mark, cross_mark,
}
use backup_orchestration_pla.Seal.Laws.{mark_iff}
use backup_orchestration_pla.UseApi.{ApiState}
use backup_orchestration_pla.View.{Notice, nothing, spinner, error_notice, pill}
use backup_orchestration_pla.View.Rows.{TimelineItem, timeline_item, relative_of}
use backup_orchestration_pla.Pages.{insert, sort, listed, events_shown, oldest_first}
use backup_orchestration_pla.Pages.Detail.{Detail}

pub record JobCard : Type 0 where
  pub seal : SealView
  pub host : Text
  pub plugin : Text
  pub id : Text
  pub status : Text
  pub queued_exact : Text
  pub queued : Relative
  pub retention : Text
  pub notices : List Notice
  pub timeline : List TimelineItem

-- The page of an error, or the page of a job, which has a card once the job is there.
pub data DetailView : Type 0 where
  failure_page : List Notice → DetailView
  job_page : List Notice → Option JobCard → DetailView

-- `{n}`, for an integer.
abbrev pub whole : ℤ → Text
whole (pos n) = decimal n
whole (negsuc n) = codes "-" ++ decimal (suc n)

-- `{daily}d / {weekly}w / {monthly}m / {yearly}y`
abbrev pub retention_text : Policy → Text
retention_text p =
    whole p.daily
    ++ (codes "d / "
        ++ (whole p.weekly
            ++ (codes "w / "
                ++ (whole p.monthly ++ (codes "m / " ++ (whole p.yearly ++ codes "y"))))))

-- `events.length === 0 && !eventsState.loading && <EmptyState …/>`
abbrev pub no_events : Bool → List BopEvent → List Notice
no_events true events = []
no_events false [] = nothing (codes "No events recorded for this job yet") none ∷ []
no_events false (e ∷ es) = []

module _ (lte : Text → Text → Bool) (offset_of : Text → Offset) (exact_of : Text → Text) where
  unfoldable pub job_card : Job → ApiState Text (List BopEvent) → JobCard
  job_card job s =
      let events = events_shown lte s.value in
      record {
        seal = seal_view (seal_tier_for_events (listed s.value));
        host = job.host;
        plugin = job.plugin;
        id = job.id;
        status = pill job.status;
        queued_exact = exact_of job.queued_at;
        queued = relative_of offset_of exact_of job.queued_at;
        retention = retention_text job.policy;
        notices =
            spinner s.loading (codes "Loading events")
            ++ (error_notice true s.error ++ no_events s.loading events);
        timeline = map (timeline_item offset_of exact_of) events;
      }

  abbrev pub card_of : Option Job → ApiState Text (List BopEvent) → Option JobCard
  card_of none s = none
  card_of (some job) s = some (job_card job s)

  unfoldable pub detail_view : Detail → DetailView
  unfolding job_card
  detail_view s =
      if is_given s.job.error
      then failure_page (error_notice true s.job.error)
      else job_page (spinner s.job.loading (codes "Loading job")) (card_of s.job.value s.events)

any-insert :
    {A : Type 0} (p : A → Bool) (lte : A → A → Bool) (x : A) (xs : List A)
    → any p (insert lte x xs) ≡ (p x || any p xs)
unfolding insert
any-insert p lte x [] = refl
any-insert p lte x (y ∷ xs) = ground (arith, any-insert p lte x xs)

pub any-sort :
    {A : Type 0} (p : A → Bool) (lte : A → A → Bool) (xs : List A) → any p (sort lte xs) ≡ any p xs
unfolding sort
any-sort p lte [] = refl
any-sort p lte (x ∷ xs) = any-insert p lte x (sort lte xs) ∙ ap (p x ||◌) (any-sort p lte xs)

-- An item of the type is on the timeline.
abbrev pub on_timeline : EventType → List TimelineItem → Bool
on_timeline t items = any (λ (i : TimelineItem). same_type i.type t) items

module _ (lte : Text → Text → Bool) (offset_of : Text → Offset) (exact_of : Text → Text) where
  on_timeline-map :
      (t : EventType) (events : List BopEvent)
      → on_timeline t (map (timeline_item offset_of exact_of) events)
        ≡ any (λ e. same_type e.type t) events
  unfolding timeline_item
  on_timeline-map t [] = refl
  on_timeline-map t (e ∷ es) = ap (same_type e.type t ||◌) (on_timeline-map t es)

  timeline-has_type :
      (t : EventType) (job : Job) (s : ApiState Text (List BopEvent))
      → has_type t (listed s.value) ≡ on_timeline t (job_card lte offset_of exact_of job s).timeline
  unfolding job_card events_shown has_type
  timeline-has_type t job s = sym (
      on_timeline-map t (sort (oldest_first lte) (listed s.value))
      ∙ any-sort (λ (e : BopEvent). same_type e.type t) (oldest_first lte) (listed s.value))

  -- The seal of a job agrees with the timeline under it: it has the cross exactly if the timeline shows a failed
  -- backup, and the check mark exactly if it shows a restore test and no failed backup.
  pub seal_agrees_with_timeline :
      (job : Job) (s : ApiState Text (List BopEvent))
      → let card = job_card lte offset_of exact_of job s in
        ((card.seal.mark ≡ cross_mark) ↔ (on_timeline backup_failed card.timeline ≡ true))
        × ((card.seal.mark ≡ check_mark) ↔ (
            (on_timeline backup_failed card.timeline ≡ false)
            × (on_timeline restore_verification_completed card.timeline ≡ true)))
  unfolding job_card
  seal_agrees_with_timeline job s =
      rw
        (
          sym (timeline-has_type backup_failed job s),
          sym (timeline-has_type restore_verification_completed job s),
        )
        (mark_iff (listed s.value))
