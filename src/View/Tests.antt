-- ===== src/View/Tests.antt =====
-- The notices of a list page, and some rows.
use backup_orchestration_pla.Common.{ℕ, ◌≡◌, inr, refl, false, none, some, List, [], ◌∷◌, arith}
use backup_orchestration_pla.Common.Text.{Text, codes}
use backup_orchestration_pla.Failure.{resolved, rejected, api_error}
use backup_orchestration_pla.Client.{Response, conclude}
use backup_orchestration_pla.Format.{Offset, behind, hour, relative, format_relative}
use backup_orchestration_pla.Uri.{encode_uri_component, scalars, classify, encode_scalar}
use backup_orchestration_pla.Common.Text.Split.{join}
use backup_orchestration_pla.UseApi.{ApiState, Event, answered, step, mount, foreground}
use backup_orchestration_pla.Wire.{Host, BopEvent, backup_started}
use backup_orchestration_pla.View.{notices}
use backup_orchestration_pla.View.Notices.{silent_failure}
use backup_orchestration_pla.View.Rows.{
  host_row, event_row, snapshot_row, timeline_item, feed_item, informix_link, job_link,
}

abbrev no_items : List (Event ℕ (List ℕ))
no_items = answered 1 (resolved []) ∷ []

-- An answer of a proxy over HTTP/2: no status text, and a body that is not JSON.
abbrev bad_gateway : Response (List ℕ)
bad_gateway = record { status = 502; status_text = []; json = none; error = none }

abbrev page : ApiState ℕ (List ℕ)
page = mount 7 none false

silent_failure_example :
    let t = step page (answered page.request_id (rejected (api_error 502 []))) in
    (conclude bad_gateway ≡ rejected (api_error 502 []))
    × (notices t (codes "Loading jobs") (codes "No jobs") none ≡ [])
    × (t.value ≡ none)
unfolding mount
silent_failure_example =
    silent_failure page bad_gateway (record { id = 1; kind = foreground; deps = 7 })
      (codes "Loading jobs") (codes "No jobs") none (inr (omega arith)) refl refl refl refl refl

abbrev an_hour_ago : Text → Offset
an_hour_ago iso = behind 3600000

abbrev same_text : Text → Text
same_text iso = iso

abbrev web : Host
web = record {
  name = codes "a/b";
  host = codes "10.0.0.1";
  plugins = codes "informix" ∷ codes "postgres" ∷ [];
  schedule = [];
}

abbrev started : BopEvent
started = record {
  type = backup_started;
  job_id = [];
  host = [];
  plugin = codes "postgres";
  resource = [];
  fields = (codes "size", codes "10") ∷ [];
  timestamp = codes "t";
}

rows_shown : Unit {0}
unfolding feed_item event_row timeline_item snapshot_row host_row informix_link job_link
    format_relative
rows_shown = tt

shown_feed :
    feed_item an_hour_ago same_text started
    ≡ record { type = backup_started; host = []; when = relative (behind 1) hour }
unfolding rows_shown
shown_feed = refl

shown_event :
    event_row an_hour_ago same_text started
    ≡ some (record {
      type = backup_started;
      host = 0x2014 ∷ [];
      job = none;
      exact = codes "t";
      when = relative (behind 1) hour;
    })
unfolding rows_shown
shown_event = refl

shown_host :
    host_row web
    ≡ some (record {
      name = codes "a/b";
      address = codes "10.0.0.1";
      plugins = codes "informix, postgres";
      schedule = 0x2014 ∷ [];
      configure = codes "/hosts/a%2Fb/plugins/informix/config";
    })
unfolding rows_shown encode_uri_component scalars classify encode_scalar join
shown_host = refl
