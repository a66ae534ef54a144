-- ===== src/Pages/Launcher.antt =====
-- What web/src/pages/DashboardPage.tsx and JobsPage.tsx have in common: the inventory, the jobs, and the
-- dialog that queues a backup. `D` are the dependencies of the page's jobs.
pub mod Phase
pub mod Requests
pub mod Served
pub mod Silence
use backup_orchestration_pla.Common.{
  ℕ, Bool, true, false, not, ◌&&◌, Option, none, some, List, [], ◌∷◌, if◌then◌else◌,
}
use backup_orchestration_pla.Common.Text.{Text, is_given}
use backup_orchestration_pla.Failure.{Outcome}
use backup_orchestration_pla.Wire.{Host, Job}
use backup_orchestration_pla.UseApi
use backup_orchestration_pla.UseApi.{ApiState}
use backup_orchestration_pla.Modal
use backup_orchestration_pla.Modal.{Modal}
use backup_orchestration_pla.Pages.{listed}

-- `hosts` is `hostsState`, without an interval; `jobs` is `jobsState`.
pub record Launcher (D : Type 0) : Type 0 where
  pub hosts : ApiState (Unit {0}) (List Host)
  pub jobs : ApiState D (List Job)
  pub dialog : Modal
  pub show_trigger : Bool

-- What happens to the page. The hook of the hosts is never reloaded; `closed` is a call of `onClose`, by a
-- button of the dialog, its backdrop or the Escape key.
pub data LauncherEvent (D : Type 0) : Type 0 where
  hosts_answered : ℕ → Outcome (List Host) → LauncherEvent D
  jobs_answered : ℕ → Outcome (List Job) → LauncherEvent D
  jobs_deps : D → LauncherEvent D
  ticked retried trigger_clicked closed submitted : LauncherEvent D
  visibility : Bool → LauncherEvent D
  host_selected plugin_selected : Text → LauncherEvent D
  trigger_answered : Outcome Text → LauncherEvent D

-- The hosts hook after an event of its own; the dialog has its list as a property.
pub update_hosts : {D : Type 0} → UseApi.Event (Unit {0}) (List Host) → Launcher D → Launcher D
update_hosts e s =
    let hosts = UseApi.step s.hosts e in
    record s {
      hosts = hosts;
      dialog = Modal.step s.dialog (Modal.hosts_loaded (listed hosts.value));
    }

pub update_jobs : {D : Type 0} → UseApi.Event D (List Job) → Launcher D → Launcher D
update_jobs e s = record s { jobs = UseApi.step s.jobs e }

pub update_dialog : {D : Type 0} → Modal.Event → Launcher D → Launcher D
update_dialog e s = record s { dialog = Modal.step s.dialog e }

-- `disabled={!hostsState.data?.length}`
abbrev pub can_trigger : List Host → Bool
can_trigger [] = false
can_trigger (h ∷ hs) = true

-- `setShowTrigger(true)`
pub show : {D : Type 0} → Launcher D → Launcher D
unfolding update_dialog
show s = update_dialog Modal.opened (record s { show_trigger = true })

-- `onClose`: the dialog goes, and the jobs are loaded again.
pub close : {D : Type 0} → Launcher D → Launcher D
unfolding update_dialog update_jobs
close s = update_jobs UseApi.reload (update_dialog Modal.closed (record s { show_trigger = false }))

module _ {D : Type 0} where
  unfoldable pub step : Launcher D → LauncherEvent D → Launcher D
  unfolding update_hosts update_jobs update_dialog show close
  step s (hosts_answered id outcome) = update_hosts (UseApi.answered id outcome) s
  step s (jobs_answered id outcome) = update_jobs (UseApi.answered id outcome) s
  step s (jobs_deps d) = update_jobs (UseApi.deps_changed d (some 5000)) s
  step s ticked = update_jobs UseApi.tick s
  step s retried = if is_given s.jobs.error then update_jobs UseApi.reload s else s
  step s (visibility hidden) =
      update_jobs (UseApi.visibility hidden) (update_hosts (UseApi.visibility hidden) s)
  step s trigger_clicked = if can_trigger (listed s.hosts.value) then show s else s
  step s closed = if s.show_trigger then close s else s
  step s submitted = update_dialog Modal.submitted s
  step s (host_selected v) = update_dialog (Modal.host_selected v) s
  step s (plugin_selected p) = update_dialog (Modal.plugin_selected p) s
  step s (trigger_answered outcome) = update_dialog (Modal.answered outcome) s

  unfoldable pub run : Launcher D → List (LauncherEvent D) → Launcher D
  run s [] = s
  run s (e ∷ es) = run (step s e) es

  -- The page is mounted.
  unfoldable pub mount : D → Bool → Launcher D
  mount d hidden = record {
    hosts = UseApi.mount tt none hidden;
    jobs = UseApi.mount d (some 5000) hidden;
    dialog = Modal.mount [];
    show_trigger = false;
  }
