-- ===== src/App.antt =====
-- web/src/App.tsx and web/src/components/AppShell.tsx: the route table, the screens, and the navigation. The
-- matching of one pattern with a path is react-router's and an argument, `matches`: the values of the pattern's
-- parameters. No path fits two patterns of the table, so the rank that react-router gives them has no say, and
-- `*` comes last. The path is taken as the router gets it, behind the browser's rewriting of dot segments.
pub mod Links
mod Tests
use backup_orchestration_pla.Common.{
  ℕ, zero, suc, Bool, true, false, Option, none, some, List, [], ◌∷◌, head?, or_default,
  if◌then◌else◌,
}
use backup_orchestration_pla.Common.Text.{Text, codes}

pub data Segment : Type 0 where
  literal : Text → Segment
  param : Segment

-- The elements of the routes.
pub data Element : Type 0 where
  dashboard_page hosts_page plugin_config_page jobs_page job_detail_page snapshots_page
        events_page :
      Element

-- The routes under the shell, without `*`.
abbrev pub routes : List (List Segment × Element)
routes =
    ([], dashboard_page)
    ∷ (literal (codes "hosts") ∷ [], hosts_page)
    ∷ (
      literal (codes "hosts")
          ∷ param
          ∷ literal (codes "plugins")
          ∷ param
          ∷ literal (codes "config")
          ∷ [],
      plugin_config_page,
    )
    ∷ (literal (codes "jobs") ∷ [], jobs_page)
    ∷ (literal (codes "jobs") ∷ param ∷ [], job_detail_page)
    ∷ (literal (codes "snapshots") ∷ [], snapshots_page)
    ∷ (literal (codes "events") ∷ [], events_page)
    ∷ []

-- What is on the screen: the connect page, or a page under the shell with its parameters.
pub data Screen : Type 0 where
  connect dashboard hosts jobs snapshots events : Screen
  plugin_config : (host plugin : Text) → Screen
  job_detail : Text → Screen

-- `useParams` of a page, with its defaults.
abbrev pub parameter : ℕ → List Text → Text
parameter n [] = []
parameter zero (v ∷ vs) = v
parameter (suc n) (v ∷ vs) = parameter n vs

abbrev pub screen_of : Element → List Text → Screen
screen_of dashboard_page vs = dashboard
screen_of hosts_page vs = hosts
screen_of plugin_config_page vs = plugin_config (parameter 0 vs) (parameter 1 vs)
screen_of jobs_page vs = jobs
screen_of job_detail_page vs = job_detail (parameter 0 vs)
screen_of snapshots_page vs = snapshots
screen_of events_page vs = events

-- The screen of a route that fits with these values, or else what the later routes give.
abbrev pub shown : Element → Screen → Option (List Text) → Screen
shown element rest none = rest
shown element rest (some vs) = screen_of element vs

-- `NAV_ITEMS`: the targets and the labels.
abbrev pub nav_items : List (Text × Text)
nav_items =
    (codes "/", codes "Dashboard")
    ∷ (codes "/hosts", codes "Hosts")
    ∷ (codes "/jobs", codes "Jobs")
    ∷ (codes "/snapshots", codes "Snapshots")
    ∷ (codes "/events", codes "Events")
    ∷ []

module _ (matches : List Segment → Text → Option (List Text)) where
  -- The screen of the first route that fits, and that of `*`.
  unfoldable pub route : List (List Segment × Element) → Text → Screen
  route [] path = dashboard
  route ((pattern, element) ∷ table) path =
      let rest = route table path in shown element rest (matches pattern path)

  -- `Router`
  unfoldable pub router : Bool → Text → Screen
  unfolding route
  router connected path = if connected then route routes path else connect
