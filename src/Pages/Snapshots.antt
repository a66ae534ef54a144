-- ===== src/Pages/Snapshots.antt =====
-- web/src/pages/SnapshotsPage.tsx: the inventory, the host that is chosen, and the snapshots of that host. For
-- no host the fetcher resolves to an empty list; both kinds of request are answered by the environment.
use backup_orchestration_pla.Common.{
  ℕ, ◌≡◌, refl, subst, ◌∙◌, Bool, true, false, Bool-cases, inl, inr, none, some, List, [], ◌∷◌, any,
  if◌then◌else◌,
}
use backup_orchestration_pla.Common.Text.{Text, text_eq, is_given}
use backup_orchestration_pla.Failure.{Failure, failure_message, Outcome, rejected}
use backup_orchestration_pla.Wire.{Host, Snapshot}
use backup_orchestration_pla.UseApi
use backup_orchestration_pla.UseApi.{ApiState, Request, has_id, foreground}
use backup_orchestration_pla.UseApi.Invariant.{Inv, step-Inv, mount-Inv}
use backup_orchestration_pla.UseApi.Current.{
  Says, Current, step-Current, mount-Current, failed_load,
}
use backup_orchestration_pla.UseApi.Frames.{
  KeepsInputs, step-inputs, deps-changed, mount-inputs, deps_load,
}
use backup_orchestration_pla.Pages.{listed, choose_host}

pub record SnapshotsPage : Type 0 where
  pub hosts : ApiState (Unit {0}) (List Host)
  pub host : Text
  pub snapshots : ApiState Text (List Snapshot)

pub data SnapshotsEvent : Type 0 where
  hosts_answered : ℕ → Outcome (List Host) → SnapshotsEvent
  snapshots_answered : ℕ → Outcome (List Snapshot) → SnapshotsEvent
  host_selected : Text → SnapshotsEvent
  retried : SnapshotsEvent
  visibility : Bool → SnapshotsEvent

-- `setHost(next)`, and the effects of the `[host]` of the second hook where the host changes.
pub set_host : Text → SnapshotsPage → SnapshotsPage
set_host next s = if text_eq next s.host then s else record s {
  host = next;
  snapshots = UseApi.step s.snapshots (UseApi.deps_changed next none);
}

unfoldable pub update_snapshots : UseApi.Event Text (List Snapshot) → SnapshotsPage → SnapshotsPage
update_snapshots e s = record s { snapshots = UseApi.step s.snapshots e }

-- The inventory changes, and the effect of `[host, hostsState.data]` runs.
pub update_hosts : UseApi.Event (Unit {0}) (List Host) → SnapshotsPage → SnapshotsPage
unfolding set_host choose_host
update_hosts e s =
    let hosts = UseApi.step s.hosts e in
    set_host (choose_host hosts.value s.host) (record s { hosts = hosts })

-- A selection fires for an option other than the present one.
unfoldable pub step : SnapshotsPage → SnapshotsEvent → SnapshotsPage
unfolding set_host update_hosts update_snapshots
step s (hosts_answered id outcome) = update_hosts (UseApi.answered id outcome) s
step s (snapshots_answered id outcome) = update_snapshots (UseApi.answered id outcome) s
step s (host_selected v) =
    if any (λ h. text_eq h.name v) (listed s.hosts.value) then set_host v s else s
step s retried = if is_given s.snapshots.error then update_snapshots UseApi.reload s else s
step s (visibility hidden) =
    update_snapshots (UseApi.visibility hidden) (update_hosts (UseApi.visibility hidden) s)

unfoldable pub run : SnapshotsPage → List SnapshotsEvent → SnapshotsPage
run s [] = s
run s (e ∷ es) = run (step s e) es

unfoldable pub mount : Bool → SnapshotsPage
mount hidden = record {
  hosts = UseApi.mount tt none hidden;
  host = [];
  snapshots = UseApi.mount [] none hidden;
}

-- What the snapshots of a host are, by the environment.
module _ (Of : Text → List Snapshot → Type 0) where
  abbrev pub Answers : SnapshotsPage → SnapshotsEvent → Type 0
  Answers s (snapshots_answered id outcome) = Says Of s.snapshots (UseApi.answered id outcome)
  Answers s _ = Unit

  abbrev pub Honest : SnapshotsPage → List SnapshotsEvent → Type 0
  Honest s [] = Unit
  Honest s (e ∷ es) = Answers s e × Honest (step s e) es

  record Shows (s : SnapshotsPage) : Type 0 where
    chosen : s.snapshots.deps ≡ s.host
    inv : Inv s.snapshots
    fits : Current Of s.snapshots

  update_snapshots-Shows :
      (e : UseApi.Event Text (List Snapshot)) (s : SnapshotsPage)
      → KeepsInputs e
      → Says Of s.snapshots e
      → Shows s
      → Shows (update_snapshots e s)
  unfolding update_snapshots
  update_snapshots-Shows e s k says h = record {
    chosen = (step-inputs s.snapshots e k).1 ∙ h.chosen;
    inv = step-Inv s.snapshots e h.inv;
    fits = step-Current Of s.snapshots e says h.inv h.fits;
  }

  set_host-Shows : (next : Text) (s : SnapshotsPage) → Shows s → Shows (set_host next s)
  unfolding set_host
  set_host-Shows next s h = elim (Bool-cases (text_eq next s.host)) [
    | inl same ↦ rw same h
    | inr other ↦ rw other (record {
      chosen = (deps-changed s.snapshots next none).0;
      inv = step-Inv s.snapshots (UseApi.deps_changed next none) h.inv;
      fits = step-Current Of s.snapshots (UseApi.deps_changed next none) tt h.inv h.fits;
    })
  ]

  update_hosts-Shows :
      (e : UseApi.Event (Unit {0}) (List Host)) (s : SnapshotsPage)
      → Shows s
      → Shows (update_hosts e s)
  unfolding update_hosts
  update_hosts-Shows e s h =
      let hosts = UseApi.step s.hosts e in
      set_host-Shows (choose_host hosts.value s.host) (record s { hosts = hosts })
        (record { chosen = h.chosen; inv = h.inv; fits = h.fits })

  either-Shows : (b : Bool) {s t : SnapshotsPage} → Shows s → Shows t → Shows (if b then s else t)
  either-Shows true h k = h
  either-Shows false h k = k

  step-Shows : (s : SnapshotsPage) (e : SnapshotsEvent) → Answers s e → Shows s → Shows (step s e)
  unfolding step
  step-Shows s (hosts_answered id outcome) a h = update_hosts-Shows (UseApi.answered id outcome) s h
  step-Shows s (snapshots_answered id outcome) a h =
      update_snapshots-Shows (UseApi.answered id outcome) s tt a h
  step-Shows s (host_selected v) a h =
      either-Shows (any (λ x. text_eq x.name v) (listed s.hosts.value)) (set_host-Shows v s h) h
  step-Shows s retried a h =
      either-Shows (is_given s.snapshots.error) (update_snapshots-Shows UseApi.reload s tt tt h) h
  step-Shows s (visibility hidden) a h =
      update_snapshots-Shows (UseApi.visibility hidden) (update_hosts (UseApi.visibility hidden) s)
        tt tt (update_hosts-Shows (UseApi.visibility hidden) s h)

  run-Shows :
      (s : SnapshotsPage) (es : List SnapshotsEvent) → Honest s es → Shows s → Shows (run s es)
  unfolding run
  run-Shows s [] a h = h
  run-Shows s (e ∷ es) a h = run-Shows (step s e) es a.1 (step-Shows s e a.0 h)

  mount-Shows : (hidden : Bool) → Shows (mount hidden)
  unfolding mount
  mount-Shows hidden = record {
    chosen = (mount-inputs {A = List Snapshot} [] none hidden).1;
    inv = mount-Inv [] none hidden;
    fits = mount-Current Of [] none hidden;
  }

  -- If every answer to a request for the snapshots of a host is a list of its snapshots, then after any events of
  -- the page, while the snapshots have neither a spinner nor an error, the list on show is one of the host chosen.
  pub rows_of_chosen_host :
      (hidden : Bool) (es : List SnapshotsEvent) (rows : List Snapshot)
      → Honest (mount hidden) es
      → let s = run (mount hidden) es in
        s.snapshots.loading ≡ false
        → s.snapshots.error ≡ none
        → s.snapshots.value ≡ some rows
        → Of s.host rows
  rows_of_chosen_host hidden es rows a l e v =
      let h = run-Shows (mount hidden) es a (mount-Shows hidden) in
      subst (λ x. Of x rows) h.chosen (h.fits.fits rows l e v)

set_host_other :
    (next : Text) (s : SnapshotsPage)
    → text_eq next s.host ≡ false
    → set_host next s ≡ record s {
      host = next;
      snapshots = UseApi.step s.snapshots (UseApi.deps_changed next none);
    }
unfolding set_host
set_host_other next s o = rw o refl

selected :
    (s : SnapshotsPage) (v : Text)
    → any (λ h. text_eq h.name v) (listed s.hosts.value) ≡ true
    → step s (host_selected v) ≡ set_host v s
unfolding step
selected s v l = rw l refl

-- Another host of the inventory is chosen while rows are on show, and the load of its snapshots fails: the rows
-- stay on show, under the error and the name of the other host.
pub failed_switch_keeps_rows :
    (s : SnapshotsPage) (v : Text) (rows : List Snapshot) (err : Failure)
    → any (λ h. text_eq h.name v) (listed s.hosts.value) ≡ true
    → text_eq v s.host ≡ false
    → s.snapshots.value ≡ some rows
    → let t = step s (host_selected v) in
      let u = step t (snapshots_answered t.snapshots.request_id (rejected err)) in
      (u.host ≡ v)
      × (u.snapshots.value ≡ some rows)
      × (u.snapshots.loading ≡ false)
      × (u.snapshots.error ≡ some (failure_message err))
unfolding step update_snapshots
failed_switch_keeps_rows s v rows err l o h = rw (selected s v l) (
    rw (set_host_other v s o) (
      let moved = deps_load s.snapshots v none in
      let t = UseApi.step s.snapshots (UseApi.deps_changed v none) in
      let f = failed_load t err moved.0.0 moved.0.1 moved.0.2 in
      (refl, f.2 ∙ moved.1 ∙ h, f.0, f.1)))
