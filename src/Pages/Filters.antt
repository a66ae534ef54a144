-- ===== src/Pages/Filters.antt =====
-- The filters of the events page and the host of the snapshots page.
use backup_orchestration_pla.Common.{◌≡◌, refl, true, Option, none, some, List, [], ◌∷◌, arith}
use backup_orchestration_pla.Common.Text.{Text, truthy}
use backup_orchestration_pla.Common.Text.Trim.{trim, trim-trim}
use backup_orchestration_pla.Wire.{Host}
use backup_orchestration_pla.Pages.{FilterForm, apply_filters, given, filter_of, choose_host}

-- Applying the filters asks for the trimmed texts, and leaves out the blank ones. Typing the applied texts
-- again and applying them asks for the same.
pub applied_filter :
    (s : FilterForm)
    → let t = apply_filters s in
      ((filter_of t).host ≡ given (trim s.host))
      × ((filter_of t).job_id ≡ given (trim s.job_id))
      × (filter_of (apply_filters (record t { host = t.applied_host; job_id = t.applied_job_id }))
          ≡ filter_of t)
unfolding apply_filters filter_of
applied_filter s = rw (trim-trim s.host, trim-trim s.job_id) (refl, refl, refl)

-- The page's host settles: a choice is kept whatever the inventory is, and if an inventory of named hosts is
-- loaded and not empty, a host is chosen, which a later inventory does not change.
pub host_settles :
    (h : Host) (hs : List Host) (later : Option (List Host)) (host : Text)
    → truthy h.name ≡ true
    → let chosen = choose_host (some (h ∷ hs)) host in
      (truthy chosen ≡ true)
      × (choose_host later chosen ≡ chosen)
      × (truthy host ≡ true → choose_host later host ≡ host)
unfolding choose_host
host_settles h hs none host n = ground arith
host_settles h hs (some []) host n = ground arith
host_settles h hs (some (k ∷ ks)) host n = ground arith
