-- ===== src/Modal/Idle.antt =====
-- The dialog before it is opened for the first time.
use backup_orchestration_pla.Common.{◌≡◌, refl, false, List, [], ◌∷◌, All, arith}
use backup_orchestration_pla.Wire.{Host}
use backup_orchestration_pla.Modal.{
  Modal, Event, opened, closed, submitted, hosts_loaded, host_selected, plugin_selected, answered,
  step, run, mount,
}
use backup_orchestration_pla.Modal.Offers.{Fits}

pub record Idle (s : Modal) : Type 0 where
  pub shut : s.open_now ≡ false
  pub quiet : s.waiting ≡ 0
  pub unsent : s.sent ≡ []

abbrev pub StaysShut : Event → Type 0
StaysShut opened = ⊥
StaysShut _ = Unit

pub step-Idle : (s : Modal) (e : Event) → StaysShut e → Idle s → Idle (step s e)
unfolding step
step-Idle s opened k h = absurd k
step-Idle s closed k h = record { shut = refl; quiet = h.quiet; unsent = h.unsent }
step-Idle s (hosts_loaded hosts) k h = record { shut = h.shut; quiet = h.quiet; unsent = h.unsent }
step-Idle s (host_selected v) k h = ground arith
step-Idle s (plugin_selected p) k h = ground arith
step-Idle s submitted k h = ground arith
step-Idle s (answered outcome) k h = ground arith

pub mount-Idle : (hosts : List Host) → Idle (mount hosts)
unfolding mount
mount-Idle hosts = record { shut = refl; quiet = refl; unsent = refl }

pub run-Idle : (s : Modal) (es : List Event) → All StaysShut es → Idle s → Idle (run s es)
unfolding run
run-Idle s [] k h = h
run-Idle s (e ∷ es) k h = run-Idle (step s e) es k.1 (step-Idle s e k.0 h)

-- The dialog takes the hosts that it is given.
pub loaded-Fits : (hs : List Host) (s : Modal) → Idle s → Fits hs (step s (hosts_loaded hs))
unfolding step
loaded-Fits hs s h = record {
  given = refl;
  choice = λ o. absurd (ground arith);
  requests = rw h.unsent tt;
}

pub reloaded-Fits : (hs : List Host) (s : Modal) → Fits hs s → Fits hs (step s (hosts_loaded hs))
unfolding step
reloaded-Fits hs s h = record { given = refl; choice = h.choice; requests = h.requests }
