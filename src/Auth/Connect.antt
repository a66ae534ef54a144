-- ===== src/Auth/Connect.antt =====
-- Connecting: a token is kept exactly when the controller accepts it.
use backup_orchestration_pla.Common.{
  suc, ◌≤◌, ◌≡◌, ◌≢◌, ◌⊎◌, ◌↔◌, refl, ap, subst, true, false, none, some, ◌++◌, arith,
}
use backup_orchestration_pla.Common.Text.{Text, codes, truthy}
use backup_orchestration_pla.Common.Text.Trim.{trim}
use backup_orchestration_pla.Client.{
  FetchResult, unreachable, responded, bearer, set_token, clear_token, conclude, finish,
}
use backup_orchestration_pla.Auth.{
  Console, submitted, probe_answered, connect, connect_settled, handle_submit, probe_settled, step,
}
use backup_orchestration_pla.Auth.Invariant.{Inv, step-Inv, probe_settled_lem}

-- The controller answers the probe with a 2xx response whose body can be read.
abbrev pub Accepts : {A : Type 0} → FetchResult A → Type 0
Accepts unreachable = ⊥
Accepts (responded r) = (200 ≤ r.status) × (r.status ≤ 299) × ((r.status ≡ 204) ⊎ (r.json ≢ none))

-- The page as `connect` leaves it.
pub record Connected {A : Type 0} (token : Text) (f : FetchResult A) (t : Console) : Type 0 where
  pub accepted : (t.connected ≡ true) ↔ Accepts f
  pub kept :
      t.connected ≡ true
      → (t.session.token ≡ some token) × (t.session.stored ≡ some token) × (t.error ≡ none)
  pub dropped :
      t.connected ≡ false → (t.session.token ≡ none) × (t.session.stored ≡ none) × (t.error ≢ none)
  pub done : t.submitting ≡ false

settled :
    {A : Type 0} (token : Text) (f : FetchResult A) (s : Console)
    → s.session.token ≡ some token
    → s.session.stored ≡ some token
    → s.error ≡ none
    → Connected token f (connect_settled (finish s.session false f).1 s)
unfolding connect_settled clear_token finish conclude
settled token unreachable s p q e = ground arith
settled token (responded r) s p q e = ground arith

idle_probes : (s : Console) → Inv s → s.submitting ≡ false → s.probes ≡ 0
idle_probes s h b = ground arith

-- The state in which the probe is in flight.
submitted_state :
    (A : Type 0) (s : Console)
    → s.connected ≡ false
    → s.submitting ≡ false
    → truthy (trim s.field) ≡ true
    → step {A = A} s submitted ≡ connect (trim s.field) (record s { submitting = true })
unfolding step handle_submit
submitted_state A s c b t = ground arith

answered_state :
    {A : Type 0} (s : Console) (f : FetchResult A) (token : Text)
    → let w = connect token (record s { submitting = true }) in
      s.probes ≡ 0
      → Inv w
      → step w (probe_answered f)
        ≡ connect_settled (finish w.session false f).1 (record w { probes = 0 })
unfolding step connect probe_settled
answered_state s f token p h =
    rw p (probe_settled_lem 0 f (connect token (record s { submitting = true })) (ap suc p) h)

connect_fields :
    {A : Type 0} (s : Console) (f : FetchResult A) (token : Text)
    → let w = connect token (record s { submitting = true }) in
      truthy token ≡ true
      → (bearer w.session.token ≡ some (codes "Bearer " ++ token))
        × Connected token f (connect_settled (finish w.session false f).1 (record w { probes = 0 }))
unfolding connect set_token
connect_fields s f token t = (rw t, settled token f _ refl refl refl)

-- In a console of the invariant that is not connected and not submitting, the user submits a token that is not blank, and the controller answers in any way.
-- While the probe is in flight its requests present the trimmed token. Afterwards the console is
-- connected exactly if the controller accepts the token; then the trimmed token is held and stored, and
-- no error shows; otherwise no token is held or stored, and an error shows.
pub connect_outcome :
    {A : Type 0} (s : Console) (f : FetchResult A)
    → Inv s
    → s.connected ≡ false
    → s.submitting ≡ false
    → truthy (trim s.field) ≡ true
    → let waiting = step {A = A} s submitted in
      (bearer waiting.session.token ≡ some (codes "Bearer " ++ trim s.field))
      × Connected (trim s.field) f (step waiting (probe_answered f))
connect_outcome {A} s f h c b t =
    let sent = submitted_state A s c b t in
    let inv = subst Inv sent (step-Inv {A = A} s submitted h) in
    rw sent (
      rw (answered_state s f (trim s.field) (idle_probes s h b) inv)
        (connect_fields s f (trim s.field) t))
