-- ===== src/Auth/Invariant.antt =====
-- The console is connected only while it holds a token, and the token is the stored one.
use backup_orchestration_pla.Common.{
  ℕ, zero, suc, ◌≡◌, refl, ap, Bool, true, false, not, ◌&&◌, is_some, Option, List, [], ◌∷◌, arith,
  if◌then◌else◌,
}
use backup_orchestration_pla.Common.Text.{Text, truthy}
use backup_orchestration_pla.Common.Text.Trim.{trim}
use backup_orchestration_pla.Failure.{Outcome, resolved, rejected}
use backup_orchestration_pla.Client.{
  FetchResult, open_session, set_token, clear_token, on_unauthorized, finish,
}
use backup_orchestration_pla.Auth.{
  Console, Event, typed, revealed, submitted, probe_answered, call_answered, disconnected, reloaded,
  provider, drop_connection, open_console, connect, hear, connect_settled, disconnect,
  handle_submit, probe_settled, step, run,
}

pub record Inv (s : Console) : Type 0 where
  pub mirrored : s.session.token ≡ s.session.stored
  pub heard : s.session.listeners ≡ provider ∷ []
  pub awaited : s.probes ≡ (if s.submitting then 1 else 0)
  pub idle : s.connected ≡ true → s.submitting ≡ false
  pub held : s.connected ≡ true → is_some s.session.token ≡ true
  pub presented : s.submitting ≡ true → is_some s.session.token ≡ true

pub open_console-Inv : (stored : Option Text) → Inv (open_console stored)
unfolding open_console open_session on_unauthorized
open_console-Inv stored = ground arith

hear-Inv : (fired : List ℕ) (s : Console) → Inv s → Inv (hear fired s)
unfolding hear drop_connection
hear-Inv fired s h = ground arith

disconnect-Inv : (s : Console) → Inv s → s.connected ≡ true → Inv (disconnect s)
unfolding disconnect clear_token
disconnect-Inv s h c = ground arith

handle_submit-Inv :
    (s : Console) → Inv s → s.connected ≡ false → s.submitting ≡ false → Inv (handle_submit s)
unfolding handle_submit connect set_token
handle_submit-Inv s h c b = ground arith

-- While nobody is connected there is no connection to drop.
pub hear_unconnected : (fired : List ℕ) (s : Console) → s.connected ≡ false → hear fired s ≡ s
unfolding hear drop_connection
hear_unconnected fired s c = ground arith

-- A probe is awaited only by a page that submits, which is not connected.
connect_settled-Inv :
    {A : Type 0} (outcome : Outcome A) (s : Console)
    → Inv s
    → s.submitting ≡ true
    → Inv (connect_settled outcome (record s { probes = 0 }))
unfolding connect_settled clear_token
connect_settled-Inv (resolved hosts) s h b = ground arith
connect_settled-Inv (rejected err) s h b = ground arith

-- The state in which a probe is answered.
pub record Probing (n : ℕ) (s : Console) : Type 0 where
  pub submits : s.submitting ≡ true
  pub last : n ≡ 0
  pub unconnected : s.connected ≡ false

pub probing : (n : ℕ) (s : Console) → s.probes ≡ suc n → Inv s → Probing n s
probing n s e h = ground arith

-- So the answer goes straight to `connect`.
pub probe_settled_lem :
    {A : Type 0} (n : ℕ) (f : FetchResult A) (s : Console)
    → s.probes ≡ suc n
    → Inv s
    → probe_settled (suc n) f s
      ≡ connect_settled (finish s.session false f).1 (record s { probes = 0 })
unfolding probe_settled
probe_settled_lem n f s e h =
    let p = probing n s e h in
    rw p.last (
      ap (connect_settled (finish s.session false f).1)
        (hear_unconnected (finish s.session false f).0 (record s { probes = 0 }) p.unconnected))

probe_settled-Inv :
    {A : Type 0} (n : ℕ) (f : FetchResult A) (s : Console)
    → s.probes ≡ n
    → Inv s
    → Inv (probe_settled n f s)
probe_settled-Inv zero f s e h = unfold probe_settled in h
probe_settled-Inv (suc n) f s e h =
    rw (probe_settled_lem n f s e h)
      (connect_settled-Inv (finish s.session false f).1 s h (probing n s e h).submits)

either-Inv : (b : Bool) {s t : Console} → (b ≡ true → Inv s) → Inv t → Inv (if b then s else t)
either-Inv true h k = h refl
either-Inv false h k = k

pub step-Inv : {A : Type 0} (s : Console) (e : Event A) → Inv s → Inv (step s e)
unfolding step
step-Inv s (typed text) h = ground arith
step-Inv s revealed h = ground arith
step-Inv s submitted h =
    either-Inv ((not s.connected && not s.submitting) && truthy (trim s.field))
      (λ e. handle_submit-Inv s h (ground arith) (ground arith)) h
step-Inv s (probe_answered f) h = probe_settled-Inv s.probes f s refl h
step-Inv s (call_answered suppress f) h = hear-Inv (finish s.session suppress f).0 s h
step-Inv s disconnected h = either-Inv s.connected (disconnect-Inv s h) h
step-Inv s reloaded h = open_console-Inv s.session.stored

run-Inv : {A : Type 0} (s : Console) (es : List (Event A)) → Inv s → Inv (run s es)
unfolding run
run-Inv s [] h = h
run-Inv s (e ∷ es) h = run-Inv (step s e) es (step-Inv s e h)

-- After any events since the page was loaded: the token in memory is the stored one, a connected console
-- holds a token, and a probe is in flight exactly while the connect page is submitting, which it is only
-- while not connected.
pub console-Inv :
    {A : Type 0} (stored : Option Text) (es : List (Event A)) → Inv (run (open_console stored) es)
console-Inv stored es = run-Inv (open_console stored) es (open_console-Inv stored)
