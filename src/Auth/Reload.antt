-- ===== src/Auth/Reload.antt =====
-- How a session ends, and what a reload of the tab makes of it.
use backup_orchestration_pla.Common.{◌≡◌, ◌↔◌, Bool, true, false, none, arith}
use backup_orchestration_pla.Client.{
  Response, responded, open_session, clear_token, on_unauthorized, finish,
}
use backup_orchestration_pla.Auth.{
  Console, call_answered, disconnected, reloaded, drop_connection, open_console, hear, disconnect,
  step,
}
use backup_orchestration_pla.Auth.Invariant.{Inv}

-- A connected user who disconnects holds no token and is not connected, also when the tab is loaded again.
pub disconnect_lasts :
    (A : Type 0) (s : Console)
    → s.connected ≡ true
    → let t = step {A = A} s disconnected in
      (t.connected ≡ false)
      × (t.session.token ≡ none)
      × ((step {A = A} t reloaded).connected ≡ false)
unfolding step disconnect clear_token open_console open_session
disconnect_lasts A s c = ground arith

-- In a connected console of the invariant, the response to a request ends the connection exactly if the
-- request is a read and the response a 401; if it does not, it changes nothing; and it always leaves the
-- session with its token.
pub call_answered_cases :
    {A : Type 0} (s : Console) (r : Response A) (suppress : Bool)
    → Inv s
    → s.connected ≡ true
    → let t = step s (call_answered suppress (responded r)) in
      ((t.connected ≡ false) ↔ ((suppress ≡ false) × (r.status ≡ 401)))
      × ((t.connected ≡ true) ↔ (t ≡ s))
      × (t.session ≡ s.session)
unfolding step finish hear drop_connection
call_answered_cases s r suppress h c = ground arith

-- In a connected console of the invariant, a read's 401 ends the connection; when the tab is loaded again,
-- the console takes itself for connected with the refused token.
pub refused_token_returns :
    {A : Type 0} (s : Console) (r : Response A)
    → Inv s
    → s.connected ≡ true
    → r.status ≡ 401
    → let t = step s (call_answered false (responded r)) in
      (t.connected ≡ false)
      × ((step {A = A} t reloaded).connected ≡ true)
      × ((step {A = A} t reloaded).session.token ≡ s.session.token)
unfolding step finish hear drop_connection open_console open_session on_unauthorized
refused_token_returns s r h c e = ground arith
