-- ===== src/Auth/Tests.antt =====
-- The console at concrete tokens and answers.
use backup_orchestration_pla.Common.{ℕ, ◌≡◌, refl, true, false, none, some, [], ◌∷◌, ◌++◌}
use backup_orchestration_pla.Common.Text.{codes}
use backup_orchestration_pla.Common.Text.Trim.{trim, drop_spaces, is_space}
use backup_orchestration_pla.Client.{
  Response, responded, bearer, open_session, set_token, on_unauthorized, finish, conclude,
}
use backup_orchestration_pla.Auth.{
  Console, typed, submitted, probe_answered, call_answered, reloaded, open_console, step, run, hear,
  drop_connection, connect, connect_settled, disconnect, handle_submit, probe_settled,
}
use backup_orchestration_pla.Auth.Invariant.{Inv, open_console-Inv, step-Inv, console-Inv}
use backup_orchestration_pla.Auth.Connect.{Connected, connect_outcome}
use backup_orchestration_pla.Auth.Reload.{refused_token_returns}

console : Unit {0}
unfolding run step open_console hear drop_connection connect connect_settled disconnect
    handle_submit probe_settled
console = tt

abbrev refusal : Response ℕ
refusal = record { status = 401; status_text = codes "Unauthorized"; json = none; error = none }

abbrev hosts : Response ℕ
hosts = record { status = 200; status_text = codes "OK"; json = some 3; error = none }

abbrev visitor : Console
visitor = step {A = ℕ} (open_console none) (typed (codes " t0 "))

abbrev visitor-Inv : Inv visitor
visitor-Inv = step-Inv {A = ℕ} (open_console none) (typed (codes " t0 ")) (open_console-Inv none)

abbrev user : Console
user = open_console (some (codes "t0"))

logged_in :
    (run visitor (submitted ∷ probe_answered (responded hosts) ∷ [])).session.stored
    ≡ some (codes "t0")
unfolding console trim drop_spaces is_space open_session set_token on_unauthorized finish conclude
logged_in = refl

console-Inv_example : Inv (
    run
      (open_console none)
      (typed (codes "t0") ∷ submitted ∷ probe_answered (responded refusal) ∷ []))
console-Inv_example =
    console-Inv none (typed (codes "t0") ∷ submitted ∷ probe_answered (responded refusal) ∷ [])

connect_outcome_example :
    let waiting = step {A = ℕ} visitor submitted in
    (bearer waiting.session.token ≡ some (codes "Bearer " ++ trim visitor.field))
    × Connected
        (trim visitor.field)
        (responded refusal)
        (step waiting (probe_answered (responded refusal)))
unfolding console open_session trim drop_spaces is_space
connect_outcome_example = connect_outcome visitor (responded refusal) visitor-Inv refl refl refl

refused_token_returns_example :
    let t = step user (call_answered false (responded refusal)) in
    (t.connected ≡ false)
    × ((step {A = ℕ} t reloaded).connected ≡ true)
    × ((step {A = ℕ} t reloaded).session.token ≡ user.session.token)
unfolding console open_session
refused_token_returns_example =
    refused_token_returns user refusal (open_console-Inv (some (codes "t0"))) refl refl
