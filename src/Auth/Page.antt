-- ===== src/Auth/Page.antt =====
-- What web/src/pages/ConnectPage.tsx renders, and its button.
use backup_orchestration_pla.Common.{
  ◌≡◌, Bool, true, false, not, ◌||◌, Option, none, if◌then◌else◌, suc, arith,
}
use backup_orchestration_pla.Common.Text.{Text, codes, truthy, is_given}
use backup_orchestration_pla.Common.Text.Trim.{trim}
use backup_orchestration_pla.Client.{set_token}
use backup_orchestration_pla.Auth.{Console, submitted, connect, handle_submit, step}

-- `revealed` is the type of the field: text, or password; `error` is the text that is shown, if any.
pub record ConnectView : Type 0 where
  pub revealed : Bool
  pub reveal_label : Text
  pub value : Text
  pub error : Option Text
  pub disabled : Bool
  pub label : Text

unfoldable pub connect_view : Console → ConnectView
connect_view s = record {
  revealed = s.reveal;
  reveal_label = if s.reveal then codes "Hide" else codes "Show";
  value = s.field;
  error = if is_given s.error then s.error else none;
  disabled = s.submitting || not (truthy (trim s.field));
  label = if s.submitting then codes "Connecting…" else codes "Connect";
}

-- On the connect page, the button does nothing while it is disabled; else it sends one probe with the trimmed
-- token, and is disabled from then on.
pub connect_button :
    (A : Type 0) (s : Console)
    → s.connected ≡ false
    → let t = step {A = A} s submitted in
      ((connect_view s).disabled ≡ true → t ≡ s)
      × ((connect_view s).disabled ≡ false
          → (t.probes ≡ suc s.probes)
            × (t.session ≡ set_token (trim s.field) s.session)
            × ((connect_view t).disabled ≡ true))
unfolding step handle_submit connect connect_view
connect_button A s c = ground arith
