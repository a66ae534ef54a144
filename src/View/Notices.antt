-- ===== src/View/Notices.antt =====
-- What a list page has on the screen while, and after, its request is under way.
use backup_orchestration_pla.Common.{
  ◌∙◌, ℕ, ◌≤◌, or_default, ◌≡◌, ◌≢◌, ◌⊎◌, refl, Bool, true, false, inl, inr, Option, none, some,
  List, [], ◌∷◌, ◌++◌, arith,
}
use backup_orchestration_pla.Common.Text.{Text}
use backup_orchestration_pla.Failure.{rejected, api_error}
use backup_orchestration_pla.Client.{Response, conclude}
use backup_orchestration_pla.UseApi.{
  Request, foreground, ApiState, Event, answered, step, run, mount,
}
use backup_orchestration_pla.UseApi.Stale.{current}
use backup_orchestration_pla.UseApi.Current.{failed_load, run-Filled, mount-Filled}
use backup_orchestration_pla.View.{spinner, error_notice, empty_notice, notices}

filled_screen :
    {A : Type 0} (spins : Bool) (error : Option Text) (value : Option (List A)) (label title : Text)
    (body : Option Text)
    → (spins ≡ false → error ≡ none → value ≢ none)
    → error ≢ some []
    → ((spinner spins label ++ (error_notice true error ++ empty_notice value title body)) ≢ [])
      ⊎ (or_default value [] ≢ [])
filled_screen true error value label title body h e = inl (λ b. cc)
filled_screen false none none label title body h e = absurd (h refl refl refl)
filled_screen false none (some []) label title body h e = inl (λ b. cc)
filled_screen false none (some (x ∷ xs)) label title body h e = inr (λ b. cc)
filled_screen false (some []) value label title body h e = absurd (e refl)
filled_screen false (some (c ∷ t)) value label title body h e = inl (λ b. cc)

module _ {D A : Type 0} where
  -- After any events a list page is not blank: it has a spinner, an error, the note that there is nothing, or
  -- an element to show; unless the message of the error is empty.
  pub never_blank :
      (d : D) (ms : Option ℕ) (hidden : Bool) (es : List (Event D (List A))) (label title : Text)
      (body : Option Text)
      → let s = run (mount d ms hidden) es in
        s.error ≢ some [] → (notices s label title body ≢ []) ⊎ (or_default s.value [] ≢ [])
  unfolding notices
  never_blank d ms hidden es label title body e =
      let s = run (mount d ms hidden) es in
      filled_screen s.loading s.error s.value label title body
        (run-Filled (mount d ms hidden) es (mount-Filled d ms hidden)).filled e

  -- A response outside 2xx with neither a status text, as under HTTP/2, nor an `error` in its body leaves a list
  -- page that has no value yet blank, when it answers the load in flight.
  pub silent_failure :
      (s : ApiState D (List A)) (c : Response (List A)) (r : Request D) (label title : Text)
      (body : Option Text)
      → (c.status ≤ 199) ⊎ (300 ≤ c.status)
      → c.status_text ≡ []
      → c.error ≡ none
      → current s ≡ some r
      → r.kind ≡ foreground
      → s.value ≡ none
      → let t = step s (answered s.request_id (rejected (api_error c.status []))) in
        (conclude c ≡ rejected (api_error c.status []))
        × (notices t label title body ≡ [])
        × (t.value ≡ none)
  unfolding notices conclude
  silent_failure s c r label title body bad text none' now kind v =
      let h = failed_load s (api_error c.status []) r now kind in
      (ground arith, rw (h.0, h.1, h.2, v) refl, h.2 ∙ v)
