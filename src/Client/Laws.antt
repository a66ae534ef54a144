-- ===== src/Client/Laws.antt =====
-- How a request ends, who is told of a 401, and which paths name which resource.
use backup_orchestration_pla.Common.{
  ℕ, ◌≤◌, ◌≡◌, ◌≢◌, ◌⊎◌, inl, inr, refl, sym, ◌↔◌, subst, Bool, false, Option, none, some, List, [],
  ◌∷◌, arith, Option-cases, some_inj,
}
use backup_orchestration_pla.Common.Text.{Text, codes}
use backup_orchestration_pla.Failure.{Outcome, resolved, rejected, api_error}
use backup_orchestration_pla.Client.{
  Session, HttpRequest, Response, FetchResult, unreachable, responded, conclude, finish, message_of,
  request_of,
}
use backup_orchestration_pla.Client.Paths.{
  ApiCall, Payload, suppresses, method_of, body_of, path_of, call_api, list_hosts, list_jobs,
  get_job, list_snapshots, list_events, trigger_backup, get_plugin_config, set_plugin_config,
}

suppresses_iff : (c : ApiCall) → (suppresses c ≡ false) ↔ (method_of c ≡ codes "GET")
suppresses_iff list_hosts = ground arith
suppresses_iff (list_jobs status) = ground arith
suppresses_iff (get_job id) = ground arith
suppresses_iff (list_snapshots host) = ground arith
suppresses_iff (list_events filter) = ground arith
suppresses_iff (trigger_backup req) = ground arith
suppresses_iff (get_plugin_config host plugin) = ground arith
suppresses_iff (set_plugin_config host plugin cfg) = ground arith

module _ {A : Type 0} where
  -- A request resolves exactly on a 2xx response: to nothing on a 204, and to the JSON body otherwise.
  pub resolves_iff :
      (r : Response A) (v : Option A)
      → (conclude r ≡ resolved v) ↔ (
          (200 ≤ r.status)
          × (r.status ≤ 299)
          × (((r.status ≡ 204) × (v ≡ none)) ⊎ ((r.status ≢ 204) × (v ≢ none) × (r.json ≡ v))))
  unfolding conclude
  resolves_iff r v = ground arith

  -- An `ApiError` carries the status of a response outside 2xx, and that status is never lost.
  pub api_error_iff :
      (r : Response A) (status : ℕ)
      → ((m : Text) × (conclude r ≡ rejected (api_error status m)))
        ↔ ((r.status ≡ status) × ((status ≤ 199) ⊎ (300 ≤ status)))
  unfolding conclude
  api_error_iff r status =
      (λ h. let e = h.1 in ground arith, λ h. (message_of r.status_text r.error, ground arith))

  -- Only a 401 that nothing suppresses tells the listeners, and it tells them all.
  abbrev Tells : Session → Bool → List ℕ × Outcome (Option A) → Type 0
  Tells s suppress (fired, out) =
      (fired ≢ [] → (suppress ≡ false) × ((m : Text) × (out ≡ rejected (api_error 401 m))))
      × ((m : Text) → out ≡ rejected (api_error 401 m) → suppress ≡ false → fired ≡ s.listeners)

  finish-Tells :
      (s : Session) (suppress : Bool) (f : FetchResult A) → Tells s suppress (finish s suppress f)
  unfolding finish
  finish-Tells s suppress unreachable = (λ h. absurd (h refl), λ m e h. cc)
  finish-Tells s suppress (responded r) =
      (λ h. (ground arith, (message_of r.status_text r.error, ground arith)), λ m e h. ground arith)

  call-Tells :
      (s : Session) (fetch : HttpRequest Payload → FetchResult A) (c : ApiCall)
      (t : List ℕ × Outcome (Option A))
      → call_api s fetch c ≡ some t
      → Tells s (suppresses c) t
  unfolding call_api
  call-Tells s fetch c t e = elim (Option-cases (path_of c)) [
    | inl bad ↦ cc (rw bad at e)
    | inr (path, good) ↦
        subst (Tells s (suppresses c)) (some_inj (rw good at e))
          (finish-Tells s (suppresses c) (fetch (request_of s (method_of c) path (body_of c))))
  ]

  told :
      (s : Session) (suppress : Bool) (fired : List ℕ) (out : Outcome (Option A))
      → Tells s suppress (fired, out)
      → (fired ≡ []) ⊎ (fired ≡ s.listeners)
  told s suppress [] out h = inl refl
  told s suppress (l ∷ ls) out h = let k = h.0 (λ e. cc) in inr (h.1 k.1.0 k.1.1 k.0)

  -- While there are listeners, a call tells them exactly if it is a GET that is rejected with a 401; and it
  -- tells none of them or all. So no write ever drops the session.
  pub session_dropped_iff :
      (s : Session) (fetch : HttpRequest Payload → FetchResult A) (c : ApiCall) (fired : List ℕ)
      (out : Outcome (Option A))
      → s.listeners ≢ []
      → call_api s fetch c ≡ some (fired, out)
      → ((fired ≢ [])
          ↔ ((method_of c ≡ codes "GET") × ((m : Text) × (out ≡ rejected (api_error 401 m)))))
        × ((fired ≡ []) ⊎ (fired ≡ s.listeners))
  session_dropped_iff s fetch c fired out l e =
      let t = call-Tells s fetch c (fired, out) e in
      (
        (
          λ h. let k = t.0 h in ((suppresses_iff c).0 k.0, k.1),
          λ g. subst (λ (f : List ℕ). f ≢ []) (sym (t.1 g.1.0 g.1.1 ((suppresses_iff c).1 g.0))) l,
        ),
        told s (suppresses c) fired out t,
      )
