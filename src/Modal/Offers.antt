-- ===== src/Modal/Offers.antt =====
-- What the dialog sends: a plugin of the chosen host, unless the host has none.
use backup_orchestration_pla.Common.{
  ℕ, zero, suc, ◌≡◌, ◌⊎◌, ◌≢◌, refl, sym, subst, Bool, true, false, not, ◌&&◌, Bool-cases, inl, inr,
  List, [], ◌∷◌, any, All, arith, if◌then◌else◌,
}
use backup_orchestration_pla.Common.Text.{Text, text_eq, text_eq_iff, truthy}
use backup_orchestration_pla.Failure.{Outcome, resolved, rejected}
use backup_orchestration_pla.Wire.{Host}
use backup_orchestration_pla.Modal.{
  Modal, Event, opened, closed, submitted, hosts_loaded, host_selected, plugin_selected, answered,
  first_host, plugins_of, includes, adjusted, host_effect, open_effect, handle_submit, settle,
  answer, form_shown, step, run, mount,
}

-- The plugin is one of those that the inventory lists for the host.
abbrev pub Offered : List Host → Text → Text → Type 0
Offered hosts host plugin = includes (plugins_of hosts host) plugin ≡ true

text_eq_refl : (s : Text) → text_eq s s ≡ true
text_eq_refl s = (text_eq_iff s s).1 refl

-- A chosen plugin is kept if the host has it, and is else the host's first one.
includes-adjusted :
    (ps : List Text) (plugin : Text) → ps ≢ [] → includes ps (adjusted ps plugin) ≡ true
unfolding includes
includes-adjusted [] plugin h = absurd (h refl)
includes-adjusted (p ∷ ps) plugin h = ground (arith, text_eq_refl p)

-- Every host of the inventory has a plugin: so a host that is found has one.
found_has_plugins :
    (hosts : List Host) (v : Text)
    → All (λ h. h.plugins ≢ []) hosts
    → any (λ h. text_eq h.name v) hosts ≡ true
    → plugins_of hosts v ≢ []
unfolding plugins_of
found_has_plugins [] v h e = cc
found_has_plugins (x ∷ hs) v h e = elim (Bool-cases (text_eq x.name v)) [
  | inl same ↦ rw same h.0
  | inr other ↦ rw other (found_has_plugins hs v h.1 (ground arith))
]

-- The hosts that the dialog was given stay, it offers a pair of theirs, and has sent such pairs only.
pub record Fits (hs : List Host) (s : Modal) : Type 0 where
  pub given : s.hosts ≡ hs
  pub choice : s.open_now ≡ true → Offered hs s.host s.plugin
  pub requests : All (λ r. Offered hs r.host r.plugin) s.sent

-- Events of a dialog whose hosts do not change.
abbrev pub KeepsHosts : Event → Type 0
KeepsHosts (hosts_loaded hosts) = ⊥
KeepsHosts _ = Unit

settle-Fits :
    (hs : List Host) (outcome : Outcome Text) (s : Modal) → Fits hs s → Fits hs (settle outcome s)
unfolding settle
settle-Fits hs (resolved id) s h = record {
  given = h.given;
  choice = h.choice;
  requests = h.requests;
}
settle-Fits hs (rejected err) s h = record {
  given = h.given;
  choice = h.choice;
  requests = h.requests;
}

answer-Fits :
    (hs : List Host) (n : ℕ) (outcome : Outcome Text) (s : Modal)
    → Fits hs s
    → Fits hs (answer n outcome s)
unfolding answer
answer-Fits hs zero outcome s h = h
answer-Fits hs (suc n) outcome s h =
    settle-Fits hs outcome _ (record { given = h.given; choice = h.choice; requests = h.requests })

-- The plugin that the host effect leaves is one of the host's.
effect-Fits :
    (hs : List Host) (s : Modal)
    → s.hosts ≡ hs
    → plugins_of hs s.host ≢ []
    → All (λ r. Offered hs r.host r.plugin) s.sent
    → Fits hs (host_effect s)
unfolding host_effect
effect-Fits hs s g p r = record {
  given = g;
  choice = λ o. rw g (includes-adjusted (plugins_of hs s.host) s.plugin p);
  requests = r;
}

first_found : (hs : List Host) → hs ≢ [] → any (λ h. text_eq h.name (first_host hs)) hs ≡ true
first_found [] h = absurd (h refl)
first_found (x ∷ hs) h = rw (text_eq_refl x.name)

open_effect-Fits :
    (hs : List Host) (s : Modal)
    → hs ≢ []
    → All (λ h. h.plugins ≢ []) hs
    → Fits hs s
    → Fits hs (open_effect (record s { open_now = true }))
unfolding open_effect
open_effect-Fits hs s n p h =
    effect-Fits hs _ h.given
      (subst (λ k. plugins_of hs (first_host k) ≢ []) (sym h.given)
        (found_has_plugins hs (first_host hs) p (first_found hs n)))
      h.requests

handle_submit-Fits :
    (hs : List Host) (s : Modal) → Fits hs s → s.open_now ≡ true → Fits hs (handle_submit s)
unfolding handle_submit
handle_submit-Fits hs s h o = elim (Bool-cases (truthy s.host && truthy s.plugin)) [
  | inl e ↦
      rw e (record { given = h.given; choice = h.choice; requests = (h.choice o, h.requests) })
  | inr e ↦ rw e h
]

either-Fits :
    (hs : List Host) (b : Bool) {s t : Modal}
    → (b ≡ true → Fits hs s)
    → Fits hs t
    → Fits hs (if b then s else t)
either-Fits hs true h k = h refl
either-Fits hs false h k = k

opened-Fits :
    (hs : List Host) (s : Modal) (b : Bool)
    → Fits hs s
    → Fits hs (open_effect (record s { open_now = true }))
    → Fits hs (if b then s else open_effect (record s { open_now = true }))
opened-Fits hs s b h k = either-Fits hs b (λ _. h) k

pub step-Fits :
    (hs : List Host) (s : Modal) (e : Event)
    → hs ≢ []
    → All (λ h. h.plugins ≢ []) hs
    → KeepsHosts e
    → Fits hs s
    → Fits hs (step s e)
unfolding step
step-Fits hs s opened n p k h = opened-Fits hs s s.open_now h (open_effect-Fits hs s n p h)
step-Fits hs s closed n p k h = record { given = h.given; choice = λ o. cc; requests = h.requests }
step-Fits hs s (hosts_loaded hosts) n p k h = absurd k
step-Fits hs s (host_selected v) n p k h =
    either-Fits hs (form_shown s && (any (λ x. text_eq x.name v) s.hosts && not (text_eq v s.host)))
      (λ e.
        effect-Fits hs (record s { host = v }) h.given
          (found_has_plugins hs v p
            (subst (λ l. any (λ x. text_eq x.name v) l ≡ true) h.given (ground arith)))
          h.requests)
      h
step-Fits hs s (plugin_selected q) n p k h =
    either-Fits hs (form_shown s && includes (plugins_of s.hosts s.host) q)
      (λ e. record {
        given = h.given;
        choice = λ o. subst (λ l. includes (plugins_of l s.host) q ≡ true) h.given (ground arith);
        requests = h.requests;
      })
      h
step-Fits hs s submitted n p k h =
    either-Fits hs (form_shown s && not s.submitting)
      (λ e. handle_submit-Fits hs s h (ground arith)) h
step-Fits hs s (answered outcome) n p k h = answer-Fits hs s.waiting outcome s h

pub run-Fits :
    (hs : List Host) (s : Modal) (es : List Event)
    → hs ≢ []
    → All (λ h. h.plugins ≢ []) hs
    → All KeepsHosts es
    → Fits hs s
    → Fits hs (run s es)
unfolding run
run-Fits hs s [] n p k h = h
run-Fits hs s (e ∷ es) n p k h = run-Fits hs (step s e) es n p k.1 (step-Fits hs s e n p k.0 h)

pub mount-Fits : (hs : List Host) → Fits hs (mount hs)
unfolding mount
mount-Fits hs = record { given = refl; choice = λ o. cc; requests = tt }

-- If the inventory is not empty, each of its hosts has a plugin, and it is not loaded anew, then whatever is
-- opened, closed, selected, submitted and answered, an open dialog offers a plugin of the host that is chosen, and every request that was sent names a
-- plugin of its host.
pub sent_plugin_of_host :
    (hs : List Host) (es : List Event)
    → hs ≢ []
    → All (λ h. h.plugins ≢ []) hs
    → All KeepsHosts es
    → let s = run (mount hs) es in
      ((s.open_now ≡ false) ⊎ Offered hs s.host s.plugin)
      × All (λ r. Offered hs r.host r.plugin) s.sent
sent_plugin_of_host hs es n p k =
    let h = run-Fits hs (mount hs) es n p k (mount-Fits hs) in
    let s = run (mount hs) es in
    (elim (Bool-cases s.open_now) [ inl o ↦ inr (h.choice o) | inr c ↦ inl c ], h.requests)
