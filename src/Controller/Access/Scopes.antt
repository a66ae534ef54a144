-- ===== src/Controller/Access/Scopes.antt =====
-- What a token may do, and what the console (web/src/state/auth.tsx) makes of it.
use backup_orchestration_pla.Common.{
  ℕ, ◌≡◌, ◌≢◌, ◌⊎◌, refl, sym, ap, ◌∙◌, Bool, true, false, ◌||◌, Bool-cases, inl, inr, some,
  or_default, List, [], ◌∷◌, ◌++◌, map, any, arith, All,
}
use backup_orchestration_pla.Common.Text.{Text, codes, text_eq, text_eq_iff, truthy}
use backup_orchestration_pla.Client.{Response, responded, bearer}
use backup_orchestration_pla.Auth.{Console, call_answered, step}
use backup_orchestration_pla.Auth.Invariant.{Inv}
use backup_orchestration_pla.Auth.Reload.{call_answered_cases}
use backup_orchestration_pla.Controller.Access.{
  cut_prefix, auth_middleware, read_hashes, write_hashes,
}

-- A token is one of a list.
abbrev pub among : Text → List Text → Bool
among token tokens = any (text_eq token) tokens

among-append : (t : Text) (xs ys : List Text) → among t (xs ++ ys) ≡ (among t xs || among t ys)
among-append t [] ys = refl
among-append t (x ∷ xs) ys = ground (arith, among-append t xs ys)

-- The header of a console that holds the token.
abbrev pub header_of : Text → Text
header_of token = or_default (bearer (some token)) []

cut_header :
    (token : Text)
    → truthy token ≡ true
    → cut_prefix (codes "Bearer ") (header_of token) ≡ some token
unfolding cut_prefix
cut_header token t = rw t refl

module _ (sha256 : Text → Text) where
  -- The token has the hash of none of the others in the list.
  abbrev pub Apart : Text → List Text → Type 0
  Apart token tokens = All (λ t. sha256 token ≡ sha256 t → token ≡ t) tokens

  Apart-right : (token : Text) (xs ys : List Text) → Apart token (xs ++ ys) → Apart token ys
  Apart-right token [] ys h = h
  Apart-right token (x ∷ xs) ys h = Apart-right token xs ys h.1

  same_hash :
      (t x : Text) → (sha256 t ≡ sha256 x → t ≡ x) → text_eq (sha256 t) (sha256 x) ≡ text_eq t x
  same_hash t x h = elim (Bool-cases (text_eq t x)) [
    | inl e ↦ (text_eq_iff (sha256 t) (sha256 x)).1 (ap sha256 ((text_eq_iff t x).0 e)) ∙ sym e
    | inr e ↦ elim (Bool-cases (text_eq (sha256 t) (sha256 x))) [
      | inl f ↦ absurd (cc (e, (text_eq_iff t x).1 (h ((text_eq_iff (sha256 t) (sha256 x)).0 f))))
      | inr f ↦ f ∙ sym e
    ]
  ]

  among_hashes :
      (t : Text) (tokens : List Text)
      → Apart t tokens
      → any (text_eq (sha256 t)) (map sha256 tokens) ≡ among t tokens
  among_hashes t [] h = refl
  among_hashes t (x ∷ tokens) h = ground (arith, same_hash t x h.0, among_hashes t tokens h.1)

  -- The request of a console with the token passes exactly if the token is one of the list.
  passes_iff :
      {A : Type 0} (reason : ℕ → Text) (tokens : List Text) (token : Text) (next : Response A)
      → Apart token tokens
      → truthy token ≡ true
      → let r = auth_middleware sha256 reason (map sha256 tokens) next (header_of token) in
        (among token tokens ≡ true → r ≡ next) × (among token tokens ≡ false → r.status ≡ 401)
  unfolding auth_middleware
  passes_iff reason tokens token next h t =
      ground (arith, among_hashes token tokens h, cut_header token t, t)

  -- The answers of the read and of the write endpoints, which would answer `next`, to a console.
  abbrev pub read_answer :
      {A : Type 0} → (ℕ → Text) → (reads writes : List Text) → Response A → Console → Response A
  read_answer reason reads writes next s =
      auth_middleware sha256 reason (read_hashes sha256 reads writes) next
        (or_default (bearer s.session.token) [])

  abbrev pub write_answer :
      {A : Type 0} → (ℕ → Text) → (writes : List Text) → Response A → Console → Response A
  write_answer reason writes next s =
      auth_middleware sha256 reason (write_hashes sha256 writes) next
        (or_default (bearer s.session.token) [])

  read_passes :
      {A : Type 0} (reason : ℕ → Text) (reads writes : List Text) (token : Text) (next : Response A)
      (s : Console)
      → Apart token (reads ++ writes)
      → truthy token ≡ true
      → s.session.token ≡ some token
      → let r = read_answer reason reads writes next s in
        let known = among token reads || among token writes in
        (known ≡ true → r ≡ next) × (known ≡ false → r.status ≡ 401)
  unfolding read_hashes
  read_passes reason reads writes token next s a t e =
      let one = passes_iff reason (reads ++ writes) token next a t in
      let both = among-append token reads writes in
      rw e ((λ k. one.0 (both ∙ k)), (λ k. one.1 (both ∙ k)))

  write_passes :
      {A : Type 0} (reason : ℕ → Text) (reads writes : List Text) (token : Text) (next : Response A)
      (s : Console)
      → Apart token (reads ++ writes)
      → truthy token ≡ true
      → s.session.token ≡ some token
      → let r = write_answer reason writes next s in
        (among token writes ≡ true → r ≡ next) × (among token writes ≡ false → r.status ≡ 401)
  unfolding write_hashes
  write_passes reason reads writes token next s a t e =
      rw e (passes_iff reason writes token next (Apart-right token reads writes a) t)

  keeps :
      {A : Type 0} (s : Console) (r : Response A) (suppress : Bool)
      → Inv s
      → s.connected ≡ true
      → (suppress ≡ true) ⊎ (r.status ≢ 401)
      → step s (call_answered suppress (responded r)) ≡ s
  keeps s r suppress h c q =
      let cases = call_answered_cases s r suppress h c in
      let t = step s (call_answered suppress (responded r)) in
      elim (Bool-cases t.connected) [
        | inl still ↦ cases.1.0 still
        | inr ended ↦ elim q [
          | inl silent ↦ absurd (cc (silent, (cases.0.0 ended).0))
          | inr other ↦ absurd (other (cases.0.0 ended).1)
        ]
      ]

  -- A connected console of the invariant holds a token, whose hash is that of no other in the lists. An endpoint
  -- behind the middleware would answer `next`, which is not a 401. As a read endpoint it does answer so exactly if
  -- the token is a read or a write token, and the console stays as it is; else it answers 401, and the console
  -- is disconnected. As a write endpoint it answers so if the token is a write token, and else 401; the
  -- console stays as it is in either case.
  pub scopes_of_console :
      {A : Type 0} (reason : ℕ → Text) (reads writes : List Text) (token : Text) (next : Response A)
      (s : Console)
      → Apart token (reads ++ writes)
      → truthy token ≡ true
      → s.session.token ≡ some token
      → next.status ≢ 401
      → Inv s
      → s.connected ≡ true
      → let read = read_answer reason reads writes next s in
        let write = write_answer reason writes next s in
        let known = among token reads || among token writes in
        (known ≡ true → (read ≡ next) × (step s (call_answered false (responded read)) ≡ s))
        × (known ≡ false
            → (read.status ≡ 401)
              × ((step s (call_answered false (responded read))).connected ≡ false))
        × (among token writes ≡ true → write ≡ next)
        × (among token writes ≡ false → write.status ≡ 401)
        × (step s (call_answered true (responded write)) ≡ s)
  scopes_of_console reason reads writes token next s a t e n h c =
      let read = read_answer reason reads writes next s in
      let write = write_answer reason writes next s in
      let r = read_passes reason reads writes token next s a t e in
      let w = write_passes reason reads writes token next s a t e in
      (
        (λ k. (r.0 k, keeps s read false h c (inr (λ q. n (cc (q, r.0 k)))))),
        (λ k. (r.1 k, (call_answered_cases s read false h c).0.1 (refl, r.1 k))),
        w.0,
        w.1,
        keeps s write true h c (inl refl),
      )
