-- ===== src/Controller/Inventory/Hosts.antt =====
-- The listing of a validated inventory, and what the console's trigger dialog (web/src/components/TriggerBackupModal.tsx)
-- asks for over it.
use backup_orchestration_pla.Common.{
  ◌≡◌, ◌≢◌, refl, Bool, true, false, Bool-cases, inl, inr, ◌||◌, Option, none, some, List, [], ◌∷◌,
  map, All, All-map, All_imp, any, arith, ap, subst, ◌&&◌,
}
use backup_orchestration_pla.Common.Text.{Text, text_eq, text_eq_iff}
use backup_orchestration_pla.Wire.{Host}
use backup_orchestration_pla.Pages.{sort, insert, listed}
use backup_orchestration_pla.Pages.Sorting.{All-sort}
use backup_orchestration_pla.Modal.{includes, plugins_of}
use backup_orchestration_pla.Pages.Timeline.{any-sort}
use backup_orchestration_pla.Failure.{resolved}
use backup_orchestration_pla.Pages.Launcher.{LauncherEvent, hosts_answered, run, mount}
use backup_orchestration_pla.Pages.Launcher.Requests.{Lists, requests_from_inventory}
use backup_orchestration_pla.Pages.Launcher.Served.{AnswersOf, loaded_inventory}
use backup_orchestration_pla.Controller.Inventory.{
  Server, Inventory, has_negative, validate_servers, validate, host_summary, list_hosts,
}

-- An entry that `Validate` admits.
abbrev pub IsValid : Text × Server → Type 0
IsValid (name, srv) = (srv.host ≢ []) × (srv.plugins ≢ []) × (has_negative srv.retention ≡ false)

validate_servers-IsValid : (inv : Inventory) → validate_servers inv ≡ none → All IsValid inv
unfolding validate_servers
validate_servers-IsValid [] h = tt
validate_servers-IsValid ((name, srv) ∷ inv) h = ground (arith, validate_servers-IsValid inv)

insert_nonempty : {A : Type 0} (lte : A → A → Bool) (x : A) (xs : List A) → insert lte x xs ≢ []
unfolding insert
insert_nonempty lte x [] e = cc e
insert_nonempty lte x (y ∷ ys) e = ground arith

sort_nonempty : {A : Type 0} (lte : A → A → Bool) (xs : List A) → xs ≢ [] → sort lte xs ≢ []
unfolding sort
sort_nonempty lte [] h = absurd (h refl)
sort_nonempty lte (x ∷ xs) h = insert_nonempty lte x (sort lte xs)

map_nonempty : {A B : Type 0} (f : A → B) (xs : List A) → xs ≢ [] → map f xs ≢ []
map_nonempty f [] h = absurd (h refl)
map_nonempty f (x ∷ xs) h = λ e. cc e

any-map :
    {A B : Type 0} (p : B → Bool) (f : A → B) (xs : List A)
    → any p (map f xs) ≡ any (λ x. p (f x)) xs
any-map p f [] = refl
any-map p f (x ∷ xs) = ap (p (f x) ||◌) (any-map p f xs)

-- Each element of a list is one of it.
any_self : {A : Type 0} (xs : List A) → All (λ x. (q : A → Bool) → q x ≡ true → any q xs ≡ true) xs
any_self [] = tt
any_self (x ∷ xs) = (
  (λ q h. ground arith),
  All_imp (λ y. (q : _ → Bool) → q y ≡ true → any q xs ≡ true) xs (λ y f q h. ground (arith, f q h))
      (any_self xs),
)

-- An entry of the inventory has the host's name and the plugin.
abbrev pub entry_offers : Text → Text → Text × Server → Bool
entry_offers host plugin (name, srv) =
    text_eq name host && any (λ p. text_eq plugin p.0) srv.plugins

-- A listed host is one of the inventory, with a plugin at least, all of which its entry configures.
abbrev pub Listed : Inventory → Host → Type 0
Listed inv h =
    (h.plugins ≢ [])
    × ((plugin : Text)
        → includes h.plugins plugin ≡ true
        → any (entry_offers h.name plugin) inv ≡ true)

-- A statement about an element and its place in a list.
All_both :
    {A : Type 0} {P Q R : A → Type 0} (xs : List A)
    → ((x : A) → P x → Q x → R x)
    → All P xs
    → All Q xs
    → All R xs
All_both [] f h k = tt
All_both (x ∷ xs) f h k = (f x h.0 k.0, All_both xs f h.1 k.1)

validated_servers : (inv : Inventory) → validate inv ≡ none → validate_servers inv ≡ none
unfolding validate
validated_servers [] h = absurd (cc h)
validated_servers (e ∷ inv) h = h

listed-All :
    {A : Type 0} {P : A → Type 0} (o : Option (List A))
    → ((xs : List A) → o ≡ some xs → All P xs)
    → All P (listed o)
listed-All none h = tt
listed-All (some xs) h = h xs refl

module _ (lte : Text → Text → Bool) where
  entry-Listed :
      (inv : Inventory) (entry : Text × Server)
      → IsValid entry
      → ((q : Text × Server → Bool) → q entry ≡ true → any q inv ≡ true)
      → Listed inv (host_summary lte entry)
  unfolding host_summary includes
  entry-Listed inv (name, srv) v self = (
    sort_nonempty lte _ (map_nonempty (λ p. p.0) srv.plugins v.1),
    (λ plugin h.
        let one = any-sort (text_eq plugin) lte (map (λ p. p.0) srv.plugins) in
        let two = any-map (text_eq plugin) (λ p. p.0) srv.plugins in
        self (entry_offers name plugin)
          (ground (arith, h, one, two, (text_eq_iff name name).1 refl))),
  )

  list_hosts-Listed :
      (inv : Inventory) → validate inv ≡ none → All (Listed inv) (list_hosts lte inv)
  unfolding list_hosts
  list_hosts-Listed inv h =
      (All-sort (Listed inv) (λ (a b : Host). lte a.name b.name) (map (host_summary lte) inv)).1 (
        All-map (Listed inv) (host_summary lte) inv (
          All_both inv (λ e v self. entry-Listed inv e v self)
            (validate_servers-IsValid inv (validated_servers inv h)) (any_self inv)))

  answers-Lists :
      {D : Type 0} (inv : Inventory)
      → All (Listed inv) (list_hosts lte inv)
      → (e : LauncherEvent D) → AnswersOf (λ hs. hs ≡ list_hosts lte inv) e
      → Lists e
  answers-Lists inv good (hosts_answered id (resolved hs)) p =
      rw p (All_imp (Listed inv) (list_hosts lte inv) (λ h l. l.0) good)
  answers-Lists inv good _ p = tt

  find-Listed :
      (inv : Inventory) (hs : List Host) (host plugin : Text)
      → All (Listed inv) hs
      → includes (plugins_of hs host) plugin ≡ true
      → any (entry_offers host plugin) inv ≡ true
  unfolding plugins_of includes
  find-Listed inv [] host plugin h k = absurd (cc k)
  find-Listed inv (x ∷ hs) host plugin h k = elim (Bool-cases (text_eq x.name host)) [
    | inl same ↦
        subst (λ n. any (entry_offers n plugin) inv ≡ true) ((text_eq_iff x.name host).0 same)
          (h.0.1 plugin (rw same at k))
    | inr other ↦ find-Listed inv hs host plugin h.1 (rw other at k)
  ]

  -- If the controller answers every request for the hosts with the listing of one inventory that it has validated,
  -- then after any events of the page every backup that its dialog has asked for is of a host of this
  -- inventory and of a plugin that the host's entry configures.
  pub requests_are_configured :
      {D : Type 0} (inv : Inventory) (d : D) (hidden : Bool) (es : List (LauncherEvent D))
      → validate inv ≡ none
      → All (AnswersOf (λ hs. hs ≡ list_hosts lte inv)) es
      → All
          (λ r. any (entry_offers r.host r.plugin) inv ≡ true)
          (run (mount d hidden) es).dialog.sent
  requests_are_configured inv d hidden es v p =
      let s = run (mount d hidden) es in
      let good = list_hosts-Listed inv v in
      let lists =
        All_imp (AnswersOf (λ hs. hs ≡ list_hosts lte inv)) es (answers-Lists inv good) p in
      All_imp _ s.dialog.sent
        (λ r. find-Listed inv (listed s.hosts.value) r.host r.plugin (
          listed-All s.hosts.value
            (λ hs e. rw (loaded_inventory (λ l. l ≡ list_hosts lte inv) d hidden es hs p e) good)))
        (requests_from_inventory d hidden es lists)
