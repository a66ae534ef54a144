-- ===== src/Pages/Sorting.antt =====
-- The lists of the pages are in order and complete.
use backup_orchestration_pla.Common.{
  ℕ, zero, suc, ◌≡◌, ◌↔◌, refl, Bool, true, false, Bool-cases, inl, inr, Option, List, [], ◌∷◌, All,
  filter, take, drop, length, arith,
}
use backup_orchestration_pla.Common.Text.{Text}
use backup_orchestration_pla.Wire.{Job, BopEvent}
use backup_orchestration_pla.Pages.{
  insert, sort, listed, newest_first, oldest_first, jobs_shown, recent_jobs, events_shown,
}

module _ {A : Type 0} (lte : A → A → Bool) where
  abbrev pub Below : A → List A → Type 0
  Below x ys = All (λ y. lte x y ≡ true) ys

  abbrev pub Sorted : List A → Type 0
  Sorted [] = Unit
  Sorted (x ∷ xs) = Below x xs × Sorted xs

  abbrev pub Total : Type 0
  Total = (a b : A) → lte a b ≡ false → lte b a ≡ true

  abbrev pub Transitive : Type 0
  Transitive = (a b c : A) → lte a b ≡ true → lte b c ≡ true → lte a c ≡ true

  Below-trans : (x y : A) (ys : List A) → Transitive → lte x y ≡ true → Below y ys → Below x ys
  Below-trans x y [] t e h = tt
  Below-trans x y (z ∷ ys) t e h = (t x y z e h.0, Below-trans x y ys t e h.1)

  Below-insert : (x y : A) (ys : List A) → lte x y ≡ true → Below x ys → Below x (insert lte y ys)
  unfolding insert
  Below-insert x y [] e h = (e, tt)
  Below-insert x y (z ∷ ys) e h = elim (Bool-cases (lte y z)) [
    | inl b ↦ rw b (e, h)
    | inr b ↦ rw b (h.0, Below-insert x y ys e h.1)
  ]

  insert-Sorted : (x : A) (ys : List A) → Total → Transitive → Sorted ys → Sorted (insert lte x ys)
  unfolding insert
  insert-Sorted x [] o t h = (tt, tt)
  insert-Sorted x (y ∷ ys) o t h = elim (Bool-cases (lte x y)) [
    | inl b ↦ rw b ((b, Below-trans x y ys t b h.0), h)
    | inr b ↦ rw b (Below-insert y x ys (o x y b) h.0, insert-Sorted x ys o t h.1)
  ]

  pub sort-Sorted : (xs : List A) → Total → Transitive → Sorted (sort lte xs)
  unfolding sort
  sort-Sorted [] o t = tt
  sort-Sorted (x ∷ xs) o t = insert-Sorted x (sort lte xs) o t (sort-Sorted xs o t)

  filter-insert :
      (p : A → Bool) (x : A) (ys : List A)
      → length (filter p (insert lte x ys)) ≡ length (filter p (x ∷ ys))
  unfolding insert
  filter-insert p x [] = refl
  filter-insert p x (y ∷ ys) = ground (arith, filter-insert p x ys)

  -- As many elements of each kind as before.
  filter-sort :
      (p : A → Bool) (xs : List A) → length (filter p (sort lte xs)) ≡ length (filter p xs)
  unfolding sort
  filter-sort p [] = refl
  filter-sort p (x ∷ xs) = ground (arith, filter-insert p x (sort lte xs), filter-sort p xs)

  Below-drop : (x : A) (n : ℕ) (ys : List A) → Below x ys → Below x (drop n ys)
  Below-drop x zero ys h = h
  Below-drop x (suc n) [] h = tt
  Below-drop x (suc n) (y ∷ ys) h = Below-drop x n ys h.1

  Below-take : (x : A) (n : ℕ) (ys : List A) → Below x ys → Below x (take n ys)
  Below-take x zero ys h = tt
  Below-take x (suc n) [] h = tt
  Below-take x (suc n) (y ∷ ys) h = (h.0, Below-take x n ys h.1)

  pub take-Sorted : (n : ℕ) (xs : List A) → Sorted xs → Sorted (take n xs)
  take-Sorted zero xs h = tt
  take-Sorted (suc n) [] h = tt
  take-Sorted (suc n) (x ∷ xs) h = (Below-take x n xs h.0, take-Sorted n xs h.1)

  -- What is taken of a sorted list stands before what is left.
  pub take-Below : (n : ℕ) (xs : List A) → Sorted xs → All (λ x. Below x (drop n xs)) (take n xs)
  take-Below zero xs h = tt
  take-Below (suc n) [] h = tt
  take-Below (suc n) (x ∷ xs) h = (Below-drop x n xs h.0, take-Below n xs h.1)

module _ (lte : Text → Text → Bool) where
  -- If the order of the texts is total and transitive, the job list shows the jobs newest first, as many of
  -- each kind as the controller has sent; the events of a job are shown oldest first, likewise complete.
  pub lists_in_order :
      (jobs : Option (List Job)) (events : Option (List BopEvent)) (p : Job → Bool)
      (q : BopEvent → Bool)
      → Total lte
      → Transitive lte
      → Sorted (newest_first lte) (jobs_shown lte jobs)
        × Sorted (oldest_first lte) (events_shown lte events)
        × (length (filter p (jobs_shown lte jobs)) ≡ length (filter p (listed jobs)))
        × (length (filter q (events_shown lte events)) ≡ length (filter q (listed events)))
  unfolding jobs_shown events_shown
  lists_in_order jobs events p q o t = (
    sort-Sorted (newest_first lte) (listed jobs) (λ a b e. o b.queued_at a.queued_at e)
        (λ a b c e f. t c.queued_at b.queued_at a.queued_at f e),
    sort-Sorted (oldest_first lte) (listed events) (λ a b e. o a.timestamp b.timestamp e)
        (λ a b c e f. t a.timestamp b.timestamp c.timestamp e f),
    filter-sort (newest_first lte) p (listed jobs),
    filter-sort (oldest_first lte) q (listed events),
  )

  -- Under such an order, each job of the dashboard is at least as new as each job of the list that the
  -- dashboard leaves out.
  pub recent_jobs_are_newest :
      (jobs : Option (List Job))
      → Total lte
      → Transitive lte
      → All (λ a. Below (newest_first lte) a (drop 8 (jobs_shown lte jobs))) (recent_jobs lte jobs)
  unfolding recent_jobs jobs_shown
  recent_jobs_are_newest jobs o t =
      take-Below (newest_first lte) 8 (sort (newest_first lte) (listed jobs)) (
        sort-Sorted (newest_first lte) (listed jobs) (λ a b e. o b.queued_at a.queued_at e)
          (λ a b c e f. t c.queued_at b.queued_at a.queued_at f e))

All-insert :
    {A : Type 0} (P : A → Type 0) (lte : A → A → Bool) (x : A) (ys : List A)
    → All P (insert lte x ys) ↔ (P x × All P ys)
unfolding insert
All-insert P lte x [] = ((λ h. h), (λ h. h))
All-insert P lte x (y ∷ ys) =
    let rest = All-insert P lte x ys in
    elim (Bool-cases (lte x y)) [
      | inl b ↦ rw b ((λ h. h), (λ h. h))
      | inr b ↦
          rw b ((λ h. let k = rest.0 h.1 in (k.0, (h.0, k.1))), (λ h. (h.1.0, rest.1 (h.0, h.1.1))))
    ]

-- What holds of all elements does so in any order.
pub All-sort :
    {A : Type 0} (P : A → Type 0) (lte : A → A → Bool) (xs : List A)
    → All P (sort lte xs) ↔ All P xs
unfolding sort
All-sort P lte [] = ((λ h. h), (λ h. h))
All-sort P lte (x ∷ xs) =
    let one = All-insert P lte x (sort lte xs) in
    let rest = All-sort P lte xs in
    ((λ h. let k = one.0 h in (k.0, rest.0 k.1)), (λ h. one.1 (h.0, rest.1 h.1)))
