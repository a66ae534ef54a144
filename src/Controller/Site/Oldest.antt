-- ===== src/Controller/Site/Oldest.antt =====
-- What `SELECT … WHERE status = ? ORDER BY queued_at` and the bounded queue make of the jobs table, said without them.
use backup_orchestration_pla.Common.{
  ℕ, zero, suc, ◌+◌, min, leb, ◌≡◌, ◌≢◌, ◌⊎◌, refl, ap, ◌∙◌, Bool, true, false, Bool-cases, inl,
  inr, some, List, [], ◌∷◌, find, filter, take, drop, length, All, All_imp, All-take, arith,
}
use backup_orchestration_pla.Common.Text.{text_eq, text_eq_iff}
use backup_orchestration_pla.Wire.{JobStatus, queued, in_progress, completed, failed}
use backup_orchestration_pla.Pages.{insert, sort}
use backup_orchestration_pla.Pages.Sorting.{
  Sorted, Below, All-sort, sort-Sorted, take-Sorted, take-Below,
}
use backup_orchestration_pla.Pages.Jobs.{same_status}
use backup_orchestration_pla.Controller.Core.{Job}
use backup_orchestration_pla.Controller.Metadata.{Store, has_job, list_jobs_by_status}
use backup_orchestration_pla.Controller.Site.Rows.{
  Unique, apart_of, filter-Unique, sort-Unique, take-Unique,
}

abbrev pub older : Job → Job → Bool
older a b = leb a.queued_at b.queued_at

abbrev one_if_queued : JobStatus → ℕ
one_if_queued queued = 1
one_if_queued in_progress = 0
one_if_queued completed = 0
one_if_queued failed = 0

-- How many rows are queued.
abbrev pub count_queued : List Job → ℕ
count_queued [] = 0
count_queued (j ∷ js) = one_if_queued j.status + count_queued js

-- A row of the table that is queued.
abbrev pub QueuedRow : List Job → Job → Type 0
QueuedRow rows j = (find (λ (k : Job). text_eq j.id k.id) rows ≡ some j) × (j.status ≡ queued)

-- The jobs are queued rows of the table, once each and in the order of their times; they are as many as there are,
-- up to the capacity; and a queued row that is none of them is no older than any of them.
abbrev pub Oldest : ℕ → List Job → List Job → Type 0
Oldest capacity rows q =
    All (QueuedRow rows) q
    × Unique q
    × Sorted older q
    × (length q ≡ min capacity (count_queued rows))
    × All
        (λ (k : Job).
          (k.status ≢ queued) ⊎ ((has_job k.id q ≡ true) ⊎ All (λ (j : Job). older j k ≡ true) q))
        rows

abbrev chosen : Job → Bool
chosen j = same_status j.status queued

chosen_status : (j : Job) → chosen j ≡ true → j.status ≡ queued
chosen_status j h = ground arith

count-filter : (js : List Job) → length (filter chosen js) ≡ count_queued js
count-filter [] = refl
count-filter (j ∷ js) = ground (arith, count-filter js)

length-insert : (j : Job) (js : List Job) → length (insert older j js) ≡ suc (length js)
unfolding insert
length-insert j [] = refl
length-insert j (k ∷ js) = ground (arith, length-insert j js)

length-sort : (js : List Job) → length (sort older js) ≡ length js
unfolding sort
length-sort [] = refl
length-sort (j ∷ js) = length-insert j (sort older js) ∙ ap suc (length-sort js)

length-take : (n : ℕ) (js : List Job) → length (take n js) ≡ min n (length js)
length-take zero js = omega arith
length-take (suc n) [] = omega arith
length-take (suc n) (j ∷ js) = omega (arith, length-take n js)

-- Each row is found by its id.
found_under :
    (j : Job) (js ks : List Job)
    → All (λ (k : Job). text_eq k.id j.id ≡ false) ks
    → All (λ (k : Job). find (λ (l : Job). text_eq k.id l.id) js ≡ some k) ks
    → All (λ (k : Job). find (λ (l : Job). text_eq k.id l.id) (j ∷ js) ≡ some k) ks
found_under j js [] a o = tt
found_under j js (k ∷ ks) a o = (rw a.0 o.0, found_under j js ks a.1 o.1)

own_row :
    (js : List Job)
    → Unique js
    → All (λ (k : Job). find (λ (l : Job). text_eq k.id l.id) js ≡ some k) js
own_row [] u = tt
own_row (j ∷ js) u = (
  rw ((text_eq_iff j.id j.id).1 refl) refl,
  found_under j js js (apart_of j.id js u.0) (own_row js u.1),
)

module _ (P : Job → Type 0) (p : Job → Bool) where
  filter-keeps : (js : List Job) → All P js → All (λ j. P j × (p j ≡ true)) (filter p js)
  filter-keeps [] a = tt
  filter-keeps (j ∷ js) a = elim (Bool-cases (p j)) [
    | inl e ↦ rw e ((a.0, e), filter-keeps js a.1)
    | inr e ↦ rw e (filter-keeps js a.1)
  ]

  unfiltered : (js : List Job) → All P (filter p js) → All (λ j. (p j ≡ false) ⊎ P j) js
  unfiltered [] a = tt
  unfiltered (j ∷ js) a = elim (Bool-cases (p j)) [
    | inl e ↦ let b : P j × All P (filter p js) = rw e at a in (inr b.0, unfiltered js b.1)
    | inr e ↦ (inl e, unfiltered js (rw e at a))
  ]

  parts-All : (n : ℕ) (js : List Job) → All P (take n js) → All P (drop n js) → All P js
  parts-All zero js a b = b
  parts-All (suc n) [] a b = tt
  parts-All (suc n) (j ∷ js) a b = (a.0, parts-All n js a.1 b)

All-swap :
    (xs ys : List Job)
    → All (λ x. Below older x ys) xs
    → All (λ y. All (λ x. older x y ≡ true) xs) ys
All-swap xs [] a = tt
All-swap xs (y ∷ ys) a = (
  All_imp (λ x. Below older x (y ∷ ys)) xs (λ x h. h.0) a,
  All-swap xs ys (All_imp (λ x. Below older x (y ∷ ys)) xs (λ x h. h.1) a),
)

own_in : (q : List Job) → All (λ k. has_job k.id q ≡ true) q
own_in [] = tt
own_in (j ∷ q) = (
  rw ((text_eq_iff j.id j.id).1 refl) refl,
  All_imp (λ k. has_job k.id q ≡ true) q (λ k h. ground (arith, h)) (own_in q),
)

unchosen_status : (j : Job) → chosen j ≡ false → j.status ≢ queued
unchosen_status j h e = ground (arith, h, e)

-- A job of the listing is taken, or no older than any that is.
abbrev TakenOrYounger : List Job → Job → Type 0
TakenOrYounger q k = (has_job k.id q ≡ true) ⊎ All (λ (j : Job). older j k ≡ true) q

taken_or_younger : (n : ℕ) (js : List Job) → Sorted older js → All (TakenOrYounger (take n js)) js
taken_or_younger n js o =
    let q : List Job = take n js in
    parts-All (TakenOrYounger q) chosen n js
      (All_imp (λ k. has_job k.id q ≡ true) q (λ k h. inl h) (own_in q))
      (All_imp (λ k. All (λ j. older j k ≡ true) q) (drop n js) (λ k h. inr h)
        (All-swap q (drop n js) (take-Below older n js o)))

left_out :
    (q js : List Job)
    → All (TakenOrYounger q) (filter chosen js)
    → All (λ k. (k.status ≢ queued) ⊎ TakenOrYounger q k) js
left_out q js a =
    All_imp (λ k. (chosen k ≡ false) ⊎ TakenOrYounger q k) js
      (λ k h. elim h [ inl e ↦ inl (unchosen_status k e) | inr t ↦ inr t ])
      (unfiltered (TakenOrYounger q) chosen js a)

-- The jobs of the listing that the queue takes.
pub listed-Oldest :
    (capacity : ℕ) (s : Store)
    → Unique s.jobs
    → Oldest capacity s.jobs (take capacity (list_jobs_by_status queued s))
unfolding list_jobs_by_status
listed-Oldest capacity s u =
    let rows : List Job = filter chosen s.jobs in
    let listed : List Job = sort older rows in
    let q : List Job = take capacity listed in
    let ordered =
      sort-Sorted older rows (λ a b h. ground (arith, h)) (λ a b c e f. ground (arith, e, f)) in
    (
      All-take (QueuedRow s.jobs) capacity listed (
          (All-sort (QueuedRow s.jobs) older rows).1 (
            All_imp
              (λ (j : Job).
                (find (λ (k : Job). text_eq j.id k.id) s.jobs ≡ some j) × (chosen j ≡ true))
              rows (λ j h. (h.0, chosen_status j h.1))
              (filter-keeps (λ (j : Job). find (λ (k : Job). text_eq j.id k.id) s.jobs ≡ some j)
                chosen s.jobs (own_row s.jobs u)))),
      take-Unique capacity listed (sort-Unique older rows (filter-Unique chosen s.jobs u)),
      take-Sorted older capacity listed ordered,
      length-take capacity listed ∙ ap (min capacity) (length-sort rows ∙ count-filter s.jobs),
      left_out q s.jobs
          ((All-sort (TakenOrYounger q) older rows).0 (taken_or_younger capacity listed ordered)),
    )
