-- ===== src/Controller/Site/Rows.antt =====
-- The rows of the jobs table by their ids, under the statements that the process makes.
use backup_orchestration_pla.Common.{
  ℕ, zero, suc, ◌≡◌, refl, sym, ap, ◌∙◌, Bool, true, false, ◌||◌, Bool-cases, inl, inr, Option,
  none, some, List, [], ◌∷◌, ◌++◌, map, filter, take, All, arith, if◌then◌else◌,
}
use backup_orchestration_pla.Common.Text.{Text, text_eq, text_eq_iff}
use backup_orchestration_pla.Wire.{JobStatus}
use backup_orchestration_pla.Pages.{insert, sort}
use backup_orchestration_pla.Controller.Core.{Job}
use backup_orchestration_pla.Controller.Metadata.{has_job, with_status, orphan_failed}

-- The status in the row of an id.
abbrev pub status_of : Text → List Job → Option JobStatus
status_of id [] = none
status_of id (j ∷ js) = if text_eq id j.id then some j.status else status_of id js

-- No two rows have one id.
abbrev pub Unique : List Job → Type 0
Unique [] = Unit
Unique (j ∷ js) = (has_job j.id js ≡ false) × Unique js

pub text_eq_sym : (s t : Text) → text_eq s t ≡ text_eq t s
text_eq_sym s t = elim (Bool-cases (text_eq s t)) [
  | inl e ↦ e ∙ sym ((text_eq_iff t s).1 (sym ((text_eq_iff s t).0 e)))
  | inr e ↦ elim (Bool-cases (text_eq t s)) [
    | inl f ↦ absurd (cc (e, (text_eq_iff s t).1 (sym ((text_eq_iff t s).0 f))))
    | inr f ↦ e ∙ sym f
  ]
]

pub has_job-status :
    (id : Text) (st : JobStatus) (js : List Job) → status_of id js ≡ some st → has_job id js ≡ true
has_job-status id st [] h = absurd (cc h)
has_job-status id st (j ∷ js) h = ground (arith, has_job-status id st js)

pub status_of-append :
    (id : Text) (st : JobStatus) (js ks : List Job)
    → status_of id js ≡ some st
    → status_of id (js ++ ks) ≡ some st
status_of-append id st [] ks h = absurd (cc h)
status_of-append id st (j ∷ js) ks h = ground (arith, status_of-append id st js ks)

pub status_of-new :
    (j : Job) (js : List Job)
    → has_job j.id js ≡ false
    → status_of j.id (js ++ j ∷ []) ≡ some j.status
status_of-new j [] h = rw ((text_eq_iff j.id j.id).1 refl) refl
status_of-new j (k ∷ js) h = ground (arith, status_of-new j js)

has_job-append :
    (id : Text) (js ks : List Job) → has_job id (js ++ ks) ≡ (has_job id js || has_job id ks)
has_job-append id [] ks = refl
has_job-append id (j ∷ js) ks = ground (arith, has_job-append id js ks)

pub append-Unique :
    (js : List Job) (k : Job) → has_job k.id js ≡ false → Unique js → Unique (js ++ k ∷ [])
append-Unique [] k h u = (refl, tt)
append-Unique (j ∷ js) k h u = (
  ground (arith, has_job-append j.id js (k ∷ []), text_eq_sym j.id k.id, u.0),
  append-Unique js k (ground arith) u.1,
)

-- A change of the rows that keeps their ids.
module _ (f : Job → Job) (keeps : (j : Job) → (f j).id ≡ j.id) where
  pub has_job-map : (id : Text) (js : List Job) → has_job id (map f js) ≡ has_job id js
  has_job-map id [] = refl
  has_job-map id (j ∷ js) = rw (keeps j, has_job-map id js) refl

  pub map-Unique : (js : List Job) → Unique js → Unique (map f js)
  map-Unique [] u = tt
  map-Unique (j ∷ js) u = (rw (keeps j, has_job-map j.id js) u.0, map-Unique js u.1)

pub with_status_id : (id : Text) (st : JobStatus) (j : Job) → (with_status id st j).id ≡ j.id
with_status_id id st j = ground arith

pub orphan_failed_id : (j : Job) → (orphan_failed j).id ≡ j.id
orphan_failed_id j = ground arith

pub status_of-updated :
    (id : Text) (st new : JobStatus) (js : List Job)
    → status_of id js ≡ some st
    → status_of id (map (with_status id new) js) ≡ some new
status_of-updated id st new [] h = absurd (cc h)
status_of-updated id st new (j ∷ js) h =
    ground (arith, status_of-updated id st new js, with_status_id id new j)

with_status-other :
    (id other : Text) (new : JobStatus) (j : Job)
    → text_eq id other ≡ false
    → text_eq other j.id ≡ true
    → with_status id new j ≡ j
with_status-other id other new j h e =
    let apart : text_eq id j.id ≡ false = rw (sym ((text_eq_iff other j.id).0 e)) h in rw apart refl

pub status_of-other :
    (id other : Text) (new : JobStatus) (js : List Job)
    → text_eq id other ≡ false
    → status_of other (map (with_status id new) js) ≡ status_of other js
status_of-other id other new [] h = refl
status_of-other id other new (j ∷ js) h = elim (Bool-cases (text_eq other j.id)) [
  | inl e ↦ rw (with_status-other id other new j h e, e) refl
  | inr e ↦ rw (with_status_id id new j, e) (status_of-other id other new js h)
]

-- No row has the id, each for itself.
pub apart_of :
    (id : Text) (js : List Job) → has_job id js ≡ false → All (λ j. text_eq j.id id ≡ false) js
apart_of id [] h = tt
apart_of id (j ∷ js) h = (ground (arith, text_eq_sym j.id id), apart_of id js (ground arith))

-- The rows of their own statuses, under one more row.
own_under :
    (j : Job) (js ks : List Job)
    → All (λ k. text_eq k.id j.id ≡ false) ks
    → All (λ k. status_of k.id js ≡ some k.status) ks
    → All (λ k. status_of k.id (j ∷ js) ≡ some k.status) ks
own_under j js [] a o = tt
own_under j js (k ∷ ks) a o = (rw a.0 o.0, own_under j js ks a.1 o.1)

-- Each row has its own status.
pub own_status : (js : List Job) → Unique js → All (λ j. status_of j.id js ≡ some j.status) js
own_status [] u = tt
own_status (j ∷ js) u = (
  rw ((text_eq_iff j.id j.id).1 refl) refl,
  own_under j js js (apart_of j.id js u.0) (own_status js u.1),
)

-- No row with the id in a part of the table.
has_job-filter :
    (p : Job → Bool) (id : Text) (js : List Job)
    → has_job id js ≡ false
    → has_job id (filter p js) ≡ false
has_job-filter p id [] h = refl
has_job-filter p id (j ∷ js) h = ground (arith, has_job-filter p id js)

pub filter-Unique : (p : Job → Bool) (js : List Job) → Unique js → Unique (filter p js)
filter-Unique p [] u = tt
filter-Unique p (j ∷ js) u = elim (Bool-cases (p j)) [
  | inl e ↦ rw e (has_job-filter p j.id js u.0, filter-Unique p js u.1)
  | inr e ↦ rw e (filter-Unique p js u.1)
]

has_job-take :
    (n : ℕ) (id : Text) (js : List Job) → has_job id js ≡ false → has_job id (take n js) ≡ false
has_job-take zero id js h = refl
has_job-take (suc n) id [] h = refl
has_job-take (suc n) id (j ∷ js) h = ground (arith, has_job-take n id js)

pub take-Unique : (n : ℕ) (js : List Job) → Unique js → Unique (take n js)
take-Unique zero js u = tt
take-Unique (suc n) [] u = tt
take-Unique (suc n) (j ∷ js) u = (has_job-take n j.id js u.0, take-Unique n js u.1)

module _ (lte : Job → Job → Bool) where
  has_job-insert :
      (id : Text) (j : Job) (js : List Job) → has_job id (insert lte j js) ≡ has_job id (j ∷ js)
  unfolding insert
  has_job-insert id j [] = refl
  has_job-insert id j (k ∷ js) = ground (arith, has_job-insert id j js)

  insert-Unique :
      (j : Job) (js : List Job) → has_job j.id js ≡ false → Unique js → Unique (insert lte j js)
  unfolding insert
  insert-Unique j [] h u = (refl, tt)
  insert-Unique j (k ∷ js) h u = elim (Bool-cases (lte j k)) [
    | inl e ↦ rw e (h, u)
    | inr e ↦ rw e (
      ground (arith, has_job-insert k.id j js, text_eq_sym k.id j.id, u.0, h),
      insert-Unique j js (ground (arith, h)) u.1,
    )
  ]

  has_job-sort : (id : Text) (js : List Job) → has_job id (sort lte js) ≡ has_job id js
  unfolding sort
  has_job-sort id [] = refl
  has_job-sort id (j ∷ js) =
      has_job-insert id j (sort lte js) ∙ ap (text_eq id j.id ||◌) (has_job-sort id js)

  pub sort-Unique : (js : List Job) → Unique js → Unique (sort lte js)
  unfolding sort
  sort-Unique [] u = tt
  sort-Unique (j ∷ js) u =
      insert-Unique j (sort lte js) (has_job-sort j.id js ∙ u.0) (sort-Unique js u.1)
