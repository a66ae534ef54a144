-- ===== src/Controller/RunJob/Verified.antt =====
-- What a pipeline has published, by the resources that were discovered and by how it ends.
use backup_orchestration_pla.Common.{
  ◌≡◌, ◌⊎◌, refl, Bool, true, false, List, [], ◌∷◌, ◌++◌, arith, inl, inr, Option-cases,
}
use backup_orchestration_pla.Common.Text.{Text}
use backup_orchestration_pla.Wire.{
  backup_failed, artifact_created, repository_verification_completed,
  restore_verification_completed, plugin_discovery_started, plugin_discovery_completed,
}
use backup_orchestration_pla.Seal.{same_type}
use backup_orchestration_pla.Controller.Core.{Resource, Job, Event, Fallible, ok, err}
use backup_orchestration_pla.Controller.Pipeline.{Effect, published, Run, ran, before}
use backup_orchestration_pla.Controller.Pipeline.Attempts.{log_of, result_of, publishes}
use backup_orchestration_pla.Controller.RunJob.{Ports, finish_pipeline, run_pipeline}
use backup_orchestration_pla.Controller.RunJob.Resources.{
  publishes-append, statuses, statuses-append, Backups, backup_resources-Backups,
}

Fallible-cases : {A : Type 0} (f : Fallible A) → ((a : A) × (f ≡ ok a)) ⊎ ((x : Text) × (f ≡ err x))
Fallible-cases (ok a) = inl (a, refl)
Fallible-cases (err x) = inr (x, refl)

-- What a pipeline that has not failed has published, by the resources that were discovered.
abbrev pub Verified : Bool → List Resource → List Effect → Type 0
Verified enabled [] log =
    (publishes restore_verification_completed log ≡ false)
    × (publishes repository_verification_completed log ≡ false)
    × (publishes artifact_created log ≡ false)
Verified enabled (res ∷ resources) log =
    (publishes restore_verification_completed log ≡ enabled)
    × (publishes repository_verification_completed log ≡ true)

-- Effects that are no matter to the seal or to the job's row.
record Plain (log : List Effect) : Type 0 where
  never_failed : publishes backup_failed log ≡ false
  none_restored : publishes restore_verification_completed log ≡ false
  none_verified : publishes repository_verification_completed log ≡ false
  none_created : publishes artifact_created log ≡ false
  unwritten : statuses log ≡ []

pub record Piped (enabled : Bool) (found : Fallible (List Resource)) (m : Run (Unit {0}))
    : Type 0 where
  pub quiet : publishes backup_failed (log_of m) ≡ false
  pub unwritten : statuses (log_of m) ≡ []
  pub verified :
      result_of m ≡ ok tt
      → (resources : List Resource) × (found ≡ ok resources) × Verified enabled resources (log_of m)

module _ (quoted : Text → Text) (joined : List Text → Text) (job : Job) where
  -- The loop over the resources and the effects behind it.
  done-Verified :
      (enabled : Bool) (resources : List Resource) (made : List Effect × List Text)
      (tail : List Effect)
      → Backups quoted joined job enabled resources made
      → Plain tail
      → made.1 ≡ []
      → Verified enabled resources (made.0 ++ tail)
  done-Verified enabled [] (log, errs) tail h k e =
      let nothing = h.empty refl in
      let gone : log ≡ [] = cc nothing in rw gone (k.none_restored, k.none_verified, k.none_created)
  done-Verified enabled (res ∷ resources) (log, errs) tail h k e = (
    ground (
      arith,
      publishes-append restore_verification_completed log tail,
      h.restored e (λ q. cc q),
      k.none_restored,
    ),
    ground (
      arith,
      publishes-append repository_verification_completed log tail,
      h.verified e (λ q. cc q),
    ),
  )

  done_quiet :
      (enabled : Bool) (resources : List Resource) (made : List Effect × List Text)
      (tail : List Effect)
      → Backups quoted joined job enabled resources made
      → Plain tail
      → (publishes backup_failed (made.0 ++ tail) ≡ false) × (statuses (made.0 ++ tail) ≡ [])
  done_quiet enabled resources (log, errs) tail h k = (
    ground (arith, publishes-append backup_failed log tail, h.quiet, k.never_failed),
    ground (arith, statuses-append log tail, h.unwritten, k.unwritten),
  )

  -- The end of the pipeline behind the two events of the discovery, which are plain.
  looped-Piped :
      (enabled : Bool) (resources : List Resource) (started discovered : Event)
      (made : List Effect × List Text)
      → started.type ≡ plugin_discovery_started
      → discovered.type ≡ plugin_discovery_completed
      → Backups quoted joined job enabled resources made
      → (m : Run (Unit {0})) → Plain (log_of m) × (result_of m ≡ ok tt → made.1 ≡ [])
      → Piped enabled (ok resources) (
          before [] (
            before [] (
              before
                (published started ∷ [])
                (before [] (before (published discovered ∷ []) (before made.0 m))))))
  unfolding same_type
  looped-Piped enabled resources started discovered (log, errs) s t h (ran tail r) (k, e) = record {
    quiet = rw (s, t) (done_quiet enabled resources (log, errs) tail h k).0;
    unwritten = (done_quiet enabled resources (log, errs) tail h k).1;
    verified = λ o. (
      resources,
      refl,
      plain_front resources (done-Verified enabled resources (log, errs) tail h k (e o)),
    );
  }
    where
      plain_front :
          (rs : List Resource)
          → Verified enabled rs (log ++ tail)
          → Verified enabled rs (published started ∷ published discovered ∷ (log ++ tail))
      plain_front [] v = rw (s, t) v
      plain_front (q ∷ rs) v = rw (s, t) v

module _ (quoted : Text → Text) (joined : List Text → Text) (job : Job) {C : Type 0} where
  finish_pipeline-Plain :
      (ports : Ports C) (errs : List Text)
      → let m = finish_pipeline quoted joined job ports errs in
        Plain (log_of m) × (result_of m ≡ ok tt → errs ≡ [])
  unfolding finish_pipeline same_type
  finish_pipeline-Plain ports [] = ground arith
  finish_pipeline-Plain ports (e ∷ errs) = ground arith

  pub run_pipeline-Piped :
      (enabled : Bool) (ports : Ports C)
      → Piped enabled ports.discover (run_pipeline quoted joined job ports enabled)
  unfolding run_pipeline same_type
  run_pipeline-Piped enabled ports = elim (Fallible-cases ports.resolve_config) [
    | inr (x, c) ↦ rw c (broken_off _ _ _ refl refl)
    | inl (cfg, c) ↦ rw c (elim (Option-cases (ports.factory cfg)) [
      | inr (x, f) ↦ rw f (broken_off _ _ _ refl refl)
      | inl f ↦ rw f (elim (Fallible-cases ports.discover) [
        | inr (x, d) ↦ rw d (broken_off _ _ _ refl refl)
        | inl (resources, d) ↦ rw d (
            looped-Piped quoted joined job enabled resources _ _ _ refl refl
              (backup_resources-Backups quoted joined job ports.attempts enabled 0 resources) _
              (finish_pipeline-Plain (record ports { resolve_config = ok cfg }) _))
      ])
    ])
  ]
    where
      broken_off :
          (found : Fallible (List Resource)) (log : List Effect) (x : Text)
          → publishes backup_failed log ≡ false
          → statuses log ≡ []
          → Piped enabled found (ran log (err x))
      broken_off found log x q u = record {
        quiet = q;
        unwritten = u;
        verified = λ e. absurd (cc e);
      }
