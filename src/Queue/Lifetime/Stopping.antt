-- ===== src/Queue/Lifetime/Stopping.antt =====
-- internal/queue/queue.go: what Stop leaves of the jobs that run.
use grabarr.Common.{
  ℕ, suc, ◌≡◌, refl, ap, ◌∙◌, ◌||◌, ◌++◌, Bool, true, false, ◌==◌, Option, Option-cases, none, some,
  inl, inr, List, [], ◌∷◌, map, if◌then◌else◌, ok, for_each, any, arith,
}
use grabarr.Models.Job.Status.{JobStatus, status_eq}
use grabarr.Repository.Jobs.{get_job, update_job}
use grabarr.Repository.Jobs.Laws.{row_of, status_of, find_job-update, find_job-id}
use grabarr.Queue.State.{Queue, Env}
use grabarr.Queue.Ops.Laws.{Quiet}
use grabarr.Queue.Lifetime.{requeue, stop}

-- The status that Stop leaves in an active job's row.
abbrev pub stopped : Option JobStatus → Option JobStatus
stopped none = none
stopped (some s) = some (if status_eq s JobStatus.running then JobStatus.queued else s)

abbrev stopped_if : Bool → Option JobStatus → Option JobStatus
stopped_if b s = if b then stopped s else s

module _ (env : Env) (quiet : Quiet env) where
  requeue-status :
      (id : ℕ) (q : Queue) (k : ℕ)
      → status_of k (requeue env id q).1.db ≡ stopped_if (id == k) (status_of k q.db)
  unfolding get_job update_job
  requeue-status id q k = elim (Option-cases (row_of id q.db)) [
    | inl e ↦ ground (arith, quiet q.db.statements, e, Option-cases (row_of k q.db))
    | inr (j, e) ↦ ground (
      arith,
      quiet q.db.statements,
      quiet (suc q.db.statements),
      e,
      find_job-id id q.db.jobs {j = j} e,
      find_job-update id (env.world.now (suc q.db.readings))
          (record j { status = JobStatus.queued; updated_at = env.world.now q.db.readings }) k
          q.db.jobs,
      Option-cases (row_of k q.db),
    )
  ]

  requeue-ok : (id : ℕ) (q : Queue) → (requeue env id q).0 ≡ ok tt
  unfolding get_job update_job
  requeue-ok id q =
      ground
        (arith, quiet q.db.statements, quiet (suc q.db.statements), Option-cases (row_of id q.db))

  stopped_if-stopped_if :
      (a b : Bool) (s : Option JobStatus) → stopped_if b (stopped_if a s) ≡ stopped_if (a || b) s
  stopped_if-stopped_if a b s = ground (arith, Option-cases s)

  for_each-requeue :
      (ids : List ℕ) (q : Queue) (k : ℕ)
      → status_of k (for_each (requeue env) ids q).1.db
        ≡ stopped_if (any (λ id. id == k) ids) (status_of k q.db)
  for_each-requeue [] q k = refl
  for_each-requeue (id ∷ ids) q k =
      let q1 : Queue = (requeue env id q).1 in
      rw (requeue-ok id q) (
        for_each-requeue ids q1 k
        ∙ ap (stopped_if (any (λ i. i == k) ids)) (requeue-status id q k)
        ∙ stopped_if-stopped_if (id == k) (any (λ i. i == k) ids) (status_of k q.db))

  for_each-requeue_ok : (ids : List ℕ) (q : Queue) → (for_each (requeue env) ids q).0 ≡ ok tt
  for_each-requeue_ok [] q = refl
  for_each-requeue_ok (id ∷ ids) q =
      rw (requeue-ok id q) (for_each-requeue_ok ids (requeue env id q).1)

  -- Where the driver reports no error, stopping a queue that runs succeeds and queues the row of
  -- every job that is listed as active and whose row is running; the status of every other row is
  -- as it was.
  pub stop-status :
      (q : Queue) (k : ℕ)
      → q.running ≡ true
      → ((stop env q).0 ≡ ok tt)
        × (status_of k (stop env q).1.db
            ≡ stopped_if (any (λ id. id == k) (map (λ e. e.0) q.active_jobs)) (status_of k q.db))
  unfolding stop
  stop-status q k on =
      let ids : List ℕ = map (λ e. e.0) q.active_jobs in
      let q1 : Queue = record q {
        running = false;
        canceled = map (λ r. r.context) q.runs ++ q.canceled;
      } in
      rw (on, for_each-requeue_ok ids q1) (refl, for_each-requeue ids q1 k)
