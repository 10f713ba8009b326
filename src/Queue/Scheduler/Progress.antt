-- ===== src/Queue/Scheduler/Progress.antt =====
-- internal/queue/queue.go: how a round of processQueue ends.
use grabarr.Common.{
  ℕ, ◌≡◌, refl, Bool-cases, inl, inr, ◌⊎◌, true, false, Result, ok, err, List, [], ◌∷◌, ℤ, Action,
  if◌then◌else◌, Preserves, Preserves-modify, Preserves-bind, Preserves-if, Preserves-pure, ◌>>◌,
  pure, preserves_rules, arith,
}
use grabarr.Models.Job.{Job}
use grabarr.Repository.Db.{Db}
use grabarr.Queue.State.{Queue, Env, on_db}
use grabarr.Queue.Scheduler.{
  can_schedule_new_job, can_run, schedule_job, start_loaded, start_found, load_waiting,
  process_loop, process_queue,
}

abbrev IsDrained : Queue → Type 0
IsDrained q = q.job_queue ≡ []

on_db-IsDrained : {A : Type 0} (m : Action Db A) → Preserves IsDrained (on_db m)
on_db-IsDrained m = record { at = λ q h. h }

module _ (env : Env) where
  schedule_job-IsDrained : (j : Job) → Preserves IsDrained (schedule_job env j)
  unfolding schedule_job
  schedule_job-IsDrained j = Preserves-modify _ (λ q h. h)

  can_run-IsDrained : (j : Job) → Preserves IsDrained (can_run env j)
  can_run-IsDrained j = record { at = λ q h. ground (arith, h) }

  start_loaded-IsDrained : (js : List Job) → Preserves IsDrained (start_loaded env js)
  unfolding start_loaded
  start_loaded-IsDrained [] = search preserves_rules depth 3
  start_loaded-IsDrained (j ∷ js) =
      let rest = start_loaded env js in
      let on =
        Preserves-bind (schedule_job env j) (λ _. rest) (schedule_job-IsDrained j)
          (λ _. start_loaded-IsDrained js) in
      Preserves-bind (can_run env j) (λ go. if go then schedule_job env j >> rest else pure tt)
        (can_run-IsDrained j) (λ go. Preserves-if go _ _ on (Preserves-pure tt))

  start_found-IsDrained : (r : Result (List Job)) → Preserves IsDrained (start_found env r)
  start_found-IsDrained (err e) = search preserves_rules depth 3
  start_found-IsDrained (ok js) = start_loaded-IsDrained js

  load_waiting-IsDrained : Preserves IsDrained (load_waiting env)
  unfolding load_waiting
  load_waiting-IsDrained = search (preserves_rules, on_db-IsDrained, start_found-IsDrained) depth 12

  module _ (agree : (n : ℕ) (size : ℤ) → env.gate n size ≡ true) where
    process_loop-busy :
        (js : List Job) (q : Queue)
        → q.job_queue ≡ js
        → let q' = (process_loop env js q).1 in
          (can_schedule_new_job env q' ≡ false) ⊎ (q'.job_queue ≡ [])
    unfolding process_loop schedule_job
    process_loop-busy [] q e = elim (Bool-cases (can_schedule_new_job env q)) [
      | inl c ↦ rw c (inr ((load_waiting-IsDrained).at q e))
      | inr c ↦ rw c (inl c)
    ]
    process_loop-busy (j ∷ rest) q e = elim (Bool-cases (can_schedule_new_job env q)) [
      | inl c ↦ rw (c, agree q.asked j.file_size) (process_loop-busy rest _ refl)
      | inr c ↦ rw c (inl c)
    ]

    -- Where the gatekeeper always agrees, a tick ends with no room for a further job or with an empty
    -- channel.
    pub process_queue-busy :
        (q : Queue)
        → let q' = (process_queue env q).1 in
          (can_schedule_new_job env q' ≡ false) ⊎ (q'.job_queue ≡ [])
    unfolding process_queue
    process_queue-busy q = process_loop-busy q.job_queue q refl
