-- ===== src/Queue/Execute.antt =====
-- internal/queue/queue.go: executeJob, split where the executor runs, so that other goroutines may
-- act in between.
pub mod Laws
use grabarr.Common.{
  ℕ, suc, ◌+◌, Bool, true, false, not, ◌&&◌, ◌||◌, Option, none, some, List, [], ◌∷◌, if◌then◌else◌,
  Text, ◌=t◌, Error, error_text, Result, ok, err, Action, pure, logged, attempt, ◌>>=◌, ◌>>◌,
}
use grabarr.Models.Job.{
  Time, Job, JobAttempt, mark_started, mark_completed, mark_failed, increment_retry, archive_group,
  is_extraction_job,
}
use grabarr.Models.Job.Status.{JobStatus}
use grabarr.Executor.Errors.{is_permanent}
use grabarr.Repository.Db.{time_now}
use grabarr.Repository.Jobs.{update_job, create_job_attempt, update_job_attempt}
use grabarr.Queue.State.{Queue, Env, job_failed, on_db, notify}
use grabarr.Queue.Archives.{check_archive_group_complete}

abbrev pub new_attempt : Job → JobAttempt
new_attempt j = record {
  id = 0;
  job_id = j.id;
  attempt_num = j.retries + 1;
  status = JobStatus.running;
  error_message = [];
  started_at = 0;
  ended_at = none;
  log_data = [];
}

-- Where creating the attempt fails the zero id stays, and the execution goes on.
abbrev created_attempt : JobAttempt → Result JobAttempt → JobAttempt
created_attempt a (ok saved) = saved
created_attempt a (err e) = a

-- The attempt record at the end.
abbrev pub ended : Time → Option Error → JobAttempt → JobAttempt
ended now none a = record a { ended_at = some now; status = JobStatus.completed }
ended now (some e) a = record a {
  ended_at = some now;
  status = JobStatus.failed;
  error_message = error_text e;
}

module _ (env : Env) where
  -- What follows the update that marks the job as started; an error ends the execution.
  abbrev pub begin_marked : Job → Result Unit → Action Queue (Option (Job × JobAttempt))
  begin_marked j (err e) = pure none
  begin_marked j (ok _) = do
    saved ← attempt (on_db (create_job_attempt env.world (new_attempt j)))
    pure (some (j, created_attempt (new_attempt j) saved))

  -- Up to the call of the executor: the started job and its attempt, or none where marking the job
  -- as started failed.
  unfoldable pub begin_job : Job → Action Queue (Option (Job × JobAttempt))
  begin_job j = do
    now ← on_db (time_now env.world)
    marked ← attempt (on_db (update_job env.world (mark_started now j)))
    begin_marked (mark_started now j) marked

  unfoldable pub finish_failed : Error → Job → Action Queue Unit
  finish_failed e j = do
    now ← on_db (time_now env.world)
    if is_permanent e
        then logged (on_db (update_job env.world (mark_failed (error_text e) now j)))
          >> notify env (job_failed (mark_failed (error_text e) now j))
        else logged (on_db (update_job env.world (increment_retry now j)))

  -- Whether the completed job may complete an archive group.
  abbrev pub check_group : Job → Action Queue Unit
  check_group j =
      if not (archive_group j =t []) && (not (is_extraction_job j) && env.extraction.enabled)
      then check_archive_group_complete env (archive_group j)
      else pure tt

  unfoldable pub finish_completed : Job → Action Queue Unit
  finish_completed j = do
    now ← on_db (time_now env.world)
    logged (on_db (update_job env.world (mark_completed now j)))
    check_group j

  unfoldable pub finish_status : Option Error → Job → Action Queue Unit
  unfolding finish_completed finish_failed
  finish_status none j = finish_completed j
  finish_status (some e) j = finish_failed e j

  -- After the executor has returned its error and left the job as `j`.
  unfoldable pub finish_job : Option Error → JobAttempt → Job → Action Queue Unit
  unfolding finish_status
  finish_job outcome a j = do
    now ← on_db (time_now env.world)
    finish_status outcome j
    logged (on_db (update_job_attempt env.world (ended now outcome a)))

  abbrev pub run_executor :
      (Job → Action Queue (Option Error × Job)) → Option (Job × JobAttempt) → Action Queue Unit
  run_executor executor none = pure tt
  run_executor executor (some (j, a)) = do result ← executor j; finish_job result.0 a result.1

  -- `executeJob`, with the executor as an argument.
  unfoldable pub execute_job : (Job → Action Queue (Option Error × Job)) → Job → Action Queue Unit
  unfolding begin_job finish_job
  execute_job executor j = begin_job j >>= run_executor executor
