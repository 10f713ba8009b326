-- ===== src/Tests/ExecutionRuns.antt =====
-- internal/queue/queue.go and internal/executor: executions and extractions on concrete values.
use grabarr.Common.{
  ◌≡◌, refl, true, false, ◌&&◌, none, some, [], ◌∷◌, ◌++◌, if◌then◌else◌, codes, Error,
  permanent_bare, canceled, error_text, ok,
}
use grabarr.Models.Job.{
  JobProgress, no_progress, Job, mark_failed, increment_retry, string, no_metadata,
}
use grabarr.Models.Job.Status.{JobStatus}
use grabarr.Repository.Jobs.Laws.{row_of, status_of, updated_row}
use grabarr.Queue.State.{job_failed}
use grabarr.Queue.Ops.{cancel_job}
use grabarr.Queue.Execute.{finish_failed, finish_job}
use grabarr.Queue.Execute.Laws.{finish_failed-row, cancel_job-finish_job}
use grabarr.Executor.Rsync.{started, context_done, execute_download}
use grabarr.Executor.Rsync.Laws.{reported, execute_download-stopped}
use grabarr.Executor.Errors.{is_permanent}
use grabarr.Executor.Extract.{Shell, execute_extraction}
use grabarr.Tests.Data.{
  quiet_world, broken, waiting_job, running_job, four_jobs, settings, one_waits, first_attempt,
}

canceled_is_temporary : is_permanent canceled ≡ false
unfolding is_permanent
canceled_is_temporary = refl

cancel_job-finish_job_example :
    let q1 = (cancel_job settings 2 one_waits).1 in
    (status_of 2 q1.db ≡ some JobStatus.cancelled)
    × (status_of 2 (finish_job settings (some canceled) first_attempt running_job q1).1.db
        ≡ some JobStatus.queued)
cancel_job-finish_job_example =
    cancel_job-finish_job settings (λ n. refl) canceled first_attempt running_job one_waits
      running_job canceled_is_temporary refl refl

finish_failed-row_example :
    let q' = (finish_failed settings broken running_job one_waits).1 in
    (row_of 2 q'.db
      ≡ updated_row 2 101
          (if is_permanent broken
            then mark_failed (error_text broken) 100 running_job
            else increment_retry 100 running_job)
          2
          (row_of 2 four_jobs))
    × (q'.notices ≡ (
        if is_permanent broken && true
        then [] ++ job_failed (mark_failed (error_text broken) 100 running_job) ∷ []
        else []))
finish_failed-row_example = finish_failed-row settings (λ n. refl) broken running_job one_waits 2

abbrev shell : Shell
shell = record {
  has_unrar = true;
  run = λ argv. (none, []);
  read_dir = λ path. ok ((codes "a.rar", false) ∷ (codes "b.rar", false) ∷ []);
}

abbrev rar_job : Job
rar_job = record waiting_job {
  remote_path = codes "/data/a.rar";
  metadata = record no_metadata {
    extra_fields = (codes "archive_group", string (codes "/seed/a")) ∷ [];
  };
}

abbrev broken_shell : Shell
broken_shell = record shell { run = λ argv. (some broken, []) }

abbrev extraction_failure : Error
extraction_failure = permanent_bare (codes "extraction failed: disk full: ")

extraction_fails : (execute_extraction broken_shell true rar_job).0 ≡ some extraction_failure
unfolding execute_extraction
extraction_fails = refl

abbrev half : JobProgress
half = record no_progress { percentage = 50 }

execute_download-stopped_example :
    let (r, db') =
      execute_download quiet_world
        (started (half ∷ []) context_done)
        running_job
        (record four_jobs { jobs = record running_job { status = JobStatus.cancelled } ∷ [] }) in
    (r ≡ ok (some canceled, reported quiet_world (λ n. refl) (half ∷ []) running_job))
    × (status_of 2 db' ≡ some JobStatus.running)
execute_download-stopped_example =
    execute_download-stopped quiet_world (λ n. refl) half [] running_job
      (record four_jobs { jobs = record running_job { status = JobStatus.cancelled } ∷ [] })
      (record running_job { status = JobStatus.cancelled }) refl refl
