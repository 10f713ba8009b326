-- ===== src/Tests/QueueRuns.antt =====
-- internal/queue/queue.go: the queue's operations, the scheduler and the loading of jobs on concrete
-- values.
use grabarr.Common.{
  suc, ◌≡◌, refl, true, false, none, some, [], ◌∷◌, ◌++◌, codes, plain, wrapped, error_text, ok,
  err, All, arith,
}
use grabarr.Models.Job.{Job, mark_cancelled, is_extraction_job, archive_group, string, no_metadata}
use grabarr.Models.Job.Status.{JobStatus}
use grabarr.Archive.{is_first_part}
use grabarr.Repository.Jobs.{inserted, get_job, update_job}
use grabarr.Repository.Jobs.Laws.{row_of, status_of, updated_row}
use grabarr.Queue.State.{Queue, Env, find_active}
use grabarr.Queue.Ops.{cancel_job, retry_job, enqueue, with_defaults}
use grabarr.Queue.Ops.Laws.{
  cancel_job-row, retry_job-failed, enqueue-row, enqueue-failed, enqueue_alert,
}
use grabarr.Queue.Archives.{plan_extraction, extraction_job}
use grabarr.Queue.Archives.Laws.{IsDone, plan_extraction-once}
use grabarr.Queue.Scheduler.{can_schedule_new_job, scheduler_receive}
use grabarr.Queue.Scheduler.Laws.{scheduler_receive-blocked, cancel_job-scheduler_receive}
use grabarr.Queue.Execute.{begin_job}
use grabarr.Queue.Lifetime.{load_existing_jobs}
use grabarr.Queue.Lifetime.Recovery.{load_existing_jobs-status}
use grabarr.Tests.Data.{
  table-IsValid, broken_world, broken, waiting_job, running_job, failed_job, done_job, four_jobs,
  settings, one_waits,
}

cancel_job-row_example :
    let (r, q') = cancel_job settings 2 one_waits in
    (r ≡ ok tt)
    × (row_of 2 q'.db ≡ updated_row 2 101 (mark_cancelled 100 running_job) 2 (row_of 2 four_jobs))
    × (find_active 2 q'.active_jobs ≡ none)
    × (q'.job_queue ≡ waiting_job ∷ [])
cancel_job-row_example = cancel_job-row settings (λ n. refl) 2 one_waits running_job 2 refl refl

abbrev fresh_job : Job
fresh_job = record failed_job { status = JobStatus.queued; error_message = []; retries = 0 }

retry_job-failed_example :
    let (r, q') = retry_job settings 3 one_waits in
    (row_of 3 q'.db ≡ updated_row 3 100 fresh_job 3 (row_of 3 four_jobs))
    × (r ≡ ok tt)
    × (q'.job_queue ≡ waiting_job ∷ fresh_job ∷ [])
retry_job-failed_example = retry_job-failed settings (λ n. refl) 3 one_waits failed_job 3 refl refl

abbrev saved_job : Job
saved_job = record (with_defaults settings waiting_job) {
  id = 5;
  created_at = 101;
  updated_at = 102;
}

enqueue-row_example :
    let (r, q') = enqueue settings waiting_job one_waits in
    (r ≡ ok saved_job)
    × (row_of 5 four_jobs ≡ none)
    × (row_of 5 q'.db ≡ some (inserted 5 100 (with_defaults settings waiting_job)))
    × (q'.job_queue ≡ waiting_job ∷ saved_job ∷ [])
enqueue-row_example = enqueue-row settings (λ n. refl) waiting_job one_waits 5 table-IsValid

enqueue-failed_example :
    let env = record settings { world = broken_world } in
    let (r, q') = enqueue env waiting_job one_waits in
    (r
      ≡ err (
          plain (
            codes "failed to create job in database: "
            ++ error_text (wrapped (codes "failed to create job") broken))))
    × (q'.db.jobs ≡ four_jobs.jobs)
    × (q'.job_queue ≡ waiting_job ∷ [])
    × (q'.notices ≡ enqueue_alert waiting_job broken ∷ [])
enqueue-failed_example =
    enqueue-failed (record settings { world = broken_world }) waiting_job one_waits broken refl

abbrev closed : Env
closed = record settings { gate = λ n size. false }

abbrev pending_job : Job
pending_job = record waiting_job { status = JobStatus.pending }

scheduler_receive-blocked_example :
    let q' = (scheduler_receive closed one_waits).1 in
    (q'.job_queue ≡ pending_job ∷ [])
    × (q'.runs ≡ [])
    × (q'.active_jobs ≡ (2, 1) ∷ [])
    × (row_of 1 q'.db ≡ updated_row 1 100 pending_job 1 (row_of 1 four_jobs))
scheduler_receive-blocked_example =
    scheduler_receive-blocked closed one_waits waiting_job [] 1 refl (omega arith) (λ _. refl) refl

abbrev none_active : Queue
none_active = record one_waits { active_jobs = [] }

cancelled_room : can_schedule_new_job settings (cancel_job settings 1 none_active).1 ≡ true
unfolding cancel_job get_job update_job
cancelled_room = refl

cancel_job-scheduler_receive_example :
    let q1 = (cancel_job settings 1 none_active).1 in
    let q2 = (scheduler_receive settings q1).1 in
    (status_of 1 q1.db ≡ some JobStatus.cancelled)
    × (q2.runs
        ≡ q1.runs
          ++ record { context = suc q1.last_context; job = waiting_job; attempt = none } ∷ [])
    × (status_of 1 (begin_job settings waiting_job q2).1.db ≡ some JobStatus.running)
cancel_job-scheduler_receive_example =
    cancel_job-scheduler_receive settings (λ n. refl) none_active waiting_job [] waiting_job refl
      refl refl cancelled_room refl

load_existing_jobs-status_example :
    status_of 2 (load_existing_jobs settings one_waits).1.db ≡ some JobStatus.queued
load_existing_jobs-status_example =
    load_existing_jobs-status settings (λ n. refl) one_waits 2 (refl, (refl, (refl, (refl, tt))))
      refl

abbrev part_job : Job
part_job = record done_job {
  name = codes "a.rar";
  metadata = record no_metadata {
    extra_fields = (codes "archive_group", string (codes "/seed/a")) ∷ [];
  };
}

planned :
    plan_extraction settings (codes "/seed/a") (part_job ∷ [])
    ≡ some (extraction_job settings (codes "/seed/a") part_job)
unfolding plan_extraction is_first_part
planned = refl

plan_extraction-once_example :
    let e = extraction_job settings (codes "/seed/a") part_job in
    (is_extraction_job e ≡ true)
    × (archive_group e ≡ codes "/seed/a")
    × All IsDone (part_job ∷ [])
    × (plan_extraction settings (codes "/seed/a") (part_job ∷ e ∷ []) ≡ none)
plan_extraction-once_example =
    plan_extraction-once settings (codes "/seed/a") (part_job ∷ [])
      (extraction_job settings (codes "/seed/a") part_job) planned
