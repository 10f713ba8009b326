-- ===== src/Queue/Archives/Laws.antt =====
-- internal/queue/queue.go: when an archive group gets its extraction job.
use grabarr.Common.{◌≡◌, true, false, none, some, List, [], ◌∷◌, ◌++◌, Text, All, arith}
use grabarr.Models.Job.{Job, archive_group, is_extraction_job}
use grabarr.Models.Job.Status.{JobStatus}
use grabarr.Queue.State.{Env}
use grabarr.Queue.Archives.{
  has_extraction_job, group_files, all_completed, first_part_job, plan_extraction,
}

-- A completed download.
abbrev pub IsDone : Job → Type 0
IsDone j = (is_extraction_job j ≡ false) × (j.status ≡ JobStatus.completed)

All-IsDone :
    (js : List Job) → all_completed js ≡ true → has_extraction_job js ≡ false → All IsDone js
All-IsDone [] c h = tt
All-IsDone (j ∷ js) c h = ground (arith, All-IsDone js)

has_extraction_job-append :
    (js : List Job) (e : Job)
    → is_extraction_job e ≡ true
    → has_extraction_job (js ++ e ∷ []) ≡ true
has_extraction_job-append [] e h = ground arith
has_extraction_job-append (j ∷ js) e h = ground (arith, has_extraction_job-append js e h)

-- The planned job is an extraction job of the group, and it is planned only where every job of the
-- group is a completed download. With the planned job among them, no further one is planned.
pub plan_extraction-once :
    (env : Env) (group : Text) (js : List Job) (e : Job)
    → plan_extraction env group js ≡ some e
    → (is_extraction_job e ≡ true)
      × (archive_group e ≡ group)
      × All IsDone js
      × (plan_extraction env group (js ++ e ∷ []) ≡ none)
unfolding plan_extraction
plan_extraction-once env group js e h = (
  ground (arith, first_part_job (group_files js) js),
  ground (arith, first_part_job (group_files js) js),
  ground (arith, All-IsDone js),
  ground (arith, has_extraction_job-append js e),
)
