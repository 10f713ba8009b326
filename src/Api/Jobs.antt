-- ===== src/Api/Jobs.antt =====
-- internal/api/jobs.go: the handlers of jobs.
pub mod Confined
pub mod Pages
use grabarr.Common.{
  ℕ, suc, ◌+◌, ◌-◌, ◌/◌, Bool, true, false, not, ◌&&◌, ◌||◌, Option, none, some, List, [], ◌∷◌,
  ◌++◌, if◌then◌else◌, any, length, ltb, ltb_ℤ, ℤ, pos, pos_part, Text, codes, ◌=t◌, has_prefix,
  contains, join_by, is_abs, clean, join, Error, plain, Result, ok, err, Action,
}
use grabarr.Config.{Config, DownloadsConfig}
use grabarr.Models.Job.{Time, Job, JobMetadata, JobFilter, JobSummary, new_job, no_progress}
use grabarr.Models.Job.Status.{JobStatus}
use grabarr.Models.DownloadConfig.{DownloadConfig}
use grabarr.Queue.State.{Queue, Env, on_db}
use grabarr.Queue.Ops
use grabarr.Sync.Listing.{parse_int}
use grabarr.Api.Response.{
  PaginationMeta, ApiResponse, Handler, write_success, write_success_with_pagination, write_error,
  respond, answer, or_error,
}
use grabarr.Api.Query.{UrlQuery, job_filter}

pub record CreateJobRequest : Type 0 where
  pub name : Text
  pub remote_path : Text
  pub local_path : Text
  pub priority : ℤ
  pub max_retries : ℤ
  pub file_size : ℤ
  pub metadata : JobMetadata
  pub download_config : Option DownloadConfig

abbrev in_list : Text → List Text → Bool
in_list item = any (λ s. s =t item)

abbrev pub allows : List Text → Text → Bool
allows [] category = true
allows (c ∷ cs) category = not (category =t []) && in_list category (c ∷ cs)

-- The job that CreateJob makes of a request, at a time.
abbrev pub requested_job : DownloadsConfig → CreateJobRequest → Time → Job
requested_job downloads req now = record new_job {
  name = req.name;
  remote_path = req.remote_path;
  local_path = join downloads.local_path req.local_path;
  priority = req.priority;
  max_retries = req.max_retries;
  file_size = req.file_size;
  metadata = req.metadata;
  download_config = req.download_config;
  status = JobStatus.queued;
  progress = record no_progress { last_update_time = now };
}

-- The text of the first check of CreateJob that a request fails.
unfoldable pub refusal : DownloadsConfig → CreateJobRequest → Option Text
refusal downloads req =
    if req.name =t []
    then some (codes "job name is required")
    else if req.remote_path =t []
    then some (codes "remote_path is required")
    else if req.local_path =t []
    then some (codes "local_path is required")
    else if is_abs req.local_path
    then some (codes "local_path must be a relative path")
    else if has_prefix (clean req.local_path) (codes "..")
        || contains (clean req.local_path) (codes "/../")
    then some (codes "local_path cannot escape base directory")
    else if allows downloads.allowed_categories req.metadata.category
    then none
    else some (
        codes "category '"
        ++ (req.metadata.category
            ++ (codes "' not allowed. Allowed categories: ["
                ++ (join_by (codes " ") downloads.allowed_categories ++ codes "]"))))

-- The id of the path, and then the handler's rest.
abbrev parsed : {D : Type 0} → (ℕ → Handler Queue D) → Option ℤ → Handler Queue D
parsed rest none q = (write_error 400 (codes "Invalid job ID"), q)
parsed rest (some n) q = rest (pos_part n) q

-- The route has `{id:[0-9]+}`: the id has no sign.
abbrev with_id : {D : Type 0} → Text → (ℕ → Handler Queue D) → Handler Queue D
with_id id rest = parsed rest (parse_int id)

-- `totalPages` and `currentPage` of GetJobs.
abbrev pub page_count : (total limit : ℕ) → ℕ
page_count total limit = if ltb 0 limit then (total + limit - 1) / limit else 0

abbrev pub current_page : (limit offset : ℕ) → ℕ
current_page limit offset = if ltb 0 limit && ltb 0 offset then offset / limit + 1 else 1

-- Limit and offset are not negative: `job_filter` sees to it.
unfoldable pub pagination : JobFilter → (total : ℕ) → PaginationMeta
pagination filter total = record {
  total = pos total;
  limit = filter.limit;
  offset = filter.offset;
  total_pages = pos (page_count total (pos_part filter.limit));
  page = pos (current_page (pos_part filter.limit) (pos_part filter.offset));
}

abbrev pub page_response : JobFilter → List Job → ℕ → Handler Queue (List Job)
page_response filter jobs total =
    respond (write_success_with_pagination 200 jobs (pagination filter total) [])

-- `time.Now()`, and then the handler's rest.
abbrev pub at_time : {D : Type 0} → Env → (Time → Handler Queue D) → Handler Queue D
at_time env rest q =
    rest (env.world.now q.db.readings)
      (record q { db = record q.db { readings = suc q.db.readings } })

module _ (cfg : Config) (env : Env) where
  abbrev pub create_checked : CreateJobRequest → Option Text → Handler Queue Job
  create_checked req (some text) = respond (write_error 400 text)
  create_checked req none = at_time env (λ now.
      or_error (Ops.enqueue env (requested_job cfg.downloads req now)) 500
        (codes "Failed to enqueue job")
        (λ j. respond (write_success 201 (some j) (codes "Job created successfully"))))

  -- `body` is what the JSON decoder made of the request.
  unfoldable pub create_job : Result CreateJobRequest → Handler Queue Job
  unfolding refusal
  create_job (err e) = respond (write_error 400 (codes "Invalid JSON payload"))
  create_job (ok req) = create_checked req (refusal cfg.downloads req)

module _ (env : Env) where
  abbrev pub count_response : JobFilter → List Job → Handler Queue (List Job)
  count_response filter jobs =
      or_error (Ops.count_jobs env filter) 500 (codes "Failed to count jobs")
        (page_response filter jobs)

  unfoldable pub get_jobs : UrlQuery → Handler Queue (List Job)
  unfolding job_filter pagination
  get_jobs query =
      or_error (Ops.get_jobs env (job_filter query)) 500 (codes "Failed to get jobs")
        (count_response (job_filter query))

  unfoldable pub get_job : (id : Text) → Handler Queue Job
  unfolding parse_int
  get_job id = with_id id (λ n.
      or_error (Ops.get_job env n) 404 (codes "Job not found")
        (λ j. respond (write_success 200 (some j) [])))

  -- A call of the queue with no data in its answer.
  abbrev acknowledged : Action Queue Unit → (code : ℕ) → (failed done : Text) → Handler Queue Unit
  acknowledged m code failed done =
      or_error m code failed (λ _. respond (write_success 200 none done))

  unfoldable pub delete_job : (id : Text) → Handler Queue Unit
  unfolding parse_int
  delete_job id = with_id id (λ n.
      acknowledged (Ops.delete_job env n) 500 (codes "Failed to delete job")
        (codes "Job deleted successfully"))

  unfoldable pub cancel_job : (id : Text) → Handler Queue Unit
  unfolding parse_int
  cancel_job id = with_id id (λ n.
      acknowledged (Ops.cancel_job env n) 500 (codes "Failed to cancel job")
        (codes "Job cancelled successfully"))

  unfoldable pub retry_job : (id : Text) → Handler Queue Unit
  unfolding parse_int
  retry_job id = with_id id (λ n.
      acknowledged (Ops.retry_job env n) 400 (codes "Failed to retry job")
        (codes "Job retried successfully"))

  unfoldable pub get_job_summary : Handler Queue JobSummary
  get_job_summary =
      or_error (Ops.get_summary env) 500 (codes "Failed to get job summary")
        (λ s. respond (write_success 200 (some s) []))
