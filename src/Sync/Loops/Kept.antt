-- ===== src/Sync/Loops/Kept.antt =====
-- internal/sync/scanner.go: what the calls of a scan and of the synchronisation of statuses keep of
-- the queue, for any property that the queue's own calls and any call of the database keep.
use grabarr.Common.{
  ℕ, ◌≡◌, refl, Bool, true, false, Option, Option-cases, none, some, inl, inr, List, [], ◌∷◌,
  if◌then◌else◌, Text, Result, ok, err, Error, Action, modify, pure, Preserves, Preserves-bind,
  Preserves-result, Preserves-fail, Preserves-or_wrap, fail, or_wrap, wrapped, codes, split, ◌>>◌,
  Preserves-pure, Preserves-for_each, preserves_rules, arith,
}
use grabarr.Config.{Config, WatchedPath}
use grabarr.Models.Job.{Job, Time}
use grabarr.Models.RemoteFile.{RemoteFile, FileStatus}
use grabarr.Repository.Db.{Db, time_now}
use grabarr.Repository.Files.{
  upsert_remote_file, get_remote_files_linked_to_jobs, get_remote_file_by_path,
  update_remote_file_status, link_remote_file_to_job, get_stale_remote_files_with_jobs,
  delete_stale_remote_files,
}
use grabarr.Queue.State.{Queue, Env, on_db}
use grabarr.Queue.Ops
use grabarr.Sync.Scanner.{
  sync_with, sync_file, sync_job_statuses, cancel_unfinished, cancel_for,
  cancel_jobs_for_stale_files, enqueue_existing, auto_queue_file,
}

-- What the calls that a scan makes keep.
pub record IsKept (env : Env) (Q : Queue → Type 0) : Type 1 where
  pub by_files : {A : Type 0} (m : Action Db A) → Preserves Q (on_db m)
  pub by_get_job : (id : ℕ) → Preserves Q (Ops.get_job env id)
  pub by_cancel_job : (id : ℕ) → Preserves Q (Ops.cancel_job env id)
  pub by_enqueue : (j : Job) → Preserves Q (Ops.enqueue env j)

module _ (env : Env) (Q : Queue → Type 0) (kept : IsKept env Q) where
  pub linked-Q : Preserves Q (on_db (get_remote_files_linked_to_jobs env.world))
  linked-Q = kept.by_files _

  pub by_path-Q : (path : Text) → Preserves Q (on_db (get_remote_file_by_path env.world path))
  by_path-Q path = kept.by_files _

  pub update-Q :
      (id : ℕ) (s : FileStatus) → Preserves Q (on_db (update_remote_file_status env.world id s))
  update-Q id s = kept.by_files _

  pub link-Q :
      (id job : ℕ) (s : FileStatus)
      → Preserves Q (on_db (link_remote_file_to_job env.world id job s))
  link-Q id job s = kept.by_files _

  pub stale-Q :
      (path : Text) (t : Time)
      → Preserves Q (on_db (get_stale_remote_files_with_jobs env.world path t))
  stale-Q path t = kept.by_files _

  pub delete-Q :
      (path : Text) (t : Time) → Preserves Q (on_db (delete_stale_remote_files env.world path t))
  delete-Q path t = kept.by_files _

  pub upsert-Q : (f : RemoteFile) → Preserves Q (on_db (upsert_remote_file env.world f))
  upsert-Q f = kept.by_files _

  pub now-Q : Preserves Q (on_db (time_now env.world))
  now-Q = kept.by_files _

  pub get_job-Q : (id : ℕ) → Preserves Q (Ops.get_job env id)
  get_job-Q = kept.by_get_job

  pub cancel_job-Q : (id : ℕ) → Preserves Q (Ops.cancel_job env id)
  cancel_job-Q = kept.by_cancel_job

  pub enqueue-Q : (j : Job) → Preserves Q (Ops.enqueue env j)
  enqueue-Q = kept.by_enqueue

  pub ruleset queue_rules = (
    preserves_rules, linked-Q, by_path-Q, update-Q, link-Q, stale-Q, delete-Q, upsert-Q, now-Q,
    get_job-Q, cancel_job-Q, enqueue-Q,
  )

  pub sync_with-Q : (rf : RemoteFile) (r : Result Job) → Preserves Q (sync_with env rf r)
  sync_with-Q rf (err e) = search preserves_rules
  sync_with-Q rf (ok j) = search queue_rules depth 12

  pub sync_file-Q : (rf : RemoteFile) → Preserves Q (sync_file env rf)
  unfolding sync_file
  sync_file-Q rf = elim (Option-cases rf.job_id) [
    | inl e ↦ rw (e, sync_file) (Preserves-pure tt)
    | inr (id, e) ↦ rw (e, sync_file) (search (queue_rules, sync_with-Q) depth 12)
  ]

  pub sync_job_statuses-Q : Preserves Q (sync_job_statuses env)
  unfolding sync_job_statuses
  sync_job_statuses-Q = search (queue_rules, sync_file-Q) depth 12

  pub cancel_unfinished-Q : (id : ℕ) (r : Result Job) → Preserves Q (cancel_unfinished env id r)
  cancel_unfinished-Q id (err e) = search preserves_rules
  cancel_unfinished-Q id (ok j) = search queue_rules depth 12

  pub cancel_for-Q : (rf : RemoteFile) → Preserves Q (cancel_for env rf)
  cancel_for-Q rf = elim (Option-cases rf.job_id) [
    | inl e ↦ rw (e, cancel_for) (Preserves-pure tt)
    | inr (id, e) ↦ rw (e, cancel_for) (search (queue_rules, cancel_unfinished-Q) depth 12)
  ]

  pub cancel_jobs-Q :
      (path : Text) (t : Time) → Preserves Q (cancel_jobs_for_stale_files env path t)
  unfolding cancel_jobs_for_stale_files
  cancel_jobs-Q path t = search (queue_rules, cancel_for-Q) depth 14

  pub enqueue_existing-Q :
      (cfg : Config) (wp : WatchedPath) (f : RemoteFile) (o : Option RemoteFile)
      → Preserves Q (enqueue_existing cfg env wp f o)
  enqueue_existing-Q cfg wp f none = search preserves_rules
  enqueue_existing-Q cfg wp f (some existing) = search queue_rules depth 12

  pub auto_queue_file-Q :
      (cfg : Config) (wp : WatchedPath) (f : RemoteFile)
      → Preserves Q (auto_queue_file cfg env wp f)
  unfolding auto_queue_file
  auto_queue_file-Q cfg wp f = search (queue_rules, enqueue_existing-Q) depth 12
