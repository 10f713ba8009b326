-- ===== src/Api/Jobs/Confined.antt =====
-- internal/api/jobs.go: CreateJob on every request, and the local path of the job that it stores.
use grabarr.Common.{
  suc, join, refl, ap, ◌∙◌, ◌≡◌, ◌⊎◌, inl, inr, true, false, Option-cases, none, some, ◌++◌, All,
  Text, codes, join_by, has_prefix, clean, is_abs, Option, ok, arith,
}
use grabarr.Common.Paths.Below.{elements, IsDown, join-elements}
use grabarr.Config.{Config}
use grabarr.Models.Job.{Job}
use grabarr.Repository.Jobs.Laws.{row_of, IsValid}
use grabarr.Queue.State.{Queue, Env}
use grabarr.Queue.Ops.Laws.{Quiet, enqueue-row}
use grabarr.Api.Jobs.{CreateJobRequest, refusal, requested_job, create_checked, create_job}

-- What a request passes that is not refused.
refusal-none :
    (cfg : Config) (req : CreateJobRequest)
    → refusal cfg.downloads req ≡ none
    → (is_abs req.local_path ≡ false) × (has_prefix (clean req.local_path) (codes "..") ≡ false)
unfolding refusal
refusal-none cfg req e = (ground (arith, e), ground (arith, e))

abbrev pub local_path_in : Option Job → Option Text
local_path_in none = none
local_path_in (some j) = some j.local_path

module _ (cfg : Config) (env : Env) (quiet : Quiet env) where
  -- What the handler does with a request that is not refused.
  create_checked-row :
      (req : CreateJobRequest) (q : Queue)
      → IsValid q.db
      → let (r, q') = create_checked cfg env req none q in
        (r.code ≡ 201)
        × (local_path_in (row_of (suc q.db.last_job_id) q'.db)
            ≡ some (join cfg.downloads.local_path req.local_path))
  create_checked-row req q v =
      let now = env.world.now q.db.readings in
      let dated = record q { db = record q.db { readings = suc q.db.readings } } in
      let (returned, fresh, stored, sent) =
        enqueue-row env quiet (requested_job cfg.downloads req now) dated (suc q.db.last_job_id)
          (record { unique = v.unique; bounded = v.bounded }) in
      (ground (arith, returned), ground (arith, returned, stored))

  -- Where the driver reports no error, the table is valid and the configured base is absolute,
  -- CreateJob refuses a request and changes nothing, or stores its job; the job's local path then
  -- has the elements of the base, and after them those of the requested path, none of which is `..`.
  pub create_job-confined :
      (req : CreateJobRequest) (q : Queue)
      → IsValid q.db
      → is_abs cfg.downloads.local_path ≡ true
      → let (r, q') = create_job cfg env (ok req) q in
        ((r.code ≡ 400) × (q' ≡ q))
        ⊎ ((r.code ≡ 201)
            × All IsDown (elements req.local_path)
            × (local_path_in (row_of (suc q.db.last_job_id) q'.db)
                ≡ some (
                    codes "/"
                    ++ join_by
                        (codes "/")
                        (elements cfg.downloads.local_path ++ elements req.local_path))))
  unfolding create_job
  create_job-confined req q v abs = elim (Option-cases (refusal cfg.downloads req)) [
    | inr (text, e) ↦ rw e (inl (refl, refl))
    | inl e ↦
        let (relative, inside) = refusal-none cfg req e in
        let (down, joined) =
          join-elements cfg.downloads.local_path req.local_path abs relative inside in
        let (code, stored) = create_checked-row req q v in
        rw e (inr (code, down, stored ∙ ap (λ (t : Text). some t) joined))
  ]
