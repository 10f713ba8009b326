-- ===== src/Api/Jobs/Pages.antt =====
-- internal/api/jobs.go: the pages of GetJobs.
use grabarr.Models.Job.{Job}
use grabarr.Repository.Db.{Db}
use grabarr.Repository.Jobs
use grabarr.Queue.Ops
use grabarr.Queue.State.{Queue}
