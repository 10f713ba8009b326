-- ===== src/Executor/Rsync.antt =====
-- internal/executor/rsync.go. What rsync does is an argument: `Copy` fails, or the transfer sends
-- its progress reports and then ends, or the context is done first.
pub mod Laws
use grabarr.Common.{
  Option, none, some, List, [], ◌∷◌, ◌++◌, if◌then◌else◌, codes, is_abs, Error, wrapped,
  permanent_bare, canceled, Action, pure, logged, ◌>>=◌, ◌>>◌,
}
use grabarr.Models.Job.{JobProgress, Job, is_extraction_job}
use grabarr.Repository.Db.{World, Db}
use grabarr.Repository.Jobs.{update_job}
use grabarr.Executor.Errors.{classify_rsync_error}

pub data Ending : Type 0 where
  context_done : Ending
  finished : Option Error → Ending

pub data Transfer : Type 0 where
  refused : Error → Transfer
  started : List JobProgress → Ending → Transfer

-- The fields that a report sets; an ETA is kept where the report has none.
abbrev report : JobProgress → Job → Job
report p j = record j {
  progress = record j.progress {
    percentage = p.percentage;
    transferred_bytes = p.transferred_bytes;
    transfer_speed = p.transfer_speed;
    last_update_time = p.last_update_time;
    eta = elim p.eta [ none ↦ j.progress.eta | some t ↦ some t ];
  };
}

module _ (w : World) where
  -- The goroutine that monitors progress.
  monitor : List JobProgress → Job → Action Db Job
  monitor [] j = pure j
  monitor (p ∷ ps) j = logged (update_job w (report p j)) >> monitor ps (report p j)

  abbrev conclude : Option Error → Job → Option Error × Job
  conclude none j = (none, j)
  conclude (some e) j = (some (classify_rsync_error (wrapped (codes "rsync transfer failed") e)), j)

  abbrev after_transfer : Ending → Job → Action Db (Option Error × Job)
  after_transfer context_done j = pure (some canceled, j)
  after_transfer (finished outcome) j = logged (update_job w j) >> pure (conclude outcome j)

  -- The branch of `Execute` for downloads: the error that it returns, and the job as it left it.
  unfoldable pub execute_download : Transfer → Job → Action Db (Option Error × Job)
  unfolding monitor
  execute_download t j =
      if is_abs j.local_path
      then elim t [
        | refused e ↦ pure (some (wrapped (codes "failed to start rsync") e), j)
        | started reports ending ↦ monitor reports j >>= after_transfer ending
      ]
      else pure (some (permanent_bare (codes "local path must be absolute: " ++ j.local_path)), j)

  -- `Execute`: an extraction job goes to the extraction handler, whose error is an argument here.
  unfoldable pub execute : Option Error → Transfer → Job → Action Db (Option Error × Job)
  unfolding execute_download
  execute extraction t j =
      if is_extraction_job j then pure (extraction, j) else execute_download t j
