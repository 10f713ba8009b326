-- ===== src/Models/DownloadConfig.antt =====
-- internal/models/download_config.go. A nil pointer is `none`; the map for the rclone API is an
-- association list of its keys, each with its value.
pub mod Merge
use grabarr.Common.{ℕ, Bool, true, Option, none, some, List, [], ◌∷◌, ◌++◌, ℤ, pos, Text, codes}

pub record DownloadConfig : Type 0 where
  pub transfers : Option ℤ
  pub checkers : Option ℤ
  pub bw_limit : Option Text
  pub bw_limit_file : Option Text
  pub sftp_chunk_size : Option Text
  pub sftp_concurrency : Option ℤ
  pub buffer_size : Option Text
  pub use_mmap : Option Bool
  pub multi_thread_streams : Option ℤ
  pub multi_thread_cutoff : Option Text
  pub ignore_existing : Option Bool
  pub no_traverse : Option Bool
  pub update_older : Option Bool

abbrev pub empty_config : DownloadConfig
empty_config = record {
  transfers = none;
  checkers = none;
  bw_limit = none;
  bw_limit_file = none;
  sftp_chunk_size = none;
  sftp_concurrency = none;
  buffer_size = none;
  use_mmap = none;
  multi_thread_streams = none;
  multi_thread_cutoff = none;
  ignore_existing = none;
  no_traverse = none;
  update_older = none;
}

abbrev pub default_download_config : DownloadConfig
default_download_config = record {
  transfers = some (pos 1);
  checkers = some (pos 1);
  bw_limit = some (codes "10M");
  bw_limit_file = some (codes "10M");
  sftp_chunk_size = none;
  sftp_concurrency = none;
  buffer_size = some (codes "32M");
  use_mmap = some true;
  multi_thread_streams = some (pos 1);
  multi_thread_cutoff = some (codes "10G");
  ignore_existing = some true;
  no_traverse = some true;
  update_older = some true;
}

-- `if custom != nil { custom } else { fallback }`
abbrev or_default : {A : Type 0} → Option A → Option A → Option A
or_default (some a) fallback = some a
or_default none fallback = fallback

-- The two SFTP fields are in no branch of the source, so the merged config has neither.
merge_fields : DownloadConfig → DownloadConfig → DownloadConfig
merge_fields dc defaults = record empty_config {
  transfers = or_default dc.transfers defaults.transfers;
  checkers = or_default dc.checkers defaults.checkers;
  bw_limit = or_default dc.bw_limit defaults.bw_limit;
  bw_limit_file = or_default dc.bw_limit_file defaults.bw_limit_file;
  buffer_size = or_default dc.buffer_size defaults.buffer_size;
  use_mmap = or_default dc.use_mmap defaults.use_mmap;
  multi_thread_streams = or_default dc.multi_thread_streams defaults.multi_thread_streams;
  multi_thread_cutoff = or_default dc.multi_thread_cutoff defaults.multi_thread_cutoff;
  ignore_existing = or_default dc.ignore_existing defaults.ignore_existing;
  no_traverse = or_default dc.no_traverse defaults.no_traverse;
  update_older = or_default dc.update_older defaults.update_older;
}

unfoldable pub merge_with_defaults : Option DownloadConfig → DownloadConfig
unfolding merge_fields
merge_with_defaults none = default_download_config
merge_with_defaults (some dc) = merge_fields dc default_download_config

pub data Setting : Type 0 where
  number : ℤ → Setting
  text : Text → Setting
  flag : Bool → Setting

-- `if merged.F != nil { config[key] = *merged.F }`
abbrev entry : {A : Type 0} → Text → (A → Setting) → Option A → List (Text × Setting)
entry key wrap none = []
entry key wrap (some a) = (key, wrap a) ∷ []

unfoldable pub to_rclone_config : Option DownloadConfig → List (Text × Setting)
unfolding merge_with_defaults
to_rclone_config dc =
    let merged = merge_with_defaults dc in
    entry (codes "Transfers") number merged.transfers
    ++ (entry (codes "Checkers") number merged.checkers
        ++ (entry (codes "BwLimit") text merged.bw_limit
            ++ (entry (codes "BwLimitFile") text merged.bw_limit_file
                ++ (entry (codes "BufferSize") text merged.buffer_size
                    ++ (entry (codes "UseMmap") flag merged.use_mmap
                        ++ (entry (codes "MultiThreadStreams") number merged.multi_thread_streams
                            ++ (entry (codes "MultiThreadCutoff") text merged.multi_thread_cutoff
                                ++ (entry (codes "IgnoreExisting") flag merged.ignore_existing
                                    ++ (entry (codes "NoTraverse") flag merged.no_traverse
                                        ++ entry (codes "UpdateOlder") flag
                                            merged.update_older)))))))))
