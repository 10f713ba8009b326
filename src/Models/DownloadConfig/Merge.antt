-- ===== src/Models/DownloadConfig/Merge.antt =====
-- What merging with the defaults and the rclone map promise.
use grabarr.Common.{
  ap, ◌++◌, ◌≡◌, ◌≢◌, Option, none, some, List, [], ◌∷◌, map, Text, codes, refl, arith,
}
use grabarr.Models.DownloadConfig.{
  DownloadConfig, Setting, entry, or_default, merge_with_defaults, to_rclone_config,
}

-- The keys of the rclone map, in the order in which the code writes them.
abbrev pub rclone_keys : List Text
rclone_keys =
    codes "Transfers"
    ∷ codes "Checkers"
    ∷ codes "BwLimit"
    ∷ codes "BwLimitFile"
    ∷ codes "BufferSize"
    ∷ codes "UseMmap"
    ∷ codes "MultiThreadStreams"
    ∷ codes "MultiThreadCutoff"
    ∷ codes "IgnoreExisting"
    ∷ codes "NoTraverse"
    ∷ codes "UpdateOlder"
    ∷ []

-- A config with a value for each of the eleven settings that the defaults have.
abbrev pub IsFull : DownloadConfig → Type 0
IsFull dc =
    (dc.transfers ≢ none)
    × (dc.checkers ≢ none)
    × (dc.bw_limit ≢ none)
    × (dc.bw_limit_file ≢ none)
    × (dc.buffer_size ≢ none)
    × (dc.use_mmap ≢ none)
    × (dc.multi_thread_streams ≢ none)
    × (dc.multi_thread_cutoff ≢ none)
    × (dc.ignore_existing ≢ none)
    × (dc.no_traverse ≢ none)
    × (dc.update_older ≢ none)

or_default-ne-none : {A : Type 0} (o : Option A) (b : A) → or_default o (some b) ≢ none
or_default-ne-none none b = ground arith
or_default-ne-none (some a) b = ground arith

-- Every merged config is full.
merge_with_defaults-IsFull : (dc : Option DownloadConfig) → IsFull (merge_with_defaults dc)
unfolding merge_with_defaults
merge_with_defaults-IsFull none = ground arith
merge_with_defaults-IsFull (some dc) = (
  or_default-ne-none dc.transfers _,
  or_default-ne-none dc.checkers _,
  or_default-ne-none dc.bw_limit _,
  or_default-ne-none dc.bw_limit_file _,
  or_default-ne-none dc.buffer_size _,
  or_default-ne-none dc.use_mmap _,
  or_default-ne-none dc.multi_thread_streams _,
  or_default-ne-none dc.multi_thread_cutoff _,
  or_default-ne-none dc.ignore_existing _,
  or_default-ne-none dc.no_traverse _,
  or_default-ne-none dc.update_older _,
)

-- A config with all eleven settings is kept by the merge, but for its two SFTP settings, which
-- are lost.
pub merge_with_defaults-full :
    (dc : DownloadConfig)
    → IsFull dc
    → merge_with_defaults (some dc) ≡ record dc { sftp_chunk_size = none; sftp_concurrency = none }
unfolding merge_with_defaults
merge_with_defaults-full dc h = ground arith

entry-key :
    {A : Type 0} (key : Text) (wrap : A → Setting) (o : Option A)
    → o ≢ none
    → map (λ e. e.0) (entry key wrap o) ≡ key ∷ []
entry-key key wrap none h = ground arith
entry-key key wrap (some a) h = refl

entry-keys :
    {A : Type 0} (key : Text) (wrap : A → Setting) (o : Option A) (rest : List (Text × Setting))
    {keys : List Text}
    → o ≢ none
    → map (λ e. e.0) rest ≡ keys
    → map (λ e. e.0) (entry key wrap o ++ rest) ≡ key ∷ keys
entry-keys key wrap none rest h e = ground arith
entry-keys key wrap (some a) rest h e = ap (λ ks. key ∷ ks) e

-- For every config, also the nil one, the rclone map has exactly the eleven keys.
to_rclone_config-keys :
    (dc : Option DownloadConfig) → map (λ e. e.0) (to_rclone_config dc) ≡ rclone_keys
unfolding to_rclone_config
to_rclone_config-keys dc =
    let m = merge_with_defaults dc in
    let h = merge_with_defaults-IsFull dc in
    entry-keys (codes "Transfers") _ m.transfers _ h.0 (
      entry-keys (codes "Checkers") _ m.checkers _ h.1 (
        entry-keys (codes "BwLimit") _ m.bw_limit _ h.2 (
          entry-keys (codes "BwLimitFile") _ m.bw_limit_file _ h.3 (
            entry-keys (codes "BufferSize") _ m.buffer_size _ h.4 (
              entry-keys (codes "UseMmap") _ m.use_mmap _ h.5 (
                entry-keys (codes "MultiThreadStreams") _ m.multi_thread_streams _ h.6 (
                  entry-keys (codes "MultiThreadCutoff") _ m.multi_thread_cutoff _ h.7 (
                    entry-keys (codes "IgnoreExisting") _ m.ignore_existing _ h.8 (
                      entry-keys (codes "NoTraverse") _ m.no_traverse _ h.9
                        (entry-key (codes "UpdateOlder") _ m.update_older h.10))))))))))
