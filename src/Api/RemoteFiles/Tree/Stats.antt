-- ===== src/Api/RemoteFiles/Tree/Stats.antt =====
-- internal/api/remote_files.go: the rolled up counts of the tree and those of the flat list.
use grabarr.Common.{ℕ, ◌+◌, List, [], ◌∷◌, ℤ, pos, to_bits, sub_ℕ, ltb, if◌then◌else◌, ◌^◌, Text}
use grabarr.Models.Job.{Job}
use grabarr.Models.RemoteFile.{RemoteFile}
use grabarr.Api.RemoteFiles.Tree.{TreeFolderStats, file_stats, no_stats, add_stats, file_node}

abbrev signed : ℕ → ℤ
signed r = if ltb r (2 ^ 63) then pos r else sub_ℕ r (2 ^ 64)

-- The counts of a list of files.
abbrev pub flat_stats : Text → List (ℕ × Job) → List RemoteFile → TreeFolderStats
flat_stats watched_path jobs [] = no_stats
flat_stats watched_path jobs (rf ∷ rfs) =
    add_stats (file_stats (file_node watched_path jobs rf)) (flat_stats watched_path jobs rfs)

-- The sum of the sizes of the files, as numbers of 64 bits.
abbrev pub sum_sizes : List RemoteFile → ℕ
sum_sizes [] = 0
sum_sizes (rf ∷ rfs) = to_bits rf.size + sum_sizes rfs
