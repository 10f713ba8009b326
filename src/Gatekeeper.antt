-- ===== src/Gatekeeper.antt =====
-- internal/gatekeeper/gatekeeper.go. Go's float64 is a parameter with its operations; the figures
-- of the disk wrap around at 64 bits as in the source. What statfs gives is an argument.
pub mod Laws
use grabarr.Common.{
  ℕ, ◌*◌, ◌+◌, ◌-◌, ◌%◌, ◌^◌, Bool, true, false, ◌&&◌, Option, none, some, List, [], ◌∷◌,
  if◌then◌else◌, ltb, ltb_ℤ, ℤ, pos, to_bits, to_int64, add_int64, sub_int64, Text, codes, Error,
  wrapped, Result, ok, err,
}
use grabarr.Config.{GatekeeperConfig, Duration}
use grabarr.Models.Job.{Time}

-- The operations on float64 that the package uses; `of_nat` is on an unsigned number.
pub record Floats (F : Type 0) : Type 0 where
  pub of_int : ℤ → F
  pub of_nat : ℕ → F
  pub div : F → F → F
  pub mul : F → F → F
  pub ge : F → F → Bool
  pub gt : F → F → Bool

-- The fields of unix.Statfs_t that are read.
pub record Statfs : Type 0 where
  pub blocks : ℕ
  pub bavail : ℕ
  pub bsize : ℤ

pub data Details (F : Type 0) : Type 0 where
  no_details : Details F
  bandwidth : (current_mbps : F) → (limit_mbps : ℤ) → Details F
  cache : (current_percent max_percent : F) → Details F
  file :
      (file_size_bytes available_bytes : ℤ) → (projected_usage_percent max_percent : F) → Details F

pub record GateDecision (F : Type 0) : Type 0 where
  pub allowed : Bool
  pub reason : Text
  pub details : Details F

pub record Gatekeeper (F : Type 0) : Type 0 where
  pub bandwidth_usage : F
  pub cache_usage : F
  pub last_check : Time

pub record GatekeeperResourceStatus (F : Type 0) : Type 0 where
  pub bandwidth_usage_mbps : F
  pub bandwidth_limit_mbps : ℤ
  pub cache_usage_percent : F
  pub cache_max_percent : ℤ
  pub cache_free_bytes : ℤ
  pub cache_total_bytes : ℤ

-- `getCacheDiskStats`, from what statfs gives.
abbrev pub get_cache_disk_stats : Result Statfs → Result Statfs
get_cache_disk_stats (ok st) = ok st
get_cache_disk_stats (err e) = err (wrapped (codes "failed to stat cache disk") e)

-- `stat.Bavail * uint64(stat.Bsize)`
abbrev pub available_uint : Statfs → ℕ
available_uint st = (st.bavail * to_bits st.bsize) % 2 ^ 64

-- `stat.Blocks * uint64(stat.Bsize)`
abbrev pub total_uint : Statfs → ℕ
total_uint st = (st.blocks * to_bits st.bsize) % 2 ^ 64

module _ {F : Type 0} (fl : Floats F) where
  -- `New`
  abbrev pub new_gatekeeper : Time → Gatekeeper F
  new_gatekeeper now = record {
    bandwidth_usage = fl.of_int (pos 0);
    cache_usage = fl.of_int (pos 0);
    last_check = now;
  }

  unfoldable pub check_cache_usage : Result Statfs → Result F
  check_cache_usage stat = elim (get_cache_disk_stats stat) [
    | err e ↦ err e
    | ok st ↦
        let used = (total_uint st + (2 ^ 64 - available_uint st)) % 2 ^ 64 in
        ok (fl.mul (fl.div (fl.of_nat used) (fl.of_nat (total_uint st))) (fl.of_int (pos 100)))
  ]

  -- After an error the previous value is kept.
  unfoldable pub update_resource_status : Time → Result Statfs → Gatekeeper F → Gatekeeper F
  unfolding check_cache_usage
  update_resource_status now stat g = elim (check_cache_usage stat) [
    | err e ↦ record g { last_check = now }
    | ok usage ↦ record g { cache_usage = usage; last_check = now }
  ]

  -- Start's first check, and then one for each tick of `monitorLoop`, with the time and the disk.
  unfoldable pub monitor_loop : List (Time × Result Statfs) → Gatekeeper F → Gatekeeper F
  unfolding update_resource_status
  monitor_loop [] g = g
  monitor_loop ((now, stat) ∷ ticks) g = monitor_loop ticks (update_resource_status now stat g)

  abbrev pub refuse : Text → Details F → GateDecision F
  refuse reason details = record { allowed = false; reason = reason; details = details }

  -- The usage after a job of a size, in percent.
  unfoldable pub projected_usage : Statfs → ℤ → F
  projected_usage st file_size =
      let available = to_int64 (available_uint st) in
      let total = to_int64 (total_uint st) in
      let projected = add_int64 (sub_int64 total available) file_size in
      fl.mul (fl.div (fl.of_int projected) (fl.of_int total)) (fl.of_int (pos 100))

  module _ (cfg : GatekeeperConfig) where
    abbrev pub cache_max : F
    cache_max = fl.of_int cfg.cache_disk.max_usage_percent

    abbrev pub all_passed : GateDecision F
    all_passed = record { allowed = true; reason = codes "All checks passed"; details = no_details }

    -- Rule 3.
    abbrev pub check_fit : ℤ → Result Statfs → GateDecision F
    check_fit file_size (err e) = refuse (codes "Unable to verify disk space") no_details
    check_fit file_size (ok st) =
        if fl.gt (projected_usage st file_size) cache_max
        then refuse (codes "File size would exceed cache limit")
            (file file_size (to_int64 (available_uint st)) (projected_usage st file_size) cache_max)
        else all_passed

    unfoldable pub can_start_job : Gatekeeper F → Result Statfs → (file_size : ℤ) → GateDecision F
    unfolding projected_usage
    can_start_job g stat file_size =
        if fl.ge g.bandwidth_usage (fl.of_int cfg.seedbox.bandwidth_limit_mbps)
        then refuse (codes "Bandwidth limit reached")
            (bandwidth g.bandwidth_usage cfg.seedbox.bandwidth_limit_mbps)
        else if fl.ge g.cache_usage cache_max
        then refuse (codes "Cache disk usage too high") (cache g.cache_usage cache_max)
        else if cfg.rules.require_filesize_check && ltb_ℤ (pos 0) file_size
        then check_fit file_size (get_cache_disk_stats stat)
        else all_passed

    -- The figures of the disk are 0 where statfs fails.
    abbrev free_and_total : Result Statfs → ℤ × ℤ
    free_and_total (err e) = (pos 0, pos 0)
    free_and_total (ok st) = (to_int64 (available_uint st), to_int64 (total_uint st))

    unfoldable pub get_resource_status : Gatekeeper F → Result Statfs → GatekeeperResourceStatus F
    get_resource_status g stat =
        let (free, total) = free_and_total (get_cache_disk_stats stat) in
        record {
          bandwidth_usage_mbps = g.bandwidth_usage;
          bandwidth_limit_mbps = cfg.seedbox.bandwidth_limit_mbps;
          cache_usage_percent = g.cache_usage;
          cache_max_percent = cfg.cache_disk.max_usage_percent;
          cache_free_bytes = free;
          cache_total_bytes = total;
        }

-- The shorter of the two intervals.
abbrev pub check_interval : GatekeeperConfig → Duration
check_interval cfg =
    if ltb cfg.cache_disk.check_interval cfg.seedbox.check_interval
    then cfg.cache_disk.check_interval
    else cfg.seedbox.check_interval
