-- ===== src/Gatekeeper/Laws.antt =====
-- internal/gatekeeper/gatekeeper.go: the decisions.
use grabarr.Common.{
  ℕ, ◌+◌, ◌-◌, ◌^◌, ◌≤◌, ◌<◌, ◌≡◌, ◌∙◌, ◌≢◌, refl, true, false, Bool-cases, List, [], ◌∷◌, ℤ, pos,
  to_int64, add_int64, sub_int64, Error, codes, Result, ok, err, arith,
}
use grabarr.Config.{GatekeeperConfig}
use grabarr.Models.Job.{Time}
use grabarr.Gatekeeper.{
  Floats, Statfs, Gatekeeper, available_uint, total_uint, new_gatekeeper, check_cache_usage,
  update_resource_status, monitor_loop, projected_usage, cache_max, can_start_job,
}

-- What IEEE 754 says of numbers that `<=` relates, where `le` is `<=`: converting an int64, dividing
-- by a positive int64 and multiplying by 100 keep the order, and `>` respects it.
pub record IsMonotone {F : Type 0} (fl : Floats F) (le : F → F → Type 0) : Type 0 where
  pub of_int_mono : (a b : ℕ) → a ≤ b → b < 2 ^ 63 → le (fl.of_int (pos a)) (fl.of_int (pos b))
  pub div_mono :
      (a b : F) (n : ℕ)
      → 0 < n
      → n < 2 ^ 63
      → le a b
      → le (fl.div a (fl.of_int (pos n))) (fl.div b (fl.of_int (pos n)))
  pub mul_mono :
      (a b : F) → le a b → le (fl.mul a (fl.of_int (pos 100))) (fl.mul b (fl.of_int (pos 100)))
  pub gt_mono : (a b c : F) → le a b → fl.gt b c ≡ false → fl.gt a c ≡ false

-- A disk whose figures, with a file of a size, fit into 63 bits.
pub record IsSmall (st : Statfs) (size : ℕ) : Type 0 where
  pub positive : 0 < total_uint st
  pub available : available_uint st ≤ total_uint st
  pub bounded : total_uint st + size < 2 ^ 63

to_int64-small : (n : ℕ) → n < 2 ^ 63 → to_int64 n ≡ pos n
to_int64-small n h = ground (arith, h)

add_int64-small : (a b : ℕ) → a + b < 2 ^ 63 → add_int64 (pos a) (pos b) ≡ pos (a + b)
add_int64-small a b h = ground (arith, h)

sub_int64-small : (a b : ℕ) → b ≤ a → a < 2 ^ 63 → sub_int64 (pos a) (pos b) ≡ pos (a - b)
sub_int64-small a b h k = ground (arith, h, k)

projected-small :
    (st : Statfs) (n : ℕ)
    → available_uint st ≤ total_uint st
    → total_uint st + n < 2 ^ 63
    → add_int64 (sub_int64 (to_int64 (total_uint st)) (to_int64 (available_uint st))) (pos n)
      ≡ pos (total_uint st - available_uint st + n)
projected-small st n h k =
    let t = total_uint st in
    let a = available_uint st in
    let small_t : to_int64 t ≡ pos t = to_int64-small t (omega (arith, k)) in
    let small_a : to_int64 a ≡ pos a = to_int64-small a (omega (arith, h, k)) in
    let used : sub_int64 (pos t) (pos a) ≡ pos (t - a) = sub_int64-small t a h (omega (arith, k)) in
    rw (small_t, small_a, used) (add_int64-small (t - a) n (omega (arith, h, k)))

module _ {F : Type 0} (fl : Floats F) (le : F → F → Type 0) (mono : IsMonotone fl le) where
  projected_usage-small :
      (st : Statfs) (n : ℕ)
      → available_uint st ≤ total_uint st
      → total_uint st + n < 2 ^ 63
      → projected_usage fl st (pos n)
        ≡ fl.mul
            (fl.div
              (fl.of_int (pos (total_uint st - available_uint st + n)))
              (fl.of_int (pos (total_uint st))))
            (fl.of_int (pos 100))
  unfolding projected_usage
  projected_usage-small st n h k = λ i.
      fl.mul
        (fl.div (fl.of_int (projected-small st n h k i))
          (fl.of_int (to_int64-small (total_uint st) (omega (arith, k)) i)))
        (fl.of_int (pos 100))

  projected_usage-mono :
      (st : Statfs) (n l : ℕ)
      → IsSmall st l
      → n ≤ l
      → le (projected_usage fl st (pos n)) (projected_usage fl st (pos l))
  projected_usage-mono st n l small h =
      let t = total_uint st in
      let used = t - available_uint st in
      rw
        (
          projected_usage-small st n small.available (omega (arith, small.bounded, h)),
          projected_usage-small st l small.available small.bounded,
        )
        (mono.mul_mono (fl.div (fl.of_int (pos (used + n))) (fl.of_int (pos t)))
          (fl.div (fl.of_int (pos (used + l))) (fl.of_int (pos t)))
          (mono.div_mono (fl.of_int (pos (used + n))) (fl.of_int (pos (used + l))) t small.positive
            (omega (arith, small.bounded))
            (mono.of_int_mono (used + n) (used + l) (omega (arith, h))
              (omega (arith, small.bounded)))))

  -- Where float64 keeps the order and the figures of the disk fit, a job that may start is no larger
  -- than one that may: if a file of some size is allowed, so is one that is smaller or has no size.
  pub can_start_job-smaller :
      (cfg : GatekeeperConfig) (g : Gatekeeper F) (st : Statfs) (n l : ℕ)
      → IsSmall st l
      → n ≤ l
      → (can_start_job fl cfg g (ok st) (pos l)).allowed ≡ true
      → (can_start_job fl cfg g (ok st) (pos n)).allowed ≡ true
  unfolding can_start_job
  can_start_job-smaller cfg g st n l small h e =
      let fits =
        mono.gt_mono (projected_usage fl st (pos n)) (projected_usage fl st (pos l))
          (cache_max fl cfg) (projected_usage-mono st n l small h) in
      ground
        (arith, e, h, fits, Bool-cases (fl.gt (projected_usage fl st (pos l)) (cache_max fl cfg)))

module _ {F : Type 0} (fl : Floats F) (cfg : GatekeeperConfig) where
  -- Where the check of sizes is required and statfs fails, no file that has a size may start, and
  -- an update keeps both usages as they were.
  can_start_job-blind :
      (g : Gatekeeper F) (e : Error) (n : ℕ) (now : Time)
      → cfg.rules.require_filesize_check ≡ true
      → 0 < n
      → ((can_start_job fl cfg g (err e) (pos n)).allowed ≡ false)
        × ((update_resource_status fl now (err e) g).cache_usage ≡ g.cache_usage)
        × ((update_resource_status fl now (err e) g).bandwidth_usage ≡ g.bandwidth_usage)
  unfolding can_start_job update_resource_status check_cache_usage
  can_start_job-blind g e n now required h = (ground (arith, required, h), refl, refl)

  update_resource_status-bandwidth :
      (now : Time) (stat : Result Statfs) (g : Gatekeeper F)
      → (update_resource_status fl now stat g).bandwidth_usage ≡ g.bandwidth_usage
  unfolding update_resource_status check_cache_usage
  update_resource_status-bandwidth now (ok st) g = refl
  update_resource_status-bandwidth now (err e) g = refl

  monitor_loop-bandwidth :
      (ticks : List (Time × Result Statfs)) (g : Gatekeeper F)
      → (monitor_loop fl ticks g).bandwidth_usage ≡ g.bandwidth_usage
  unfolding monitor_loop
  monitor_loop-bandwidth [] g = refl
  monitor_loop-bandwidth ((now, stat) ∷ ticks) g =
      monitor_loop-bandwidth ticks (update_resource_status fl now stat g)
      ∙ update_resource_status-bandwidth now stat g

  can_start_job-reason :
      (g : Gatekeeper F) (stat : Result Statfs) (size : ℤ)
      → fl.ge g.bandwidth_usage (fl.of_int cfg.seedbox.bandwidth_limit_mbps) ≡ false
      → (can_start_job fl cfg g stat size).reason ≢ codes "Bandwidth limit reached"
  unfolding can_start_job
  can_start_job-reason g stat size h = ground (arith, h, stat)

  -- The bandwidth is never measured. Over any checks of the monitor, from a new gatekeeper on, and
  -- for a limit that float64 does not take for 0 or less, no job is refused for the bandwidth.
  pub monitor_loop-unlimited :
      (ticks : List (Time × Result Statfs)) (now : Time) (stat : Result Statfs) (size : ℤ)
      → fl.ge (fl.of_int (pos 0)) (fl.of_int cfg.seedbox.bandwidth_limit_mbps) ≡ false
      → let g = monitor_loop fl ticks (new_gatekeeper fl now) in
        (g.bandwidth_usage ≡ fl.of_int (pos 0))
        × ((can_start_job fl cfg g stat size).reason ≢ codes "Bandwidth limit reached")
  monitor_loop-unlimited ticks now stat size h =
      let g = monitor_loop fl ticks (new_gatekeeper fl now) in
      let same = monitor_loop-bandwidth ticks (new_gatekeeper fl now) in
      (same, can_start_job-reason g stat size (rw same h))
