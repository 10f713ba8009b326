-- ===== src/Notifications/Laws.antt =====
-- internal/notifications/pushover.go: the loop of formatBytes, and the priorities of requests.
use native.Mathlib.Nat.{mul_assoc}
use grabarr.Common.{
  sym, ap, ℕ, zero, suc, ◌+◌, ◌*◌, ◌/◌, ◌^◌, ◌≤◌, ◌<◌, ◌≡◌, ◌∙◌, refl, false, ◌++◌, ◌∷◌, ◌==◌,
  Bool-cases, inl, inr, ◌⊎◌, Option, some, if◌then◌else◌, leb, ltb, leb_ℤ, eq_ℤ, pos, codes, arith,
}
use grabarr.Config.{PushoverConfig}
use grabarr.Models.Job.{Time, Job}
use grabarr.Notifications.{
  Formats, scale, letter, with_letter, with_scale, format_bytes, job_failed_request,
}

pow-suc : (k : ℕ) → 1024 ^ suc k ≡ 1024 * 1024 ^ k
pow-suc k = omega arith

scaled_pair :
    (div exp k : ℕ)
    → ◌≡◌ {A = Option (ℕ × ℕ)}
        (some (div * 1024 * 1024 ^ k, suc exp + k))
        (some (div * 1024 ^ suc k, exp + suc k))
scaled_pair div exp k =
    let first : div * 1024 * 1024 ^ k ≡ div * 1024 ^ suc k =
      mul_assoc div 1024 (1024 ^ k) ∙ ap (λ (x : ℕ). div * x) (sym (pow-suc k)) in
    let second : suc exp + k ≡ exp + suc k = omega arith in λ i. some (first i, second i)

-- The result of the loop after `k` rounds.
abbrev IsScaled : (fuel n div exp : ℕ) → Option (ℕ × ℕ) → Type 0
IsScaled fuel n div exp r =
    (k : ℕ) × (r ≡ some (div * 1024 ^ k, exp + k))
    × (k ≤ fuel)
    × (n < 1024 ^ suc k)
    × ((k ≡ 0) ⊎ (1024 ^ k ≤ n))

scale-IsScaled :
    (fuel n div exp : ℕ)
    → n < 1024 ^ suc fuel
    → IsScaled fuel n div exp (scale (suc fuel) n div exp)
unfolding scale
scale-IsScaled zero n div exp h = (0, ground (arith, h), ground arith, h, inl refl)
scale-IsScaled (suc fuel) n div exp h = elim (Bool-cases (leb 1024 n)) [
  | inr e ↦ (0, ground (arith, e), ground arith, ground (arith, e), inl refl)
  | inl e ↦
      let (k, same, small, below, above) =
        scale-IsScaled fuel (n / 1024) (div * 1024) (suc exp)
          (ground (arith, h, pow-suc (suc fuel))) in
      (
        suc k,
        rw e (same ∙ scaled_pair div exp k),
        omega (arith, small),
        ground (arith, below, pow-suc (suc k)),
        inr (ground (arith, above, e, pow-suc k)),
      )
]

letter-some : (k : ℕ) → k ≤ 5 → (c : ℕ) × (letter k (codes "KMGTPE") ≡ some c)
letter-some zero h = (b'K', refl)
letter-some (suc zero) h = (b'M', refl)
letter-some (suc (suc zero)) h = (b'G', refl)
letter-some (suc (suc (suc zero))) h = (b'T', refl)
letter-some (suc (suc (suc (suc zero)))) h = (b'P', refl)
letter-some (suc (suc (suc (suc (suc zero))))) h = (b'E', refl)
letter-some (suc (suc (suc (suc (suc (suc k)))))) h = ground (arith, h)

module _ (fmt : Formats) where
  format_bytes-at :
      (n k c : ℕ)
      → 1024 ≤ n
      → scale 6 (n / 1024) 1024 0 ≡ some (1024 * 1024 ^ k, 0 + k)
      → letter k (codes "KMGTPE") ≡ some c
      → format_bytes fmt (pos n) ≡ some (fmt.ratio n (1024 ^ suc k) ++ codes " " ++ c ∷ codes "B")
  unfolding format_bytes
  format_bytes-at n k c h scaled found =
      let large : (n == 0) ≡ false = ground (arith, h) in
      let same : 0 + k ≡ k = omega arith in
      let scaled_up : ltb n 1024 ≡ false = ground (arith, h) in
      rw (large, scaled_up)
        (ap (with_scale fmt n) (scaled ∙ λ i. some (1024 * 1024 ^ k, same i))
          ∙ ap (with_letter fmt n (1024 * 1024 ^ k)) found
          ∙ ap (λ (d : ℕ). some (fmt.ratio n d ++ codes " " ++ c ∷ codes "B")) (sym (pow-suc k)))

  -- A size of at least 1024 bytes that an int64 holds is printed: the loop ends within its fuel, the
  -- index of the unit is in range, and the divisor is the largest power of 1024 up to the size.
  pub format_bytes-total :
      (n : ℕ)
      → 1024 ≤ n
      → n < 2 ^ 63
      → (k : ℕ) × (c : ℕ) × (letter k (codes "KMGTPE") ≡ some c)
        × (format_bytes fmt (pos n)
            ≡ some (fmt.ratio n (1024 ^ suc k) ++ codes " " ++ c ∷ codes "B"))
        × (1024 ^ suc k ≤ n)
        × (n < 1024 ^ suc (suc k))
  format_bytes-total n h bound =
      let (k, same, small, below, above) =
        scale-IsScaled 5 (n / 1024) 1024 0 (ground (arith, bound)) in
      let (c, found) = letter-some k small in
      (
        k,
        c,
        found,
        format_bytes-at n k c h same found,
        ground (arith, above, h, pow-suc k),
        ground (arith, below, pow-suc (suc k)),
      )

module _ (fmt : Formats) (cfg : PushoverConfig) (now : Time) where
  -- A failure with no retries left is sent with priority 1 and never repeated, even where 2 is
  -- configured; any other failure has the configured priority. A request has the interval and the
  -- end of the repetition, as configured, exactly if its priority is 2.
  job_failed_request-priority :
      (j : Job)
      → let r = job_failed_request fmt cfg now j in
        (r.priority ≡ (if leb_ℤ j.max_retries (pos j.retries) then pos 1 else cfg.priority))
        × (r.retry ≡ (if eq_ℤ r.priority (pos 2) then fmt.seconds cfg.retry_interval else 0))
        × (r.expire ≡ (if eq_ℤ r.priority (pos 2) then fmt.seconds cfg.expire_time else 0))
  unfolding job_failed_request
  job_failed_request-priority j =
      let exhausted = leb_ℤ j.max_retries (pos j.retries) in
      let b = Bool-cases exhausted in
      let c = Bool-cases (eq_ℤ cfg.priority (pos 2)) in
      (ground (arith, b, c), ground (arith, b, c), ground (arith, b, c))
