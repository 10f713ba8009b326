-- ===== src/Models/Job/Status.antt =====
-- The values of `models.JobStatus`; `unset` is the empty string.
use grabarr.Common.{ℕ, ◌≡◌, ◌↔◌, Bool, true, ◌==◌, arith}

pub data JobStatus : Type 0 where
  unset queued pending running completed failed cancelled : JobStatus

abbrev status_index : JobStatus → ℕ
status_index unset = 0
status_index queued = 1
status_index pending = 2
status_index running = 3
status_index completed = 4
status_index failed = 5
status_index cancelled = 6

-- `==` on statuses.
abbrev pub status_eq : JobStatus → JobStatus → Bool
status_eq a b = status_index a == status_index b

status_index_injective : (a b : JobStatus) → status_index a ≡ status_index b → a ≡ b
status_index_injective a b e = ground arith

pub status_eq_iff : (a b : JobStatus) → (status_eq a b ≡ true) ↔ (a ≡ b)
status_eq_iff a b = (λ e. status_index_injective a b (ground arith), λ e. ground arith)
