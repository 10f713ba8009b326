-- ===== src/Notifications.antt =====
-- internal/notifications/pushover.go. The formats of fmt and of durations, and what the HTTP client
-- gives for a request, are arguments.
pub mod Laws
use grabarr.Common.{
  ℕ, zero, suc, ◌*◌, ◌+◌, ◌/◌, Bool, true, false, not, ◌&&◌, ◌==◌, Option, none, some, List, [],
  ◌∷◌, ◌++◌, if◌then◌else◌, ltb, leb, ltb_ℤ, leb_ℤ, eq_ℤ, ℤ, pos, negsuc, decimal, Text, codes,
  ◌=t◌, join_by, Error, plain, wrapped, Result, ok, err,
}
use grabarr.Config.{PushoverConfig, Duration}
use grabarr.Models.Job.{Time, Job}
use grabarr.Queue.Ops.{status_text}

-- `seconds` is `int(d.Seconds())`, `since` and `between` are rounded durations as text, `percent` is
-- `%.1f` of a percentage, and `ratio` is `%.1f` of the quotient of two numbers.
pub record Formats : Type 0 where
  pub seconds : Duration → ℕ
  pub since : Time → Text
  pub between : (start end : Time) → Text
  pub percent : ℕ → Text
  pub ratio : (bytes div : ℕ) → Text

pub record PushoverRequest : Type 0 where
  pub token : Text
  pub user : Text
  pub message : Text
  pub title : Text
  pub priority : ℤ
  pub timestamp : Time
  pub sound : Text
  pub retry : ℕ
  pub expire : ℕ

pub record PushoverResponse : Type 0 where
  pub status : ℤ
  pub errors : List Text

-- The HTTP client's error, or what the JSON decoder makes of the body.
pub data HttpOutcome : Type 0 where
  not_sent : Error → HttpOutcome
  answered : Result PushoverResponse → HttpOutcome

-- Encoding the request and building it for the constant URL do not fail.
unfoldable pub send_notification : (PushoverRequest → HttpOutcome) → PushoverRequest → Result Unit
send_notification http req = elim (http req) [
  | not_sent e ↦ err (wrapped (codes "failed to send pushover notification") e)
  | answered (err e) ↦ err (wrapped (codes "failed to decode pushover response") e)
  | answered (ok resp) ↦
      if eq_ℤ resp.status (pos 1)
      then ok tt
      else err (plain (codes "pushover API error: " ++ join_by (codes ", ") resp.errors))
]

-- The loop of formatBytes, with its divisor and exponent; none where the fuel runs out.
unfoldable pub scale : (fuel n div exp : ℕ) → Option (ℕ × ℕ)
scale zero n div exp = none
scale (suc fuel) n div exp =
    let rest = scale fuel (n / 1024) (div * 1024) (suc exp) in
    if leb 1024 n then rest else some (div, exp)

-- `"KMGTPE"[exp]`; out of range the source panics.
abbrev pub letter : ℕ → Text → Option ℕ
letter exp [] = none
letter zero (c ∷ s) = some c
letter (suc exp) (c ∷ s) = letter exp s

abbrev pub with_letter : Formats → ℕ → ℕ → Option ℕ → Option Text
with_letter fmt bytes div none = none
with_letter fmt bytes div (some c) = some (fmt.ratio bytes div ++ codes " " ++ c ∷ codes "B")

abbrev pub with_scale : Formats → ℕ → Option (ℕ × ℕ) → Option Text
with_scale fmt bytes none = none
with_scale fmt bytes (some (div, exp)) = with_letter fmt bytes div (letter exp (codes "KMGTPE"))

-- None where the index panics.
unfoldable pub format_bytes : Formats → ℤ → Option Text
unfolding scale
format_bytes fmt (negsuc n) = some (decimal (negsuc n) ++ codes " B")
format_bytes fmt (pos n) =
    if n == 0
    then some (codes "0 B")
    else if ltb n 1024
    then some (decimal (pos n) ++ codes " B")
    else with_scale fmt n (scale 6 (n / 1024) 1024 0)

abbrev line : Text → Text → Text
line label value = label ++ codes ": " ++ value ++ codes "\n"

abbrev or_empty : Option Text → Text
or_empty none = []
or_empty (some t) = t

abbrev line_if : Bool → Text → Text → Text
line_if b label value = if b then line label value else []

module _ (fmt : Formats) where
  unfoldable pub build_job_failed_message : Job → Text
  unfolding format_bytes
  build_job_failed_message j =
      let transferred = j.progress.transferred_bytes in
      let total = j.progress.total_bytes in
      line (codes "Job") j.name
      ++ line (codes "Remote Path") j.remote_path
      ++ line (codes "Status") (status_text j.status)
      ++ line (codes "Retry") (decimal (pos j.retries) ++ codes "/" ++ decimal j.max_retries)
      ++ line_if (not (j.error_message =t [])) (codes "Error") j.error_message
      ++ elim j.started_at as (λ _. Text) [
        | none ↦ []
        | some t ↦ line (codes "Duration") (fmt.since t)
      ]
      ++ line_if (ltb_ℤ (pos 0) transferred && ltb_ℤ (pos 0) total) (codes "Progress") (
          fmt.percent j.progress.percentage
          ++ codes "% ("
          ++ or_empty (format_bytes fmt transferred)
          ++ codes "/"
          ++ or_empty (format_bytes fmt total)
          ++ codes ")")
      ++ line_if (not (j.metadata.category =t [])) (codes "Category") j.metadata.category
      ++ codes "Job ID: "
      ++ decimal (pos j.id)

  abbrev duration_line : Option Time → Option Time → Text
  duration_line none completed = []
  duration_line (some t) none = []
  duration_line (some t) (some u) = line (codes "Duration") (fmt.between t u)

  unfoldable pub build_job_completed_message : Job → Text
  unfolding format_bytes
  build_job_completed_message j =
      line (codes "Job") j.name
      ++ line (codes "Remote Path") j.remote_path
      ++ duration_line j.started_at j.completed_at
      ++ line_if (ltb_ℤ (pos 0) j.progress.total_bytes) (codes "Size")
          (or_empty (format_bytes fmt j.progress.total_bytes))
      ++ line_if (ltb_ℤ (pos 0) j.progress.transfer_speed) (codes "Avg Speed")
          (or_empty (format_bytes fmt j.progress.transfer_speed) ++ codes "/s")
      ++ line_if (not (j.metadata.category =t [])) (codes "Category") j.metadata.category
      ++ codes "Job ID: "
      ++ decimal (pos j.id)

  module _ (cfg : PushoverConfig) (now : Time) where
    abbrev request : (title message : Text) → ℤ → (sound : Text) → PushoverRequest
    request title message priority sound = record {
      token = cfg.token;
      user = cfg.user;
      message = message;
      title = title;
      priority = priority;
      timestamp = now;
      sound = sound;
      retry = 0;
      expire = 0;
    }

    abbrev with_emergency : PushoverRequest → PushoverRequest
    with_emergency r = record r {
      retry = fmt.seconds cfg.retry_interval;
      expire = fmt.seconds cfg.expire_time;
    }

    -- A failure with no retries left has priority 1, whatever is configured.
    unfoldable pub job_failed_request : Job → PushoverRequest
    unfolding build_job_failed_message
    job_failed_request j =
        let exhausted = leb_ℤ j.max_retries (pos j.retries) in
        let req =
          request (codes "Grabarr Job Failed: " ++ j.name) (build_job_failed_message j)
            (if exhausted then pos 1 else cfg.priority)
            (if exhausted then codes "siren" else codes "falling") in
        if eq_ℤ req.priority (pos 2) then with_emergency req else req

    unfoldable pub job_completed_request : Job → PushoverRequest
    unfolding build_job_completed_message
    job_completed_request j =
        request (codes "Grabarr Job Completed: " ++ j.name) (build_job_completed_message j)
          (negsuc 0) (codes "none")

    abbrev alert_sound : ℤ → Text
    alert_sound (negsuc zero) = codes "none"
    alert_sound (negsuc (suc zero)) = codes "none"
    alert_sound (negsuc (suc (suc n))) = codes "pushover"
    alert_sound (pos n) =
        if n == 1 then codes "persistent" else if n == 2 then codes "siren" else codes "pushover"

    unfoldable pub system_alert_request : (title message : Text) → ℤ → PushoverRequest
    system_alert_request title message priority =
        let req =
          request (codes "Grabarr Alert: " ++ title) message priority (alert_sound priority) in
        if eq_ℤ priority (pos 2) then with_emergency req else req

    -- The three calls, with the HTTP client. A notifier that is not enabled sends nothing.
    module _ (enabled : Bool) (http : PushoverRequest → HttpOutcome) where
      unfoldable pub notify_job_failed : Job → Result Unit
      unfolding job_failed_request send_notification
      notify_job_failed j = if enabled then send_notification http (job_failed_request j) else ok tt

      unfoldable pub notify_job_completed : Job → Result Unit
      unfolding job_completed_request send_notification
      notify_job_completed j =
          if enabled && leb_ℤ (pos 5) j.priority
          then send_notification http (job_completed_request j)
          else ok tt

      unfoldable pub notify_system_alert : (title message : Text) → ℤ → Result Unit
      unfolding system_alert_request send_notification
      notify_system_alert title message priority =
          if enabled
          then send_notification http (system_alert_request title message priority)
          else ok tt
