-- ===== src/Api/System.antt =====
-- internal/api/system.go. Uptime is a text that `time.Since` gives; a gatekeeper that is not there
-- has no status.
use grabarr.Common.{Option, none, some, [], Text, codes, Result, ok, err}
use grabarr.Models.Job.{Time, JobSummary}
use grabarr.Gatekeeper.{GatekeeperResourceStatus}
use grabarr.Queue.State.{Queue, Env}
use grabarr.Queue.Ops
use grabarr.Api.Response.{ApiResponse, Handler, write_success}

pub record Health (F : Type 0) : Type 0 where
  pub health : Text
  pub timestamp : Time
  pub uptime : Text
  pub version : Text
  pub resources : Option (GatekeeperResourceStatus F)

pub record Metrics (F : Type 0) : Type 0 where
  pub resources : Option (GatekeeperResourceStatus F)
  pub jobs : Option JobSummary

pub record ServiceStatus (F : Type 0) : Type 0 where
  pub service : Text
  pub version : Text
  pub timestamp : Time
  pub uptime : Text
  pub jobs : Option JobSummary
  pub resources : Option (GatekeeperResourceStatus F)

-- An error of the summary leaves its entry out.
abbrev summary_of : Result JobSummary → Option JobSummary
summary_of (ok s) = some s
summary_of (err e) = none

module _ {F : Type 0} (resources : Option (GatekeeperResourceStatus F)) where
  unfoldable pub health_check : Time → (uptime : Text) → ApiResponse (Health F)
  health_check now uptime =
      write_success 200
        (some (record {
          health = codes "healthy";
          timestamp = now;
          uptime = uptime;
          version = codes "1.0.0";
          resources = resources;
        }))
        (codes "Service is healthy")

  unfoldable pub get_metrics : Env → Handler Queue (Metrics F)
  get_metrics env q =
      let (summary, q') = Ops.get_summary env q in
      (
        write_success 200 (some (record { resources = resources; jobs = summary_of summary })) [],
        q',
      )

  unfoldable pub get_status : Env → Time → (uptime : Text) → Handler Queue (ServiceStatus F)
  get_status env now uptime q =
      let (summary, q') = Ops.get_summary env q in
      (
        write_success 200
            (some (record {
              service = codes "grabarr";
              version = codes "1.0.0";
              timestamp = now;
              uptime = uptime;
              jobs = summary_of summary;
              resources = resources;
            }))
            [],
        q',
      )
