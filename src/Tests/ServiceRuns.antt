-- ===== src/Tests/ServiceRuns.antt =====
-- The queue's rounds, the jobs table as a store, the gatekeeper, the notifications and the listing on
-- concrete values.
use native.Mathlib.Nat.{le-div_iff_mul-le, mul-div-le}
use grabarr.Common.{
  take, length, ◌=t◌, Text, ◌+◌, ℕ, suc, ◌*◌, ◌/◌, ◌^◌, ◌≡◌, ◌≢◌, ◌⊎◌, ◌≤◌, ◌<◌, ◌++◌, refl, true,
  false, none, some, [], ◌∷◌, if◌then◌else◌, List, ltb, leb, pos_part, codes, decimal, base, pos,
  ok, err, arith,
}
use grabarr.Models.Job.Status.{JobStatus}
use grabarr.Models.RemoteFile.{FileStatus, RemoteFile}
use grabarr.Repository.Db.{empty_db}
use grabarr.Repository.Jobs
use grabarr.Repository.Jobs.Store.{Statement, view, replay, run-refines}
use grabarr.Queue.State.{Queue, new_queue}
use grabarr.Queue.Scheduler.{can_schedule_new_job, process_queue, waiting}
use grabarr.Queue.Scheduler.Twice.{started, process_queue-twice}
use grabarr.Queue.Scheduler.Progress.{process_queue-busy}
use grabarr.Gatekeeper.{Floats, Statfs, Gatekeeper, can_start_job, monitor_loop, new_gatekeeper}
use grabarr.Gatekeeper.Laws.{IsMonotone, IsSmall, can_start_job-smaller, monitor_loop-unlimited}
use grabarr.Notifications.{Formats, letter, format_bytes}
use grabarr.Notifications.Laws.{format_bytes-total}
use grabarr.Sync.Listing.{parse_line}
use grabarr.Sync.Listing.RoundTrip.{parse_line-printed}
use grabarr.Repository.Jobs.Store
use grabarr.RsyncClient.{Matches, Platform, Transfer, split_lines, parse_progress}
use grabarr.RsyncClient.Laws.{reports, parse_progress-take}
use grabarr.Tests.Data.{
  quiet_world, broken, waiting_job, failed_job, four_jobs, settings, one_waits, table-IsValid,
}
use grabarr.Tests.OtherRuns.{configuration}

abbrev statements : List Statement
statements =
    Statement.create waiting_job
    ∷ Statement.update (record failed_job { status = JobStatus.queued })
    ∷ Statement.delete 2
    ∷ Statement.cleanup 50 0
    ∷ []

run-refines_example :
    view (Store.run quiet_world statements four_jobs)
    ≡ replay quiet_world statements (view four_jobs)
run-refines_example = run-refines quiet_world (λ n. refl) statements four_jobs table-IsValid

-- A job that was enqueued and not yet started is in the channel and in a row.
abbrev just_enqueued : Queue
just_enqueued = record (new_queue (record empty_db { jobs = waiting_job ∷ []; last_job_id = 1 })) {
  job_queue = waiting_job ∷ [];
}

still_waiting :
    (Jobs.get_jobs quiet_world (waiting settings) just_enqueued.db).0 ≡ ok (waiting_job ∷ [])
unfolding Jobs.get_jobs
still_waiting = refl

process_queue-twice_example :
    let q' = (process_queue settings just_enqueued).1 in
    (q'.runs ≡ started 1 waiting_job ∷ started 2 waiting_job ∷ []) × (q'.active_jobs ≡ (1, 2) ∷ [])
process_queue-twice_example =
    process_queue-twice settings just_enqueued waiting_job waiting_job refl refl refl
      (λ n size. refl) still_waiting refl

process_queue-busy_example :
    let q' = (process_queue settings one_waits).1 in
    (can_schedule_new_job settings q' ≡ false) ⊎ (q'.job_queue ≡ [])
process_queue-busy_example = process_queue-busy settings (λ n size. refl) one_waits

-- Whole numbers in place of floats.
abbrev whole : Floats ℕ
whole = record {
  of_int = pos_part;
  of_nat = λ n. n;
  div = λ a b. a / b;
  mul = λ a b. a * b;
  ge = λ a b. leb b a;
  gt = λ a b. ltb b a;
}

div_mono : (a b c : ℕ) → ltb 0 c ≡ true → a ≤ b → a / c ≤ b / c
div_mono a b c h le =
    let positive : 0 < c = ground (arith, h) in
    (le-div_iff_mul-le {k = c} {x = a / c} {y = b} positive).1 (ground (arith, mul-div-le a c, le))

mul_mono : (a b c : ℕ) → a ≤ b → a * c ≤ b * c
mul_mono a b c le = grind (arith, le)

whole-IsMonotone : IsMonotone whole (λ a b. a ≤ b)
whole-IsMonotone = record {
  of_int_mono = λ a b le h. le;
  div_mono = λ a b n h small le. div_mono a b n (ground (arith, h)) le;
  mul_mono = λ a b le. mul_mono a b 100 le;
  gt_mono = λ a b c h le. ground (arith, h, le);
}

abbrev disk : Statfs
disk = record { blocks = 1000; bavail = 900; bsize = pos 4096 }

disk-IsSmall : IsSmall disk 1000000
disk-IsSmall = record { positive = omega arith; available = omega arith; bounded = omega arith }

abbrev gate : Gatekeeper ℕ
gate = new_gatekeeper whole 0

large_allowed :
    (can_start_job whole configuration.gatekeeper gate (ok disk) (pos 1000000)).allowed ≡ true
unfolding can_start_job
large_allowed = refl

can_start_job-smaller_example :
    (can_start_job whole configuration.gatekeeper gate (ok disk) (pos 5000)).allowed ≡ true
can_start_job-smaller_example =
    can_start_job-smaller whole (λ a b. a ≤ b) whole-IsMonotone configuration.gatekeeper gate disk
      5000 1000000 disk-IsSmall (omega arith) large_allowed

monitor_loop-unlimited_example :
    let g = monitor_loop whole ((1, ok disk) ∷ (2, err broken) ∷ []) (new_gatekeeper whole 0) in
    (g.bandwidth_usage ≡ 0)
    × ((can_start_job whole configuration.gatekeeper g (ok disk) (pos 5)).reason
        ≢ codes "Bandwidth limit reached")
monitor_loop-unlimited_example =
    monitor_loop-unlimited whole configuration.gatekeeper ((1, ok disk) ∷ (2, err broken) ∷ []) 0
      (ok disk) (pos 5) refl

abbrev pub formats : Formats
formats = record {
  seconds = λ d. d / 1000000000;
  since = λ t. codes "1s";
  between = λ start end. codes "1s";
  percent = λ n. decimal (pos n) ++ codes ".0";
  ratio = λ bytes div. decimal (pos (bytes / div)) ++ codes ".0";
}

format_bytes-total_example :
    (k : ℕ) × (c : ℕ) × (letter k (codes "KMGTPE") ≡ some c)
    × (format_bytes formats (pos 5000000)
        ≡ some (formats.ratio 5000000 (1024 ^ suc k) ++ codes " " ++ c ∷ codes "B"))
    × (1024 ^ suc k ≤ 5000000)
    × (5000000 < 1024 ^ suc (suc k))
format_bytes-total_example = format_bytes-total formats 5000000 (omega arith) (omega arith)

five_megabytes : format_bytes formats (pos 5000000) ≡ some (codes "4.0 MB")
unfolding format_bytes
five_megabytes = refl

parse_line-printed_example :
    (f : RemoteFile) × (parse_line (codes "/s/a.mkv" ++ 9 ∷ decimal (pos 12)) (codes "/s") []
      ≡ some f)
    × (f.remote_path ≡ codes "/s/a.mkv")
    × (f.name ≡ base (codes "/s/a.mkv"))
    × (f.size ≡ pos 12)
    × (f.status ≡ FileStatus.on_seedbox)
    × (f.watched_path ≡ codes "/s")
parse_line-printed_example =
    parse_line-printed b'/' 12 (codes "s/a.mkv") (codes "/s") [] refl
      (refl, (refl, (refl, (refl, (refl, (refl, (refl, (refl, tt)))))))) (omega arith) refl

abbrev pub groups : Matches
groups = record {
  bytes = codes "8,745";
  percentage = codes "21";
  speed = codes "10.26";
  unit = codes "M";
  hours = codes "0";
  minutes = codes "51";
  seconds = codes "13";
}

abbrev pub platform : Platform
platform = record {
  find_submatch = λ line. if line =t codes "8,745 21% 10.26MB/s 0:51:13" then some groups else none;
  scaled = λ text factor. some (pos factor);
  add = λ t d. t + pos_part d;
  now = λ n. n;
}

abbrev no_reports : Transfer
no_reports = record { progress_chan = []; clock = 0 }

abbrev output : Text
output = codes "8,745 21% 10.26MB/s 0:51:13\rother\n8,745 21% 10.26MB/s 0:51:13"

parse_progress-take_example :
    (parse_progress platform output no_reports).progress_chan
    ≡ take 10 ([] ++ reports platform 0 (split_lines output))
parse_progress-take_example = parse_progress-take platform output no_reports (omega arith)

two_reports : length (parse_progress platform output no_reports).progress_chan ≡ 2
unfolding parse_progress
two_reports = refl
