-- ===== src/RsyncClient.antt =====
-- internal/rsync/client.go: the command of a transfer and the parser of rsync's progress. Starting
-- the process, regular expressions, floats and `Time.Add` are outside.
pub mod Laws
pub mod Goroutines
use grabarr.Common.{
  ℕ, suc, ◌+◌, ◌*◌, ◌<◌, Bool, not, ◌||◌, ◌==◌, Option, none, some, List, [], ◌∷◌, ◌++◌,
  if◌then◌else◌, length, ltb, select, reverse, ℤ, pos, pos_part, to_int64, Text, codes, ◌=t◌,
}
use grabarr.Models.Job.{Time, JobProgress, no_progress}
use grabarr.Sync.Listing.{parse_int}

pub record Client : Type 0 where
  pub ssh_host : Text
  pub ssh_user : Text
  pub ssh_key_file : Text

-- The command of Copy, with its arguments.
unfoldable pub command : Client → (remote_path local_path : Text) → List Text
command c remote_path local_path =
    codes "rsync"
    ∷ codes "-avz"
    ∷ codes "--info=progress2"
    ∷ codes "--partial-dir=.rsync-partial"
    ∷ codes "--mkpath"
    ∷ codes "--timeout=600"
    ∷ codes "-e"
    ∷ (codes
          "ssh -o StrictHostKeyChecking=no -o UserKnownHostsFile=/dev/null -o ConnectTimeout=10 -o ServerAliveInterval=60 -o ServerAliveCountMax=30 -i "
        ++ c.ssh_key_file)
    ∷ (c.ssh_user ++ codes "@" ++ c.ssh_host ++ codes ":" ++ remote_path)
    ∷ local_path
    ∷ []

-- The groups of the expression for a progress line.
pub record Matches : Type 0 where
  pub bytes : Text
  pub percentage : Text
  pub speed : Text
  pub unit : Text
  pub hours : Text
  pub minutes : Text
  pub seconds : Text

-- `find_submatch` applies the expression; `scaled` is `int64` of the product of a text as a float
-- and a factor, or none where the text is no float; `add` is `Time.Add`; `now` is the clock.
pub record Platform : Type 0 where
  pub find_submatch : Text → Option Matches
  pub scaled : Text → (factor : ℕ) → Option ℤ
  pub add : Time → ℤ → Time
  pub now : ℕ → Time

-- The split function of the scanner: a piece ends at `\r` or `\n`, and there is no empty last one.
abbrev last_piece : Text → List Text
last_piece [] = []
last_piece (c ∷ s) = reverse (c ∷ s) ∷ []

abbrev split_from : Text → Text → List Text
split_from piece [] = last_piece piece
split_from piece (c ∷ s) =
    if c == 13 || c == 10 then reverse piece ∷ split_from [] s else split_from (c ∷ piece) s

unfoldable pub split_lines : Text → List Text
split_lines s = split_from [] s

-- A unit that is none of these leaves the speed at 0.
abbrev factor : Text → ℕ
factor unit =
    if unit =t codes "K"
    then 1024
    else if unit =t codes "M"
    then 1024 * 1024
    else if unit =t codes "G"
    then 1024 * 1024 * 1024
    else 0

-- `strconv.Atoi` of digits where the error is not looked at: out of range it gives the largest int.
abbrev or_largest : Option ℤ → ℕ
or_largest none = 9223372036854775807
or_largest (some n) = pos_part n

abbrev eta_duration : Matches → ℤ
eta_duration m = to_int64 (
    or_largest (parse_int m.hours) * 3600000000000
    + or_largest (parse_int m.minutes) * 60000000000
    + or_largest (parse_int m.seconds) * 1000000000)

-- `strings.ReplaceAll(s, ",", "")`
abbrev without_commas : Text → Text
without_commas = select (λ c. not (c == b','))

-- The channel of reports that were not received yet, and the clock readings.
pub record Transfer : Type 0 where
  pub progress_chan : List JobProgress
  pub clock : ℕ

-- `select { case t.progressChan <- progress: default: }`
abbrev pub send_report : JobProgress → List JobProgress → List JobProgress
send_report r chan = if ltb (length chan) 10 then chan ++ r ∷ [] else chan

abbrev pub after_line : Option JobProgress → Transfer → Transfer
after_line none t = t
after_line (some r) t = record {
  progress_chan = send_report r t.progress_chan;
  clock = suc (suc t.clock);
}

module _ (p : Platform) where
  abbrev progress_of : ℕ → Matches → (bytes percentage speed : ℤ) → JobProgress
  progress_of clock m bytes percentage speed = record no_progress {
    percentage = pos_part percentage;
    transferred_bytes = bytes;
    transfer_speed = speed;
    eta = some (p.add (p.now clock) (eta_duration m));
    last_update_time = p.now (suc clock);
  }

  -- The three numbers of a line, each of which may be out of range.
  abbrev with_speed : ℕ → Matches → ℤ → ℤ → Option ℤ → Option JobProgress
  with_speed clock m bytes percentage none = none
  with_speed clock m bytes percentage (some speed) =
      some (progress_of clock m bytes percentage speed)

  abbrev with_percentage : ℕ → Matches → ℤ → Option ℤ → Option JobProgress
  with_percentage clock m bytes none = none
  with_percentage clock m bytes (some percentage) =
      with_speed clock m bytes percentage (p.scaled m.speed (factor m.unit))

  abbrev with_bytes : ℕ → Matches → Option ℤ → Option JobProgress
  with_bytes clock m none = none
  with_bytes clock m (some bytes) = with_percentage clock m bytes (parse_int m.percentage)

  abbrev matched : ℕ → Option Matches → Option JobProgress
  matched clock none = none
  matched clock (some m) = with_bytes clock m (parse_int (without_commas m.bytes))

  -- The report of a line, with the number of clock readings so far.
  unfoldable pub parse_progress_line : ℕ → Text → Option JobProgress
  unfolding parse_int
  parse_progress_line clock line = matched clock (p.find_submatch line)

  -- The loop of parseProgress, while nothing is received.
  unfoldable pub parse_progress_lines : List Text → Transfer → Transfer
  unfolding parse_progress_line
  parse_progress_lines [] t = t
  parse_progress_lines (line ∷ lines) t =
      parse_progress_lines lines (after_line (parse_progress_line t.clock line) t)

  unfoldable pub parse_progress : Text → Transfer → Transfer
  unfolding split_lines parse_progress_lines
  parse_progress stdout = parse_progress_lines (split_lines stdout)
