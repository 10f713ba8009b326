-- ===== src/RsyncClient/Goroutines.antt =====
-- internal/rsync/client.go: the two goroutines of Copy, in any order. One parses the lines of the
-- output; the other waits for the process, which closes the pipe, closes the channel of reports,
-- sends the outcome and closes its channel. The process's end and its output are arguments.

pub mod Laws
use grabarr.Common.{
  ℕ, suc, Bool, true, false, Option, none, some, List, [], ◌∷◌, ◌++◌, if◌then◌else◌, take, Text,
  Error, transfer,
}
use grabarr.Models.Job.{JobProgress}
use grabarr.RsyncClient.{Platform, Transfer, split_lines, parse_progress_line, after_line}

pub data Waiter : Type 0 where
  waiting waited progress_closed outcome_sent finished : Waiter

-- `lines` are those that the parser has not read, `held` is the report of the line that it read last
-- and has not sent, `done_chan` what the waiter sent. Sending on a
-- closed channel panics, which ends the program.
pub record Copying : Type 0 where
  pub lines : List Text
  pub held : Option JobProgress
  pub transfer_state : Transfer
  pub waiter : Waiter
  pub done_chan : List (Option Error)
  pub panicked : Bool

-- A step: the parser takes a line; it sends the line's report; the process has ended and the parser is left with the lines that
-- its buffer holds; the waiter makes its next call; a report is received.
pub data Move : Type 0 where
  takes : Move
  sends : Move
  exits : (buffered : ℕ) → Move
  advances : Move
  receives : Move

abbrev pub is_closed : Waiter → Bool
is_closed waiting = false
is_closed waited = false
is_closed _ = true

-- What the waiter sends for the error of `cmd.Wait` and the text that was written to stderr.
abbrev pub outcome_of : Option Error → Text → Option Error
outcome_of none stderr = none
outcome_of (some e) stderr = some (transfer e stderr)

-- A send to a channel that may be closed.
abbrev sent : Bool → Option JobProgress → Copying → Copying
sent closed none s = s
sent false (some r) s = record s {
  transfer_state = after_line (some r) s.transfer_state;
  held = none;
}
sent true (some r) s = record s { panicked = true }

-- A line is taken after the report of the one before was sent.
abbrev taken : Platform → Option JobProgress → List Text → Copying → Copying
taken p none (line ∷ lines) s = record s {
  lines = lines;
  held = parse_progress_line p s.transfer_state.clock line;
}
taken p _ _ s = s

abbrev exited : ℕ → Waiter → Copying → Copying
exited buffered waiting s = record s { lines = take buffered s.lines; waiter = waited }
exited buffered _ s = s

abbrev advanced : Option Error → Waiter → Copying → Copying
advanced outcome waited s = record s { waiter = progress_closed }
advanced outcome progress_closed s = record s {
  waiter = outcome_sent;
  done_chan = s.done_chan ++ outcome ∷ [];
}
advanced outcome outcome_sent s = record s { waiter = finished }
advanced outcome _ s = s

abbrev received : List JobProgress → Copying → Copying
received [] s = s
received (r ∷ chan) s = record s {
  transfer_state = record s.transfer_state { progress_chan = chan };
}

-- When the process has started, with its output.
unfoldable pub copy_started : Text → ℕ → Copying
unfolding split_lines
copy_started stdout clock = record {
  lines = split_lines stdout;
  held = none;
  transfer_state = record { progress_chan = []; clock = clock };
  waiter = waiting;
  done_chan = [];
  panicked = false;
}

module _ (p : Platform) (outcome : Option Error) where
  -- A step that is not possible does nothing.
  unfoldable pub move : Move → Copying → Copying
  unfolding parse_progress_line
  move takes s = if s.panicked then s else taken p s.held s.lines s
  move sends s = if s.panicked then s else sent (is_closed s.waiter) s.held s
  move (exits buffered) s = if s.panicked then s else exited buffered s.waiter s
  move advances s = if s.panicked then s else advanced outcome s.waiter s
  move receives s = if s.panicked then s else received s.transfer_state.progress_chan s

  unfoldable pub run_moves : List Move → Copying → Copying
  unfolding move
  run_moves [] s = s
  run_moves (m ∷ ms) s = run_moves ms (move m s)
