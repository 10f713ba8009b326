-- ===== src/RsyncClient/Goroutines/Laws.antt =====
-- internal/rsync/client.go: what the goroutines of Copy leave in the channels, and the race between
-- a send of the parser and the close of its channel.
use grabarr.Common.{
  ℕ, zero, suc, ◌≡◌, refl, ◌≤◌, ◌⊎◌, Bool, true, false, inl, inr, Option, none, some, List, [], ◌∷◌,
  take, length, length-append, Text, Error, arith,
}
use grabarr.Models.Job.{JobProgress}
use grabarr.RsyncClient.{Platform, parse_progress_line}
use grabarr.RsyncClient.Goroutines.{
  Waiter, waiting, outcome_sent, finished, Copying, Move, takes, sends, exits, advances, receives,
  copy_started, is_closed, sent, move, run_moves,
}

take-nil : (n : ℕ) → take {A = Text} n [] ≡ []
take-nil zero = refl
take-nil (suc n) = refl

module _ (p : Platform) (outcome : Option Error) where
  -- A report that the parser's buffer still holds when the process has ended panics: the waiter
  -- closes the channel of reports, and the parser sends to it.
  pub run_moves-panics :
      (s : Copying) (buffered : ℕ) (line : Text) (lines : List Text) (r : JobProgress)
      → s.waiter ≡ waiting
      → s.panicked ≡ false
      → s.held ≡ none
      → take buffered s.lines ≡ line ∷ lines
      → parse_progress_line p s.transfer_state.clock line ≡ some r
      → (run_moves p outcome (exits buffered ∷ advances ∷ takes ∷ sends ∷ []) s).panicked ≡ true
  unfolding run_moves
  run_moves-panics s buffered line lines r w q o l e = ground (arith, w, q, o, l, e)

  -- Where the process ends, in a list of steps, the parser has taken every line and sent its
  -- report.
  abbrev pub ReadsFirst : Copying → List Move → Type 0
  ReadsFirst s [] = Unit
  ReadsFirst s (exits n ∷ ms) =
      (s.lines ≡ []) × (s.held ≡ none) × ReadsFirst (move p outcome (exits n) s) ms
  ReadsFirst s (takes ∷ ms) = ReadsFirst (move p outcome takes s) ms
  ReadsFirst s (sends ∷ ms) = ReadsFirst (move p outcome sends s) ms
  ReadsFirst s (advances ∷ ms) = ReadsFirst (move p outcome advances s) ms
  ReadsFirst s (receives ∷ ms) = ReadsFirst (move p outcome receives s) ms

  abbrev IsSafe : Copying → Type 0
  IsSafe s = (s.panicked ≡ false) × ((s.waiter ≡ waiting) ⊎ ((s.lines ≡ []) × (s.held ≡ none)))

  takes-IsSafe : (s : Copying) → IsSafe s → IsSafe (move p outcome takes s)
  unfolding move
  takes-IsSafe s (q, inl w) = ground (arith, q, w, s.held, s.lines)
  takes-IsSafe s (q, inr (e, o)) = ground (arith, q, e, o)

  sends-IsSafe : (s : Copying) → IsSafe s → IsSafe (move p outcome sends s)
  unfolding move
  sends-IsSafe s (q, inl w) = ground (arith, q, w, s.held)
  sends-IsSafe s (q, inr (e, o)) = ground (arith, q, e, o)

  exits-IsSafe :
      (n : ℕ) (s : Copying)
      → s.lines ≡ []
      → s.held ≡ none
      → IsSafe s
      → IsSafe (move p outcome (exits n) s)
  unfolding move
  exits-IsSafe n s e o (q, k) = ground (arith, e, o, q, s.waiter, take-nil n)

  advances-IsSafe : (s : Copying) → IsSafe s → IsSafe (move p outcome advances s)
  unfolding move
  advances-IsSafe s (q, k) = ground (arith, q, k, s.waiter)

  receives-IsSafe : (s : Copying) → IsSafe s → IsSafe (move p outcome receives s)
  unfolding move
  receives-IsSafe s (q, k) = ground (arith, q, k, s.transfer_state.progress_chan)

  run_moves-IsSafe :
      (ms : List Move) (s : Copying)
      → IsSafe s
      → ReadsFirst s ms
      → IsSafe (run_moves p outcome ms s)
  unfolding run_moves
  run_moves-IsSafe [] s k r = k
  run_moves-IsSafe (exits n ∷ ms) s k (e, o, r) =
      run_moves-IsSafe ms (move p outcome (exits n) s) (exits-IsSafe n s e o k) r
  run_moves-IsSafe (takes ∷ ms) s k r =
      run_moves-IsSafe ms (move p outcome takes s) (takes-IsSafe s k) r
  run_moves-IsSafe (sends ∷ ms) s k r =
      run_moves-IsSafe ms (move p outcome sends s) (sends-IsSafe s k) r
  run_moves-IsSafe (advances ∷ ms) s k r =
      run_moves-IsSafe ms (move p outcome advances s) (advances-IsSafe s k) r
  run_moves-IsSafe (receives ∷ ms) s k r =
      run_moves-IsSafe ms (move p outcome receives s) (receives-IsSafe s k) r

  -- Over any steps from the start, the parser does not panic if, by the time that the process is
  -- found to have ended, it has taken every line of the output and sent the last line's report.
  pub run_moves-safe :
      (ms : List Move) (stdout : Text) (clock : ℕ)
      → ReadsFirst (copy_started stdout clock) ms
      → (run_moves p outcome ms (copy_started stdout clock)).panicked ≡ false
  unfolding copy_started
  run_moves-safe ms stdout clock r =
      (run_moves-IsSafe ms (copy_started stdout clock) (refl, inl refl) r).0

  abbrev pub sent_outcomes : Waiter → List (Option Error)
  sent_outcomes outcome_sent = outcome ∷ []
  sent_outcomes finished = outcome ∷ []
  sent_outcomes _ = []

  abbrev IsSent : Copying → Type 0
  IsSent s = (s.done_chan ≡ sent_outcomes s.waiter) × (length s.transfer_state.progress_chan ≤ 10)

  sent-IsSent :
      (closed : Bool) (o : Option JobProgress) (s : Copying) → IsSent s → IsSent (sent closed o s)
  sent-IsSent closed none s k = k
  sent-IsSent true (some r) s k = k
  sent-IsSent false (some r) s k =
      ground (arith, k, length-append s.transfer_state.progress_chan (r ∷ []))

  move-IsSent : (m : Move) (s : Copying) → IsSent s → IsSent (move p outcome m s)
  unfolding move
  move-IsSent takes s k = ground (arith, k, s.held, s.lines)
  move-IsSent sends s k = ground (arith, k, sent-IsSent (is_closed s.waiter) s.held s k)
  move-IsSent (exits n) s k = ground (arith, k, s.waiter)
  move-IsSent advances s k = ground (arith, k, s.waiter)
  move-IsSent receives s k = ground (arith, k, s.transfer_state.progress_chan)

  run_moves-IsSent : (ms : List Move) (s : Copying) → IsSent s → IsSent (run_moves p outcome ms s)
  unfolding run_moves
  run_moves-IsSent [] s k = k
  run_moves-IsSent (m ∷ ms) s k = run_moves-IsSent ms (move p outcome m s) (move-IsSent m s k)

  -- Over any steps from the start, the waiter has sent the process's outcome once or not yet, and
  -- once if it has ended; at most ten reports are in their channel.
  pub run_moves-outcome :
      (ms : List Move) (stdout : Text) (clock : ℕ)
      → let s : Copying = run_moves p outcome ms (copy_started stdout clock) in
        (s.done_chan ≡ sent_outcomes s.waiter) × (length s.transfer_state.progress_chan ≤ 10)
  unfolding copy_started
  run_moves-outcome ms stdout clock =
      run_moves-IsSent ms (copy_started stdout clock) (refl, omega arith)
