-- ===== src/Main/Closing.antt =====
-- cmd/grabarr/main.go: the deferred calls of `run`.
use grabarr.Common.{
  ◌≡◌, refl, ◌∙◌, Option, none, some, List, [], ◌∷◌, Text, Result, ok, err, Action, modify, ◌>>◌,
  Preserves, preserves_rules,
}
use grabarr.Config.{Config, RemoteConfig}
use grabarr.Queue.State.{Queue}
use grabarr.Main.{
  Part, repository, gatekeeper, context, executor, shutdown_context, Call, opened, closed, App,
  Host, new_app, note, on_queue, deferring, from_outside, new_rsync_executor, run_with, run,
}

abbrev pub push : Part → Option (List Part) → Option (List Part)
push p none = none
push p (some parts) = some (p ∷ parts)

-- Closing another part than the last one that is open is none.
abbrev pub pop : Part → Option (List Part) → Option (List Part)
pop repository (some (repository ∷ parts)) = some parts
pop gatekeeper (some (gatekeeper ∷ parts)) = some parts
pop context (some (context ∷ parts)) = some parts
pop executor (some (executor ∷ parts)) = some parts
pop shutdown_context (some (shutdown_context ∷ parts)) = some parts
pop _ _ = none

-- The parts that are open after some calls, the last one first; none where one was closed that was
-- not the last one open.
abbrev pub open_parts : List Call → Option (List Part)
open_parts [] = some []
open_parts (opened p ∷ calls) = push p (open_parts calls)
open_parts (closed p ∷ calls) = pop p (open_parts calls)
open_parts (_ ∷ calls) = open_parts calls

abbrev AreOpen : List Part → App → Type 0
AreOpen parts s = open_parts s.calls ≡ some parts

pop-push : (p : Part) (parts : List Part) → pop p (some (p ∷ parts)) ≡ some parts
pop-push repository parts = refl
pop-push gatekeeper parts = refl
pop-push context parts = refl
pop-push executor parts = refl
pop-push shutdown_context parts = refl

module _ {parts : List Part} where
  on_queue-AreOpen : {A : Type 0} (m : Action Queue A) → Preserves (AreOpen parts) (on_queue m)
  on_queue-AreOpen m = record { at = λ s e. e }

  from_outside-AreOpen :
      {A : Type 0} (text : Text) (r : Result A) → Preserves (AreOpen parts) (from_outside text r)
  from_outside-AreOpen text (ok a) = record { at = λ s e. e }
  from_outside-AreOpen text (err x) = record { at = λ s e. e }

  -- What is opened and has a deferred call is closed again.
  deferring-AreOpen :
      {A : Type 0} (p : Part) (m : Action App A)
      → Preserves (AreOpen (p ∷ parts)) m
      → Preserves (AreOpen parts) (note (opened p) >> deferring (closed p) m)
  deferring-AreOpen p m k = record {
    at = λ s e.
        let t : App = record s { calls = opened p ∷ s.calls } in
        rw (k.at t (rw e refl)) (pop-push p parts);
  }

  modify-AreOpen :
      (f : App → App)
      → ((s : App) → open_parts (f s).calls ≡ open_parts s.calls)
      → Preserves (AreOpen parts) (modify f)
  modify-AreOpen f same = record { at = λ s e. same s ∙ e }

  new_rsync_executor-AreOpen :
      (rs : List RemoteConfig) → Preserves (AreOpen parts) (new_rsync_executor rs)
  new_rsync_executor-AreOpen [] = record { at = λ s e. e }
  new_rsync_executor-AreOpen (r ∷ rs) = record { at = λ s e. e }

ruleset open_rules = (
  preserves_rules, on_queue-AreOpen, from_outside-AreOpen, deferring-AreOpen, modify-AreOpen,
  new_rsync_executor-AreOpen,
)

module _ (h : Host) (c : Config) {parts : List Part} where
  run_with-AreOpen : Preserves (AreOpen parts) (run_with h c)
  unfolding run_with
  run_with-AreOpen = search open_rules depth 24

-- However `run` ends, by an error or the panic of an executor without remotes too, each part that it opened has been closed, the last one first: every part
-- was the last one open when it was closed, and none is open at the end.
pub run-closed : (h : Host) → open_parts (run h new_app).1.calls ≡ some []
unfolding run
run-closed h =
    let k : Preserves (AreOpen []) (run h) = search (open_rules, run_with-AreOpen) depth 12 in
    k.at new_app refl
