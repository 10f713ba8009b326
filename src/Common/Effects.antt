-- ===== src/Common/Effects.antt =====
-- Go's errors, and calls that read and write a state and may return an error. The state comes
-- back with an error too: what was written stays written.
use mathlib.Core.Bool.{Bool, true, false}
use mathlib.Core.List.{List, [], ◌∷◌, ◌++◌}
use grabarr.Common.Int.{ℤ}
use grabarr.Common.Tests.{if◌then◌else◌}
use grabarr.Common.Strings.{Text, codes}

-- The error values that occur. `wrapped` is `fmt.Errorf` with `%w`; `permanent` and
-- `permanent_bare` are `executor.PermanentError` with and without a cause; `transfer` is
-- `rsync.TransferError`; `exit_error` is `exec.ExitError` with its code and text; `tool_missing`
-- is an `exec.Error` that holds `exec.ErrNotFound`; `canceled` is `context.Canceled`.
pub data Error : Type 0 where
  plain : Text → Error
  wrapped : Text → Error → Error
  permanent : Text → Error → Error
  permanent_bare : Text → Error
  transfer : Error → Text → Error
  exit_error : ℤ → Text → Error
  tool_missing : Text → Error
  canceled : Error

pub data Result (A : Type 0) : Type 0 where
  ok : A → Result A
  err : Error → Result A

abbrev pub Action : Type 0 → Type 0 → Type 0
Action S A = S → Result A × S

module _ {S A : Type 0} where
  abbrev pub pure : A → Action S A
  pure a s = (ok a, s)

  abbrev pub fail : Error → Action S A
  fail e s = (err e, s)

  -- `return fmt.Errorf("…: %w", err)`
  abbrev pub or_wrap : Action S A → Text → Action S A
  or_wrap m text s =
      let (r, s') = m s in elim r [ ok a ↦ (ok a, s') | err e ↦ (err (wrapped text e), s') ]

  -- `x, err := f()`, with the error in hand.
  abbrev pub attempt : Action S A → Action S (Result A)
  attempt m s = let (r, s') = m s in (ok r, s')

  -- A call whose error is only logged.
  abbrev pub logged : Action S A → Action S (Unit {0})
  logged m s = let (r, s') = m s in (ok tt, s')

abbrev pub get : {S : Type 0} → Action S S
get s = (ok s, s)

abbrev pub modify : {S : Type 0} → (S → S) → Action S (Unit {0})
modify f s = (ok tt, f s)

module _ {S A B : Type 0} where
  -- The calls that follow a result; after an error there are none.
  abbrev pub continue : (A → Action S B) → Result A → S → Result B × S
  continue f (ok a) s = f a s
  continue f (err e) s = (err e, s)

  infixl 5 ◌>>=◌
  abbrev pub ◌>>=◌ : Action S A → (A → Action S B) → Action S B
  ◌>>=◌ m f s = let (r, s') = m s in continue f r s'

  -- What the first call leaves, and the calls that follow keep, holds at the end.
  pub continue_ind :
      (P : S → Type 0) (f : A → Action S B) (r : Result A) (s : S)
      → P s
      → ((a : A) (t : S) → P t → P (f a t).1)
      → P (continue f r s).1
  continue_ind P f (ok a) s p keep = keep a s p
  continue_ind P f (err e) s p keep = p

  pub >>=_ind :
      (P : S → Type 0) (m : Action S A) (f : A → Action S B) (s : S)
      → P (m s).1
      → ((a : A) (t : S) → P t → P (f a t).1)
      → P ((m >>= f) s).1
  >>=_ind P m f s p keep = continue_ind P f (m s).0 (m s).1 p keep

infixl 5 ◌>>◌
abbrev pub ◌>>◌ : {S A B : Type 0} → Action S A → Action S B → Action S B
m >> k = m >>= λ _. k

-- `for _, x := range xs { … }`
abbrev pub for_each : {S A : Type 0} → (A → Action S (Unit {0})) → List A → Action S (Unit {0})
for_each body [] = pure tt
for_each body (x ∷ xs) = body x >> for_each body xs

-- `err.Error()`
abbrev pub error_text : Error → Text
error_text (plain t) = t
error_text (wrapped t e) = t ++ codes ": " ++ error_text e
error_text (permanent t e) = t ++ codes ": " ++ error_text e
error_text (permanent_bare t) = t ++ codes ": <nil>"
error_text (transfer e stderr) = error_text e
error_text (exit_error code t) = t
error_text (tool_missing t) = t
error_text canceled = codes "context canceled"

-- A call keeps a property of the state.
abbrev pub Keeps : {S A : Type 0} → (S → Type 0) → Action S A → Type 0
Keeps {S} P m = (s : S) → P s → P (m s).1

module _ {S : Type 0} (P : S → Type 0) where
  pub Keeps-bind :
      {A B : Type 0} (m : Action S A) (f : A → Action S B)
      → Keeps P m
      → ((a : A) → Keeps P (f a))
      → Keeps P (m >>= f)
  Keeps-bind m f hm hf s p = >>=_ind P m f s (hm s p) hf

  pub Keeps-then :
      {A B : Type 0} (m : Action S A) (k : Action S B) → Keeps P m → Keeps P k → Keeps P (m >> k)
  Keeps-then m k hm hk = Keeps-bind m (λ _. k) hm (λ _. hk)

  pub Keeps-pure : {A : Type 0} (a : A) → Keeps P (pure a)
  Keeps-pure a s p = p

  pub Keeps-logged : {A : Type 0} (m : Action S A) → Keeps P m → Keeps P (logged m)
  Keeps-logged m h s p = h s p

  pub Keeps-attempt : {A : Type 0} (m : Action S A) → Keeps P m → Keeps P (attempt m)
  Keeps-attempt m h s p = h s p

  pub Keeps-or_wrap :
      {A : Type 0} (m : Action S A) (text : Text) → Keeps P m → Keeps P (or_wrap m text)
  Keeps-or_wrap m text h s p = wrap_ind (m s).0 (m s).1 (h s p)
    where
      wrap_ind :
          {A : Type 0} (r : Result A) (t : S) → P t → P (or_wrap {S = S} (λ _. (r, t)) text t).1
      wrap_ind (ok a) t q = q
      wrap_ind (err e) t q = q

  pub Keeps-if :
      {A : Type 0} (c : Bool) (m k : Action S A)
      → Keeps P m
      → Keeps P k
      → Keeps P (if c then m else k)
  Keeps-if true m k hm hk = hm
  Keeps-if false m k hm hk = hk

  pub Keeps-result :
      {A B : Type 0} (m : A → Action S B) (k : Error → Action S B)
      → ((a : A) → Keeps P (m a))
      → ((e : Error) → Keeps P (k e))
      → (r : Result A) → Keeps P (elim r [ ok a ↦ m a | err e ↦ k e ])
  Keeps-result m k hm hk (ok a) = hm a
  Keeps-result m k hm hk (err e) = hk e

  pub Keeps-for_each :
      {A : Type 0} (body : A → Action S (Unit {0})) (xs : List A)
      → ((a : A) → Keeps P (body a))
      → Keeps P (for_each body xs)
  Keeps-for_each body [] h s p = p
  Keeps-for_each body (x ∷ xs) h s p =
      Keeps-then (body x) (for_each body xs) (h x) (Keeps-for_each body xs h) s p
