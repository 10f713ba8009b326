-- ===== src/Common/Invariants.antt =====
-- Invariants of calls: one rule for each way to build a call.
use mathlib.Core.Bool.{Bool, true, false}
use mathlib.Core.Option.{Option, none, some}
use mathlib.Core.List.{List, [], ◌∷◌}
use grabarr.Common.Tests.{if◌then◌else◌}
use grabarr.Common.Strings.{Text}
use grabarr.Common.Effects.{
  Error, Result, ok, err, Action, pure, fail, or_wrap, attempt, logged, get, modify, continue,
  ◌>>=◌, for_each,
}

-- `m` keeps `P`, whether it succeeds or fails.
pub record Preserves {S A : Type 0} (P : S → Type 0) (m : Action S A) : Type 0 where
  pub at : (s : S) → P s → P (m s).1

module _ {S A : Type 0} {P : S → Type 0} where
  pub Preserves-pure : (a : A) → Preserves P (pure a)
  Preserves-pure a = record { at = λ s h. h }

  pub Preserves-fail : (e : Error) → Preserves {A = A} P (fail e)
  Preserves-fail e = record { at = λ s h. h }

  pub Preserves-or_wrap :
      (m : Action S A) (text : Text) → Preserves P m → Preserves P (or_wrap m text)
  Preserves-or_wrap m text k = record { at = λ s h. wrap_lem (m s).0 (m s).1 (k.at s h) }
    where
      wrap_lem : (r : Result A) (t : S) → P t → P (or_wrap {S = S} (λ _. (r, t)) text t).1
      wrap_lem (ok a) t q = q
      wrap_lem (err e) t q = q

  pub Preserves-attempt : (m : Action S A) → Preserves P m → Preserves P (attempt m)
  Preserves-attempt m k = record { at = k.at }

  pub Preserves-logged : (m : Action S A) → Preserves P m → Preserves P (logged m)
  Preserves-logged m k = record { at = k.at }

  pub Preserves-if :
      (b : Bool) (m n : Action S A)
      → Preserves P m
      → Preserves P n
      → Preserves P (if b then m else n)
  Preserves-if true m n km kn = km
  Preserves-if false m n km kn = kn

pub Preserves-modify :
    {S : Type 0} {P : S → Type 0} (f : S → S) → ((s : S) → P s → P (f s)) → Preserves P (modify f)
Preserves-modify f k = record { at = k }

pub Preserves-get : {S : Type 0} {P : S → Type 0} → Preserves P (get {S = S})
Preserves-get = record { at = λ s h. h }

module _ {S A B : Type 0} {P : S → Type 0} where
  pub Preserves-bind :
      (m : Action S A) (f : A → Action S B)
      → Preserves P m
      → ((a : A) → Preserves P (f a))
      → Preserves P (m >>= f)
  Preserves-bind m f km kf = record { at = λ s h. continue_lem (m s).0 (m s).1 (km.at s h) }
    where
      continue_lem : (r : Result A) (t : S) → P t → P (continue f r t).1
      continue_lem (ok a) t q = (kf a).at t q
      continue_lem (err e) t q = q

module _ {S A B : Type 0} {P : S → Type 0} where
  pub Preserves-result :
      (m : A → Action S B) (k : Error → Action S B) (r : Result A)
      → ((a : A) → Preserves P (m a))
      → ((e : Error) → Preserves P (k e))
      → Preserves P (elim r [ ok a ↦ m a | err e ↦ k e ])
  Preserves-result m k (ok a) hm hk = hm a
  Preserves-result m k (err e) hm hk = hk e

  pub Preserves-option :
      (m : A → Action S B) (k : Action S B) (o : Option A)
      → ((a : A) → Preserves P (m a))
      → Preserves P k
      → Preserves P (elim o [ some a ↦ m a | none ↦ k ])
  Preserves-option m k (some a) hm hk = hm a
  Preserves-option m k none hm hk = hk

pub Preserves-for_each :
    {S A : Type 0} {P : S → Type 0} (body : A → Action S (Unit {0})) (xs : List A)
    → ((a : A) → Preserves P (body a))
    → Preserves P (for_each body xs)
Preserves-for_each body [] k = record { at = λ s h. h }
Preserves-for_each body (x ∷ xs) k =
    Preserves-bind (body x) (λ _. for_each body xs) (k x) (λ _. Preserves-for_each body xs k)

pub ruleset preserves_rules = (
  Preserves-pure, Preserves-fail, Preserves-or_wrap, Preserves-attempt, Preserves-logged,
  Preserves-if, Preserves-bind, Preserves-result, Preserves-option, Preserves-for_each,
  Preserves-get,
)
