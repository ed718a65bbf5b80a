-- ===== src/Prelude/Relates.antt =====
-- Actions that keep an object within a relation to what it was, whether they succeed or fail.
use mathlib.Core.Logic.{inl, inr}
use mathlib.Core.Bool.{Bool, true, false}
use metricq_cpp.Prelude.Tests.{if◌then◌else◌}
use metricq_cpp.Prelude.Outcome.{
  Result, Failure, Action, ◌>>=◌, ◌>>◌, lift, gets, raise, when, assert, Result-cases, >>=-ok,
  >>=-err,
}

module _ {S : Type 0} (R : S → S → Type 0) where
  pub record IsPreorder : Type 0 where
    pub refl_of : (s : S) → R s s
    pub trans_of : (s s' s'' : S) → R s s' → R s' s'' → R s s''

  pub record Relates {A : Type 0} (m : Action S A) : Type 0 where
    pub relates : (s : S) → R s (m s).1

module _ {S : Type 0} {R : S → S → Type 0} (p : IsPreorder R) where
  pub >>=-Relates :
      {A B : Type 0} (m : Action S A) (k : A → Action S B)
      → Relates R m
      → ((a : A) → Relates R (k a))
      → Relates R (m >>= k)
  >>=-Relates m k rm rk = record {
    relates = λ s. elim (Result-cases (m s).0) [
      | inl (a, e) ↦
          rw (>>=-ok m k s a e)
            (p.trans_of s (m s).1 (k a (m s).1).1 (rm.relates s) ((rk a).relates (m s).1))
      | inr (x, e) ↦ rw (>>=-err m k s x e) (rm.relates s)
    ];
  }

  pub >>-Relates :
      {A B : Type 0} (m : Action S A) (k : Action S B)
      → Relates R m
      → Relates R k
      → Relates R (m >> k)
  >>-Relates m k rm rk = record { relates = (>>=-Relates m (λ _. k) rm (λ _. rk)).relates }

  pub lift-Relates : {A : Type 0} (r : Result A) → Relates R (lift r)
  lift-Relates r = record { relates = p.refl_of }

  pub gets-Relates : {A : Type 0} (f : S → A) → Relates R (gets f)
  gets-Relates f = record { relates = p.refl_of }

  pub raise-Relates : {A : Type 0} (e : Failure) → Relates R {A = A} (raise e)
  raise-Relates e = record { relates = p.refl_of }

  pub when-Relates : (b : Bool) (m : Action S (Unit {0})) → Relates R m → Relates R (when b m)
  when-Relates true m rm = rm
  when-Relates false m rm = record { relates = p.refl_of }

  pub assert-Relates : (b : Bool) → Relates R (assert b)
  assert-Relates true = record { relates = p.refl_of }
  assert-Relates false = record { relates = p.refl_of }

pub if-Relates :
    {S A : Type 0} {R : S → S → Type 0} (b : Bool) (m k : Action S A)
    → Relates R m
    → Relates R k
    → Relates R (if b then m else k)
if-Relates true m k rm rk = rm
if-Relates false m k rm rk = rk
