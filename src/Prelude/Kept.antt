-- ===== src/Prelude/Kept.antt =====
-- Actions that keep a property of their object, whether they succeed or fail.
use mathlib.Core.Logic.{inl, inr}
use mathlib.Core.Bool.{Bool, true, false}
use mathlib.Core.Path.{◌≡◌, sym, ap, subst}
use mathlib.Core.Option.{Option, none, some}
use metricq_cpp.Prelude.Outcome.{
  Result, Failure, Action, ◌>>=◌, ◌>>◌, lift, gets, or_raise, modify, when, assert, Result-cases,
  >>=-ok, >>=-err,
}

pub record Kept {S A : Type 0} (P : S → Type 0) (m : Action S A) : Type 0 where
  pub keeps : (s : S) → P s → P (m s).1

module _ {S : Type 0} {P : S → Type 0} where
  -- By the state in which the action ends.
  pub Kept-state :
      {A : Type 0} {m : Action S A} → ((s : S) → P s → (s' : S) × ((m s).1 ≡ s') × P s') → Kept P m
  Kept-state h = record { keeps = λ s a. let (s', e, a') = h s a in subst P (sym e) a' }

  pub >>=-Kept :
      {A B : Type 0} {m : Action S A} {k : A → Action S B}
      → Kept P m
      → ((x : A) → Kept P (k x))
      → Kept P (m >>= k)
  >>=-Kept {m = m} {k = k} km kk = Kept-state λ s h. elim (Result-cases (m s).0) [
    | inl (x, e) ↦
        ((k x (m s).1).1, ap (λ p. p.1) (>>=-ok m k s x e), (kk x).keeps (m s).1 (km.keeps s h))
    | inr (x, e) ↦ ((m s).1, ap (λ p. p.1) (>>=-err m k s x e), km.keeps s h)
  ]

  pub >>-Kept :
      {A B : Type 0} {m : Action S A} {k : Action S B} → Kept P m → Kept P k → Kept P (m >> k)
  >>-Kept km kk = >>=-Kept km (λ _. kk)

  pub modify-Kept : (f : S → S) → ((s : S) → P s → P (f s)) → Kept P (modify f)
  modify-Kept f h = record { keeps = h }

  pub lift-Kept : {A : Type 0} (r : Result A) → Kept P (lift r)
  lift-Kept r = record { keeps = λ s h. h }

  pub gets-Kept : {A : Type 0} (f : S → A) → Kept P (gets f)
  gets-Kept f = record { keeps = λ s h. h }

  pub or_raise-Kept : {A : Type 0} (o : Option A) (e : Failure) → Kept P (or_raise o e)
  or_raise-Kept none e = record { keeps = λ s h. h }
  or_raise-Kept (some x) e = record { keeps = λ s h. h }

  pub when-Kept : (b : Bool) {m : Action S (Unit {0})} → Kept P m → Kept P (when b m)
  when-Kept true km = km
  when-Kept false km = record { keeps = λ s h. h }

  pub assert-Kept : (b : Bool) → Kept P (assert b)
  assert-Kept true = record { keeps = λ s h. h }
  assert-Kept false = record { keeps = λ s h. h }
