-- ===== src/Prelude/Outcome.antt =====
-- How a C++ call ends: with a value, or with the failure that leaves it. A method of an object is
-- an `Action`: it also returns the object, since what it wrote before a failure stays written.
use Prim.Native.String.{String}
use mathlib.Core.Path.{◌≡◌, refl}
use mathlib.Core.Logic.{◌⊎◌, inl, inr}
use native.Mathlib.Omega.{arith}
use mathlib.Core.Bool.{Bool, true, false}
use mathlib.Core.Option.{Option, none, some}
use metricq_cpp.Prelude.Int.{ℤ, ◌+ℤ◌, ◌-ℤ◌, in_int64}
use metricq_cpp.Prelude.Tests.{if◌then◌else◌}

-- The exceptions that the sources throw or let through, a failed `assert`, `std::abort`, and the
-- undefined behaviour that the model makes visible.
pub data Failure : Type 0 where
  overflow : Failure
  out_of_bounds : Failure
  null_pointer : Failure
  dangling : Failure
  assertion : Failure
  aborted : Failure
  runtime_error : String → Failure
  invalid_argument : String → Failure
  logic_error : String → Failure
  out_of_range : Failure
  type_error : Failure
  parse_error : Failure
  rpc_error : Failure

pub data Result {ℓ} (A : Type ℓ) : Type ℓ where
  ok : A → Result A
  err : Failure → Result A

-- To split on a computed result and keep the equation.
pub Result-cases {ℓ} :
    {A : Type ℓ} (r : Result A) → ((a : A) × (r ≡ ok a)) ⊎ ((e : Failure) × (r ≡ err e))
Result-cases (ok a) = inl (a, refl)
Result-cases (err e) = inr (e, refl)

-- Chains of calls that keep no state.
pub ok_injective {ℓ} : {A : Type ℓ} {a b : A} → ok a ≡ ok b → a ≡ b
ok_injective h = cc

abbrev pub bind {ℓ κ} : {A : Type ℓ} {B : Type κ} → Result A → (A → Result B) → Result B
bind (ok a) f = f a
bind (err e) f = err e

-- Signed 64-bit addition and subtraction; out of range they are undefined.
unfoldable pub add_int64 : ℤ → ℤ → Result ℤ
add_int64 a b = let s = a +ℤ b in if in_int64 s then ok s else err overflow

unfoldable pub sub_int64 : ℤ → ℤ → Result ℤ
sub_int64 a b = let d = a -ℤ b in if in_int64 d then ok d else err overflow

abbrev pub Action : Type 0 → Type 0 → Type 0
Action S A = S → Result A × S

module _ {S A : Type 0} where
  abbrev pub pure : A → Action S A
  pure a s = (ok a, s)

  abbrev pub raise : Failure → Action S A
  raise e s = (err e, s)

  abbrev pub gets : (S → A) → Action S A
  gets f s = (ok (f s), s)

  abbrev pub lift : Result A → Action S A
  lift r s = (r, s)

  abbrev pub or_raise : Option A → Failure → Action S A
  or_raise none e s = (err e, s)
  or_raise (some a) e s = (ok a, s)

infixl 5 ◌>>=◌ ◌>>◌
abbrev pub ◌>>=◌ : {S A B : Type 0} → Action S A → (A → Action S B) → Action S B
◌>>=◌ m f s = let (r, s') = m s in elim r [ ok a ↦ f a s' | err e ↦ (err e, s') ]

abbrev pub ◌>>◌ : {S A B : Type 0} → Action S A → Action S B → Action S B
m >> k = m >>= λ _. k

abbrev pub modify : {S : Type 0} → (S → S) → Action S (Unit {0})
modify f s = (ok tt, f s)

abbrev pub skip : {S : Type 0} → Action S (Unit {0})
skip s = (ok tt, s)

abbrev pub when : {S : Type 0} → Bool → Action S (Unit {0}) → Action S (Unit {0})
when true m = m
when false m = skip

-- `assert(b)` in a build that keeps assertions.
abbrev pub assert : {S : Type 0} → Bool → Action S (Unit {0})
assert true s = (ok tt, s)
assert false s = (err assertion, s)

-- A chain goes on from a call that succeeds, and ends with one that fails.
module _ {S A B : Type 0} where
  pub >>=-ok :
      (m : Action S A) (k : A → Action S B) (s : S) (a : A)
      → (m s).0 ≡ ok a
      → (m >>= k) s ≡ k a (m s).1
  >>=-ok m k s a e = ground arith

  pub >>-ok :
      (m : Action S A) (k : Action S B) (s : S) (a : A) → (m s).0 ≡ ok a → (m >> k) s ≡ k (m s).1
  >>-ok m k s a e = >>=-ok m (λ _. k) s a e

  pub >>=-inv :
      (m : Action S A) (k : A → Action S B) (s : S) (b : B)
      → ((m >>= k) s).0 ≡ ok b
      → (a : A) × ((m s).0 ≡ ok a) × ((m >>= k) s ≡ k a (m s).1)
  >>=-inv m k s b h = elim (Result-cases (m s).0) [
    | inl (a, e) ↦ (a, e, >>=-ok m k s a e)
    | inr (x, e) ↦ absurd ground arith
  ]

  pub >>-inv :
      (m : Action S A) (k : Action S B) (s : S) (b : B)
      → ((m >> k) s).0 ≡ ok b
      → (a : A) × ((m s).0 ≡ ok a) × ((m >> k) s ≡ k (m s).1)
  >>-inv m k s b h = >>=-inv m (λ _. k) s b h

  pub >>=-err :
      (m : Action S A) (k : A → Action S B) (s : S) (e : Failure)
      → (m s).0 ≡ err e
      → (m >>= k) s ≡ (err e, (m s).1)
  >>=-err m k s e h = ground arith

  pub >>=-step :
      (m : Action S A) (k : A → Action S B) (s : S) (a : A) (s' : S)
      → m s ≡ (ok a, s')
      → (m >>= k) s ≡ k a s'
  >>=-step m k s a s' e = ground arith

  pub >>-step :
      (m : Action S A) (k : Action S B) (s : S) (a : A) (s' : S)
      → m s ≡ (ok a, s')
      → (m >> k) s ≡ k s'
  >>-step m k s a s' e = >>=-step m (λ _. k) s a s' e
