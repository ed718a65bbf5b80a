-- ===== src/Clock/Fraction.antt =====
-- The fraction of a second in `Clock::format_iso` of src/chrono.cpp.
use metricq_cpp.Prelude.{
  ℕ, zero, suc, ◌+◌, ◌-◌, ◌*◌, ◌/◌, ◌%◌, ◌^◌, ◌≤◌, ◌<◌, ltb, ◌≡◌, refl, ◌∙◌, inl, inr, List, [],
  ◌∷◌, ◌++◌, length, length-append, All, Option, some, arith, Bool-cases,
}
use metricq_cpp.Prelude.Int.{ℤ, pos}
use metricq_cpp.Clock.{
  digits, zeros, pad, fraction, replace_f, contains_f, with_fraction, date_format, zone_format,
  format_iso,
}
use metricq_cpp.Clock.Format.{Writes, format-body}

-- The number that bytes spell, after `acc`.
abbrev pub value_from : ℕ → List ℕ → ℕ
value_from acc [] = acc
value_from acc (c ∷ cs) = value_from (acc * 10 + (c - 48)) cs

abbrev pub IsDigit : ℕ → Type 0
IsDigit c = (48 ≤ c) × (c ≤ 57)

value_from-append :
    (acc : ℕ) (xs : List ℕ) (c : ℕ)
    → value_from acc (xs ++ c ∷ []) ≡ value_from acc xs * 10 + (c - 48)
value_from-append acc [] c = refl
value_from-append acc (x ∷ xs) c = value_from-append (acc * 10 + (x - 48)) xs c

All-snoc : (P : ℕ → Type 0) (xs : List ℕ) (c : ℕ) → All P xs → P c → All P (xs ++ c ∷ [])
All-snoc P [] c h k = (k, tt)
All-snoc P (x ∷ xs) c h k = (h.0, All-snoc P xs c h.1 k)

digits-value : (fuel n : ℕ) → n < 10 ^ fuel → value_from 0 (digits fuel n) ≡ n
unfolding digits
digits-value zero n h = omega arith
digits-value (suc fuel) n h = elim (Bool-cases (ltb n 10)) [
  | inl e ↦ rw e (omega arith)
  | inr e ↦
      let before = digits-value fuel (n / 10) (omega arith) in
      rw e (value_from-append 0 (digits fuel (n / 10)) (48 + n % 10) ∙ omega arith)
]

digits-length : (fuel n : ℕ) → length (digits fuel n) ≤ fuel
unfolding digits
digits-length zero n = omega arith
digits-length (suc fuel) n = elim (Bool-cases (ltb n 10)) [
  | inl e ↦ rw e (omega arith)
  | inr e ↦
      let before = digits-length fuel (n / 10) in
      let added = length-append (digits fuel (n / 10)) ((48 + n % 10) ∷ []) in rw e (omega arith)
]

digits-IsDigit : (fuel n : ℕ) → All IsDigit (digits fuel n)
unfolding digits
digits-IsDigit zero n = tt
digits-IsDigit (suc fuel) n = elim (Bool-cases (ltb n 10)) [
  | inl e ↦ rw e ((omega arith, ground arith), tt)
  | inr e ↦ rw e (
      All-snoc IsDigit (digits fuel (n / 10)) (48 + n % 10) (digits-IsDigit fuel (n / 10))
        (omega arith, omega arith))
]

zeros-value : (k : ℕ) (xs : List ℕ) → value_from 0 (zeros k ++ xs) ≡ value_from 0 xs
zeros-value zero xs = refl
zeros-value (suc k) xs = zeros-value k xs

zeros-length : (k : ℕ) (xs : List ℕ) → length (zeros k ++ xs) ≡ k + length xs
zeros-length zero xs = omega arith
zeros-length (suc k) xs = omega (arith, zeros-length k xs)

zeros-IsDigit : (k : ℕ) (xs : List ℕ) → All IsDigit xs → All IsDigit (zeros k ++ xs)
zeros-IsDigit zero xs h = h
zeros-IsDigit (suc k) xs h = ((omega arith, omega arith), zeros-IsDigit k xs h)

-- Nine digits that spell the nanoseconds after the last full second.
fraction-reads :
    (n : ℕ)
    → (length (fraction (pos n)) ≡ 9)
      × All IsDigit (fraction (pos n))
      × (value_from 0 (fraction (pos n)) ≡ n % 10 ^ 9)
unfolding fraction pad
fraction-reads n =
    let text = digits 9 (n % 10 ^ 9) in
    let short = digits-length 9 (n % 10 ^ 9) in
    (
      omega (arith, zeros-length (9 - length text) text),
      zeros-IsDigit (9 - length text) text (digits-IsDigit 9 (n % 10 ^ 9)),
      zeros-value (9 - length text) text ∙ digits-value 9 (n % 10 ^ 9) (omega arith),
    )

-- The format that is given to `strftime`.
with_fraction-iso :
    (tp : ℤ)
    → with_fraction tp (date_format ++ 37 ∷ 102 ∷ zone_format)
      ≡ date_format ++ (fraction tp ++ zone_format)
unfolding with_fraction contains_f replace_f
with_fraction-iso tp = refl

-- Of a time from the epoch on, with documented behaviour of `strftime` for its format, whose text is `body`
-- and the character added at the end, and fuel above the length of that text: `format_iso` returns
-- `body`, and the format has, between the date and the zone, nine digits that spell the nanoseconds
-- after the last full second.
pub format_iso-fraction :
    (strftime : List ℕ → ℕ → Option (List ℕ)) (n fuel : ℕ) (body : List ℕ)
    → Writes
        (strftime (with_fraction (pos n) (date_format ++ 37 ∷ 102 ∷ zone_format) ++ 7 ∷ []))
        (body ++ 7 ∷ [])
    → length (body ++ 7 ∷ []) ≤ fuel
    → (format_iso strftime (suc fuel) (pos n) ≡ some body)
      × ((nanoseconds : List ℕ) × (with_fraction (pos n) (date_format ++ 37 ∷ 102 ∷ zone_format)
            ≡ date_format ++ (nanoseconds ++ zone_format))
          × (length nanoseconds ≡ 9)
          × All IsDigit nanoseconds
          × (value_from 0 nanoseconds ≡ n % 10 ^ 9))
unfolding format_iso
format_iso-fraction strftime n fuel body writes enough =
    let fmt = with_fraction (pos n) (date_format ++ 37 ∷ 102 ∷ zone_format) ++ 7 ∷ [] in
    let (nine, are_digits, reads) = fraction-reads n in
    (
      format-body (strftime fmt) body 7 fuel (length fmt) writes enough,
      (fraction (pos n), with_fraction-iso (pos n), nine, are_digits, reads),
    )
