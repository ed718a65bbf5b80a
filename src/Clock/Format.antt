-- ===== src/Clock/Format.antt =====
-- The loop of `Clock::format` of src/chrono.cpp ends with the whole text.
use metricq_cpp.Prelude.{
  ℕ, zero, suc, ◌+◌, ◌-◌, ◌≤◌, ltb, ◌≡◌, refl, ap, ◌∙◌, inl, inr, List, [], ◌∷◌, ◌++◌, length,
  length-append, take, Option, none, some, if◌then◌else◌, arith, Bool-cases,
}
use metricq_cpp.Clock.{grow, first_size, write, without_last, format}

-- What is documented of `strftime`: it writes `text` where this fits with the 0 after it, and else
-- returns 0.
abbrev pub Writes : (ℕ → Option (List ℕ)) → List ℕ → Type 0
Writes strftime text =
    (size : ℕ) → strftime size ≡ (if ltb (length text) size then some text else none)

grow-more : (size : ℕ) → 2 ≤ size → suc size ≤ grow size
grow-more size h = omega arith

take-length : (xs ys : List ℕ) → take (length xs) (xs ++ ys) ≡ xs
take-length [] ys = refl
take-length (x ∷ xs) ys = ap (◌∷◌ x) (take-length xs ys)

without_last-append : (body : List ℕ) (c : ℕ) → without_last (some (body ++ c ∷ [])) ≡ some body
without_last-append body c =
    ap (λ n. some (take (n - 1) (body ++ c ∷ []))) (length-append body (c ∷ []))
    ∙ ap some (ap (λ n. take n (body ++ c ∷ [])) (omega arith) ∙ take-length body (c ∷ []))

module _ (strftime : ℕ → Option (List ℕ)) (text : List ℕ) (writes : Writes strftime text) where
  write-ends :
      (fuel size : ℕ)
      → 2 ≤ size
      → length text ≤ fuel + size
      → write strftime (suc fuel) size ≡ some text
  unfolding write
  write-ends zero size h enough = elim (Bool-cases (ltb (length text) (grow size))) [
    | inl fits ↦ rw (write, writes (grow size), fits) refl
    | inr large ↦ absurd (grind (arith, grow-more size h))
  ]
  write-ends (suc fuel) size h enough = elim (Bool-cases (ltb (length text) (grow size))) [
    | inl fits ↦ rw (write, writes (grow size), fits) refl
    | inr large ↦
        rw (write, writes (grow size), large)
          (write-ends fuel (grow size) (grind (arith, grow-more size h))
            (grind (arith, grow-more size h)))
  ]

-- With documented behaviour of `strftime`, whose text is `body` and the character added at the end,
-- and fuel above the length of that text, `format` returns `body`, however long it is: the loop
-- grows its buffer until the text fits.
pub format-body :
    (strftime : ℕ → Option (List ℕ)) (body : List ℕ) (bell fuel format_size : ℕ)
    → Writes strftime (body ++ bell ∷ [])
    → length (body ++ bell ∷ []) ≤ fuel
    → format strftime (suc fuel) format_size ≡ some body
unfolding format
format-body strftime body bell fuel format_size writes enough =
    ap without_last (
      write-ends strftime (body ++ bell ∷ []) writes fuel (first_size format_size) (grind arith)
        (grind arith))
    ∙ without_last-append body bell
