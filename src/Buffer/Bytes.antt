-- ===== src/Buffer/Bytes.antt =====
-- `QueuedBuffer` of src/connection_handler.hpp is a queue of bytes.
use metricq_cpp.Prelude.{
  ℕ, zero, suc, ◌+◌, ◌-◌, ◌==◌, ◌≤◌, ◌≡◌, ◌≢◌, refl, ap, sym, ◌∙◌, Bool-cases, inl, inr, leb, List,
  [], ◌∷◌, ◌++◌, length, drop, concat, concat-append, drop-drop, append_assoc, append-nil, arith,
  true, false, length-drop, ==_iff,
}
use metricq_cpp.Prelude.Outcome.{ok}
use metricq_cpp.Buffer.{
  QueuedBuffer, no_data, emplace, empty, front, front_of, consume, consume_of, is_nil,
}

-- The offset lies within the first vector, and is 0 where there is none.
abbrev pub IsWithin : List (List ℕ) → ℕ → Type 0
IsWithin [] offset = offset ≡ 0
IsWithin (first ∷ rest) offset = offset ≤ length first

abbrev pub IsValid : QueuedBuffer → Type 0
IsValid b = IsWithin b.buffers b.offset

abbrev pub unsent : List (List ℕ) → ℕ → List ℕ
unsent [] offset = []
unsent (first ∷ rest) offset = drop offset first ++ concat rest

-- The bytes that are still to be written, in order.
abbrev pub contents : QueuedBuffer → List ℕ
contents b = unsent b.buffers b.offset

pub empty-IsValid : IsValid no_data
empty-IsValid = refl

emplace_of :
    (bytes : List ℕ) (bs : List (List ℕ)) (offset : ℕ)
    → IsWithin bs offset
    → IsWithin (bs ++ bytes ∷ []) offset
      × (unsent (bs ++ bytes ∷ []) offset ≡ unsent bs offset ++ bytes)
emplace_of bytes [] offset h = rw h (omega arith, append-nil bytes)
emplace_of bytes (first ∷ rest) offset h = (
  h,
  rw (concat-append rest, append-nil bytes)
      (sym (append_assoc (drop offset first) (concat rest) bytes)),
)

-- `emplace` adds its bytes at the end.
pub emplace_lem :
    (bytes : List ℕ) (b : QueuedBuffer)
    → IsValid b
    → IsValid (emplace bytes b) × (contents (emplace bytes b) ≡ contents b ++ bytes)
unfolding emplace
emplace_lem bytes b h = emplace_of bytes b.buffers b.offset h

-- In a valid buffer that is not empty `front` gives a first part of the bytes.
abbrev pub HasFront : QueuedBuffer → List ℕ → Type 0
HasFront b bytes = (front b ≡ ok bytes) × ((rest : List ℕ) × (contents b ≡ bytes ++ rest))

front_lem_of :
    (bs : List (List ℕ)) (offset : ℕ)
    → IsWithin bs offset
    → is_nil bs ≡ false
    → (bytes : List ℕ) × (front_of bs offset ≡ ok bytes)
      × ((rest : List ℕ) × (unsent bs offset ≡ bytes ++ rest))
unfolding front_of
front_lem_of [] offset h e = cc
front_lem_of (first ∷ rest) offset h e = (drop offset first, ground arith, (concat rest, refl))

pub front_lem :
    (b : QueuedBuffer) → IsValid b → empty b ≡ false → (bytes : List ℕ) × HasFront b bytes
unfolding front empty
front_lem b h e = let (bytes, f, rest) = front_lem_of b.buffers b.offset h e in (bytes, (f, rest))

drop-append-le : (n : ℕ) (xs ys : List ℕ) → n ≤ length xs → drop n (xs ++ ys) ≡ drop n xs ++ ys
drop-append-le zero xs ys h = refl
drop-append-le (suc n) [] ys h = absurd (omega arith)
drop-append-le (suc n) (x ∷ xs) ys h = drop-append-le n xs ys (omega arith)

drop_all : (n : ℕ) (xs : List ℕ) → length xs ≤ n → drop n xs ≡ []
drop_all zero [] h = refl
drop_all zero (x ∷ xs) h = absurd (omega arith)
drop_all (suc n) [] h = refl
drop_all (suc n) (x ∷ xs) h = drop_all n xs (omega arith)

start-IsWithin : (bs : List (List ℕ)) → IsWithin bs 0
start-IsWithin [] = refl
start-IsWithin (x ∷ xs) = omega arith

unsent_start : (bs : List (List ℕ)) → unsent bs 0 ≡ concat bs
unsent_start [] = refl
unsent_start (x ∷ xs) = refl

front_of-nil : (offset : ℕ) (bytes : List ℕ) → front_of [] offset ≢ ok bytes
unfolding front_of
front_of-nil offset bytes e = cc

-- What `consume` has done after `n` bytes of the front were written.
abbrev pub Consumed : ℕ → QueuedBuffer → QueuedBuffer → Type 0
Consumed n b b' = IsValid b' × (contents b' ≡ drop n (contents b))

front_of-length :
    (first : List ℕ) (rest : List (List ℕ)) (offset : ℕ) (bytes : List ℕ)
    → front_of (first ∷ rest) offset ≡ ok bytes
    → length bytes ≡ length first - offset
unfolding front_of
front_of-length first rest offset bytes f = elim (Bool-cases (leb offset (length first))) [
  | inl e ↦ ap length (front_bytes e) ∙ length-drop offset first
  | inr e ↦ absurd (ground arith)
]
  where
    front_bytes : leb offset (length first) ≡ true → bytes ≡ drop offset first
    front_bytes e = ground arith

consume_lem_of :
    (n : ℕ) (bs : List (List ℕ)) (offset : ℕ) (bytes : List ℕ)
    → IsWithin bs offset
    → front_of bs offset ≡ ok bytes
    → n ≤ length bytes
    → (b' : QueuedBuffer) × (consume_of bs offset n ≡ ok b')
      × Consumed n (record { buffers = bs; offset = offset }) b'
unfolding consume_of
consume_lem_of n [] offset bytes h f k = absurd (front_of-nil offset bytes f)
consume_lem_of n (first ∷ rest) offset bytes h f k =
    elim (Bool-cases (length first == offset + n)) [
      | inl e ↦ (
        record { buffers = rest; offset = 0 },
        rw e,
        (
          start-IsWithin rest,
          unsent_start rest
              ∙ sym (
                  drop-append-le n (drop offset first) (concat rest) n_le
                  ∙ ap (λ (xs : List ℕ). xs ++ concat rest)
                      (drop_all n (drop offset first) (
                        omega (
                          arith,
                          length-drop offset first,
                          (==_iff (length first) (offset + n)).0 e,
                        )))),
        ),
      )
      | inr e ↦ (
        record { buffers = first ∷ rest; offset = offset + n },
        rw e,
        (
          omega (arith, n_le, length-drop offset first),
          sym (
              drop-append-le n (drop offset first) (concat rest) n_le
              ∙ ap (λ (xs : List ℕ). xs ++ concat rest) (drop-drop offset n first)),
        ),
      )
    ]
  where
    n_le : n ≤ length (drop offset first)
    n_le = omega (arith, length-drop offset first, front_of-length first rest offset bytes f)

-- After some of the bytes of `front` have been written, `consume` takes exactly these away.
pub consume_lem :
    (n : ℕ) (b : QueuedBuffer) (bytes : List ℕ)
    → IsValid b
    → front b ≡ ok bytes
    → n ≤ length bytes
    → (b' : QueuedBuffer) × (consume n b ≡ ok b') × Consumed n b b'
unfolding consume front
consume_lem n b bytes h f k = consume_lem_of n b.buffers b.offset bytes h f k

front_some_nonempty_of :
    (bs : List (List ℕ)) (offset : ℕ) (bytes : List ℕ)
    → front_of bs offset ≡ ok bytes
    → is_nil bs ≡ false
unfolding front_of
front_some_nonempty_of [] offset bytes f = cc
front_some_nonempty_of (x ∷ bs) offset bytes f = refl

pub front_some_nonempty : (b : QueuedBuffer) (bytes : List ℕ) → front b ≡ ok bytes → empty b ≡ false
unfolding front empty
front_some_nonempty b bytes f = front_some_nonempty_of b.buffers b.offset bytes f

front-emplace_of :
    (more : List ℕ) (bs : List (List ℕ)) (offset : ℕ) (bytes : List ℕ)
    → front_of bs offset ≡ ok bytes
    → front_of (bs ++ more ∷ []) offset ≡ ok bytes
unfolding front_of
front-emplace_of more [] offset bytes f = cc
front-emplace_of more (x ∷ bs) offset bytes f = f

-- New data does not change the front.
pub front-emplace :
    (more : List ℕ) (b : QueuedBuffer) (bytes : List ℕ)
    → front b ≡ ok bytes
    → front (emplace more b) ≡ ok bytes
unfolding front emplace
front-emplace more b bytes f = front-emplace_of more b.buffers b.offset bytes f

is_nil-append : (bs : List (List ℕ)) (bytes : List ℕ) → is_nil (bs ++ bytes ∷ []) ≡ false
is_nil-append [] bytes = refl
is_nil-append (x ∷ bs) bytes = refl

pub empty-emplace : (bytes : List ℕ) (b : QueuedBuffer) → empty (emplace bytes b) ≡ false
unfolding empty emplace
empty-emplace bytes b = is_nil-append b.buffers bytes
