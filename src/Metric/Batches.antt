-- ===== src/Metric/Batches.antt =====
-- What a metric promises to its user (include/metricq/metric.hpp): the points that were sent
-- leave in batches. A batcher keeps whole points, with no differences and no encoding.
use metricq_cpp.Prelude.{
  ℕ, ◌==◌, ◌≡◌, refl, List, [], ◌∷◌, ◌++◌, append_assoc, append-nil, length, concat, concat-append,
  if◌then◌else◌, sym, ◌∙◌, Bool-cases, inl, inr,
}

pub record Batcher (A : Type 0) : Type 0 where
  pub size : ℕ
  pub pending : List A
  pub batches : List (List A)

pub data Call (A : Type 0) : Type 0 where
  sends : A → Call A
  flushes : Call A
  resizes : ℕ → Call A

module _ {A : Type 0} where
  -- Close the pending batch, unless it is empty.
  abbrev pub cut_pending : Batcher A → List A → Batcher A
  cut_pending b [] = b
  cut_pending b (x ∷ xs) = record b { pending = []; batches = b.batches ++ (x ∷ xs) ∷ [] }

  abbrev pub cut : Batcher A → Batcher A
  cut b = cut_pending b b.pending

  -- Add an entry, and close the batch if it has just reached the size.
  abbrev pub push : A → Batcher A → Batcher A
  push a b =
      let full = b.pending ++ a ∷ [] in
      if length full == b.size
      then record b { pending = []; batches = b.batches ++ full ∷ [] }
      else record b { pending = full }

  abbrev pub apply : Call A → Batcher A → Batcher A
  apply (sends a) b = push a b
  apply flushes b = cut b
  apply (resizes n) b = record b { size = n }

  abbrev pub apply_all : List (Call A) → Batcher A → Batcher A
  apply_all [] b = b
  apply_all (c ∷ cs) b = apply_all cs (apply c b)

  -- The entries that a list of calls sends.
  abbrev pub sent_by : List (Call A) → List A
  sent_by [] = []
  sent_by (sends a ∷ cs) = a ∷ sent_by cs
  sent_by (flushes ∷ cs) = sent_by cs
  sent_by (resizes n ∷ cs) = sent_by cs

  -- All that has gone in, in order.
  abbrev pub content : Batcher A → List A
  content b = concat b.batches ++ b.pending

  content-cut : (b : Batcher A) → content (cut b) ≡ content b
  content-cut b = go b.pending
    where
      go :
          (xs : List A)
          → content (cut_pending (record b { pending = xs }) xs) ≡ concat b.batches ++ xs
      go [] = refl
      go (x ∷ xs) = rw (
        append-nil (concat (b.batches ++ (x ∷ xs) ∷ [])),
        concat-append b.batches,
        append-nil (x ∷ xs),
      )

  content-push : (a : A) (b : Batcher A) → content (push a b) ≡ content b ++ a ∷ []
  content-push a b = elim (Bool-cases (length (b.pending ++ a ∷ []) == b.size)) [
    | inl e ↦ rw e (simp (concat-append, append-nil, append_assoc))
    | inr e ↦ rw e (sym (append_assoc (concat b.batches) b.pending (a ∷ [])))
  ]

  pub content-apply_all :
      (cs : List (Call A)) (b : Batcher A) → content (apply_all cs b) ≡ content b ++ sent_by cs
  content-apply_all [] b = sym (append-nil (content b))
  content-apply_all (sends a ∷ cs) b =
      content-apply_all cs (push a b)
      ∙ (rw (content-push a b) (append_assoc (content b) (a ∷ []) (sent_by cs)))
  content-apply_all (flushes ∷ cs) b = content-apply_all cs (cut b) ∙ rw (content-cut b)
  content-apply_all (resizes n ∷ cs) b = content-apply_all cs (record b { size = n })
