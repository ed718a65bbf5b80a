-- ===== src/SummaryTool/Order.antt =====
-- The order in which tools/metricq-summary/src/main.cpp visits the metrics, which is that of a hash map.
use mathlib.Core.List.{Permᴰ}
use mathlib.Core.List.Permᴰ
use mathlib.Core.List.Permᴰ.{nil, cons, swap, trans}
use metricq_cpp.Prelude.{◌≡◌, refl, ap, sym, ◌∙◌, subst, List, [], ◌∷◌, ◌++◌, append_assoc, String}
use metricq_cpp.Prelude.Int.{ℤ}
use metricq_cpp.Prelude.Outcome.{Result, ok, err, bind, ok_injective}
use metricq_cpp.Chunk.{TimeValue}
use metricq_cpp.Summary.{Double, Sorting, calculate}
use metricq_cpp.SummaryTool.{Stream, cout, header, row, Line, World, summary_csv_print}
use metricq_cpp.SummaryTool.Rows.{
  AreRows, done, without_points, with_points, stuck, to_stream, with_lines, summary_csv_print-rows,
}

module _ {A : Type 0} where
  bind-inv :
      {B : Type 0} (m : Result A) (f : A → Result B) (b : B)
      → bind m f ≡ ok b
      → (a : A) × (m ≡ ok a) × (f a ≡ ok b)
  bind-inv (ok a) f b h = (a, refl, h)
  bind-inv (err e) f b h = absurd (cc)

  bind-then :
      (r : Result (Unit {0})) (a : A) (f : A → A)
      → bind (bind r (λ _. ok a)) (λ x. ok (f x)) ≡ bind r (λ _. ok (f a))
  bind-then (ok t) a f = refl
  bind-then (err e) a f = refl

  bind-then_ok :
      (r : Result (Unit {0})) (a b : A) → bind r (λ _. ok a) ≡ ok b → (r ≡ ok tt) × (a ≡ b)
  bind-then_ok (ok t) a b h = (refl, ok_injective h)
  bind-then_ok (err e) a b h = absurd (cc)

  exchange : (xs ys zs : List A) → Permᴰ (xs ++ (ys ++ zs)) (ys ++ (xs ++ zs))
  exchange xs ys zs =
      subst (λ u. Permᴰ u (ys ++ (xs ++ zs))) (append_assoc xs ys zs)
        (subst (λ u. Permᴰ ((xs ++ ys) ++ zs) u) (append_assoc ys xs zs)
          (Permᴰ.append_right zs (Permᴰ.append_comm xs ys)))

module _ (d : Double) (s : Sorting d) (start_delta stop_delta : ℤ) where
  open d use {Value}

  -- The lines of a metric.
  abbrev lines_of_one : (String × List (TimeValue Value)) → Result (List (Line Value))
  lines_of_one (metric, []) = ok []
  lines_of_one (metric, tv ∷ tvs) =
      bind (calculate d s start_delta stop_delta (tv ∷ tvs)) λ sum. ok (row metric sum ∷ [])

  abbrev lines_of : List (String × List (TimeValue Value)) → Result (List (Line Value))
  lines_of [] = ok []
  lines_of (stat ∷ stats) =
      bind (lines_of_one stat) λ lines. bind (lines_of stats) λ rest. ok (lines ++ rest)

  -- To be computed is the same as to be printed without a failure.
  AreRows-lines_of :
      {stats : List (String × List (TimeValue Value))} {lines : List (Line Value)}
      {r : Result (Unit {0})}
      → AreRows d s start_delta stop_delta stats lines r
      → lines_of stats ≡ bind r (λ _. ok lines)
  AreRows-lines_of done = refl
  AreRows-lines_of (without_points {lines = lines} {r = r} rows) =
      ap (λ x. bind x ok) (AreRows-lines_of rows) ∙ bind-then r lines (λ rest. rest)
  AreRows-lines_of (with_points {metric} {sum = sum} {lines = lines} {r = r} e rows) = rw e (
      ap (λ x. bind x (λ rest. ok (row metric sum ∷ rest))) (AreRows-lines_of rows)
      ∙ bind-then r lines (λ rest. row metric sum ∷ rest))
  AreRows-lines_of (stuck e) = rw e refl

  lines_of-cons :
      (stat : String × List (TimeValue Value)) (stats : List (String × List (TimeValue Value)))
      (first rest : List (Line Value))
      → lines_of_one stat ≡ ok first
      → lines_of stats ≡ ok rest
      → lines_of (stat ∷ stats) ≡ ok (first ++ rest)
  lines_of-cons stat stats first rest e f =
      ap (λ r. bind r λ xs. bind (lines_of stats) λ ys. ok (xs ++ ys)) e
      ∙ ap (λ r. bind r λ ys. ok (first ++ ys)) f

  lines_of-permuted :
      {xs ys : List (String × List (TimeValue Value))}
      → Permᴰ xs ys
      → (lines : List (Line Value)) → lines_of xs ≡ ok lines
      → (lines' : List (Line Value)) × (lines_of ys ≡ ok lines') × Permᴰ lines lines'
  lines_of-permuted nil lines h = (lines, h, Permᴰ.refl lines)
  lines_of-permuted (cons {a} {b} {l₁} {l₂} e p) lines h =
      let (first, first_eq, h₁) = bind-inv (lines_of_one a) _ lines h in
      let (rest, rest_eq, h₂) = bind-inv (lines_of l₁) (λ rest. ok (first ++ rest)) lines h₁ in
      let (rest', rest_eq', p') = lines_of-permuted p rest rest_eq in
      let first_eq' : lines_of_one b ≡ ok first = ap lines_of_one (sym e) ∙ first_eq in
      (
        first ++ rest',
        lines_of-cons b l₂ first rest' first_eq' rest_eq',
        subst (λ x. Permᴰ x (first ++ rest')) (ok_injective h₂) (Permᴰ.append_left first p'),
      )
  lines_of-permuted (swap {a} {b} {a'} {b'} {l} e f) lines h =
      let (of_a, a_eq, h₁) = bind-inv (lines_of_one a) _ lines h in
      let (after, after_eq, h₂) =
        bind-inv (lines_of (b ∷ l)) (λ rest. ok (of_a ++ rest)) lines h₁ in
      let (of_b, b_eq, h₃) = bind-inv (lines_of_one b) _ after after_eq in
      let (rest, rest_eq, h₄) = bind-inv (lines_of l) (λ rest. ok (of_b ++ rest)) after h₃ in
      let b_eq' : lines_of_one a' ≡ ok of_b = ap lines_of_one (sym f) ∙ b_eq in
      let a_eq' : lines_of_one b' ≡ ok of_a = ap lines_of_one (sym e) ∙ a_eq in
      let lines_eq : of_a ++ (of_b ++ rest) ≡ lines =
        ap (◌++◌ of_a) (ok_injective h₄) ∙ ok_injective h₂ in
      (
        of_b ++ (of_a ++ rest),
        lines_of-cons a' (b' ∷ l) of_b (of_a ++ rest) b_eq'
            (lines_of-cons b' l of_a rest a_eq' rest_eq),
        subst (λ x. Permᴰ x (of_b ++ (of_a ++ rest))) lines_eq (exchange of_a of_b rest),
      )
  lines_of-permuted (trans p q) lines h =
      let (lines₁, h₁, p₁) = lines_of-permuted p lines h in
      let (lines₂, h₂, p₂) = lines_of-permuted q lines₁ h₁ in (lines₂, h₂, trans p₁ p₂)

  -- The order in which the metrics are visited does not matter: if all statistics can be computed for one
  -- order, they can for every other, and the header and then the same lines are printed, up to their
  -- order.
  pub summary_csv_print-permuted :
      (os : Stream) (stats stats' : List (String × List (TimeValue Value))) (w : World Value)
      → Permᴰ stats stats'
      → (summary_csv_print d s os stats start_delta stop_delta w).0 ≡ ok tt
      → (lines : List (Line Value)) × (lines' : List (Line Value)) × Permᴰ lines lines'
        × (summary_csv_print d s os stats start_delta stop_delta w
            ≡ (ok tt, with_lines ((cout, header) ∷ to_stream os lines) w))
        × (summary_csv_print d s os stats' start_delta stop_delta w
            ≡ (ok tt, with_lines ((cout, header) ∷ to_stream os lines') w))
  summary_csv_print-permuted os stats stats' w p h =
      let (lines, r, rows, prints) = summary_csv_print-rows d s start_delta stop_delta os stats w in
      let (lines', r', rows', prints') =
        summary_csv_print-rows d s start_delta stop_delta os stats' w in
      let r_ok : r ≡ ok tt = sym (ap (λ x. x.0) prints) ∙ h in
      let computed : lines_of stats ≡ ok lines =
        AreRows-lines_of rows ∙ ap (λ x. bind x (λ _. ok lines)) r_ok in
      let (lines₁, computed₁, p₁) = lines_of-permuted p lines computed in
      let (r_ok', same) =
        bind-then_ok r' lines' lines₁ (sym (AreRows-lines_of rows') ∙ computed₁) in
      (
        lines,
        lines',
        subst (λ x. Permᴰ lines x) (sym same) p₁,
        prints ∙ ap (λ x. (x, with_lines ((cout, header) ∷ to_stream os lines) w)) r_ok,
        prints' ∙ ap (λ x. (x, with_lines ((cout, header) ∷ to_stream os lines') w)) r_ok',
      )
