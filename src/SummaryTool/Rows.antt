-- ===== src/SummaryTool/Rows.antt =====
-- What `summary_csv_print` of tools/metricq-summary/src/main.cpp prints.
use metricq_cpp.Prelude.{
  ◌≡◌, refl, ◌∙◌, ap, sym, inl, inr, List, [], ◌∷◌, ◌++◌, append_assoc, append-nil, String,
}
use metricq_cpp.Prelude.Int.{ℤ}
use metricq_cpp.Prelude.Outcome.{Result, ok, err, Failure, >>-step, >>=-err, Result-cases}
use metricq_cpp.Chunk.{TimeValue}
use metricq_cpp.Summary.{Double, Sorting, Summary, calculate}
use metricq_cpp.SummaryTool.{
  Stream, cout, header, row, Line, World, print_metric, print_metrics, summary_csv_print,
}

module _ {V : Type 0} where
  -- The lines, each to the same stream.
  abbrev pub to_stream : Stream → List (Line V) → List (Stream × Line V)
  to_stream os [] = []
  to_stream os (line ∷ lines) = (os, line) ∷ to_stream os lines

  abbrev pub with_lines : List (Stream × Line V) → World V → World V
  with_lines lines w = record w { printed = w.printed ++ lines }

  with_lines-nil : (w : World V) → with_lines [] w ≡ w
  with_lines-nil w = ap (λ ps. record w { printed = ps }) (append-nil w.printed)

module _ (d : Double) (s : Sorting d) (start_delta stop_delta : ℤ) where
  open d use {Value}

  -- The statistics of the metrics: a line for each that has points, in their order, as far as they can
  -- be computed.
  pub data AreRows
      : List (String × List (TimeValue Value))
        → List (Line Value)
        → Result (Unit {0})
        → Type 0 where
    done : AreRows [] [] (ok tt)
    without_points :
        {metric : String} {stats : List (String × List (TimeValue Value))}
        {lines : List (Line Value)} {r : Result (Unit {0})}
        → AreRows stats lines r
        → AreRows ((metric, []) ∷ stats) lines r
    with_points :
        {metric : String} {tv : TimeValue Value} {tvs : List (TimeValue Value)}
        {sum : Summary Value} {stats : List (String × List (TimeValue Value))}
        {lines : List (Line Value)} {r : Result (Unit {0})}
        → calculate d s start_delta stop_delta (tv ∷ tvs) ≡ ok sum
        → AreRows stats lines r
        → AreRows ((metric, tv ∷ tvs) ∷ stats) (row metric sum ∷ lines) r
    stuck :
        {metric : String} {tv : TimeValue Value} {tvs : List (TimeValue Value)}
        {stats : List (String × List (TimeValue Value))} {e : Failure}
        → calculate d s start_delta stop_delta (tv ∷ tvs) ≡ err e
        → AreRows ((metric, tv ∷ tvs) ∷ stats) [] (err e)

  print_metric-row :
      (os : Stream) (metric : String) (tv : TimeValue Value) (tvs : List (TimeValue Value))
      (sum : Summary Value) (w : World Value)
      → calculate d s start_delta stop_delta (tv ∷ tvs) ≡ ok sum
      → print_metric d s os start_delta stop_delta metric (tv ∷ tvs) w
        ≡ (ok tt, with_lines ((os, row metric sum) ∷ []) w)
  unfolding print_metric
  print_metric-row os metric tv tvs sum w e = rw e refl

  print_metric-stuck :
      (os : Stream) (metric : String) (tv : TimeValue Value) (tvs : List (TimeValue Value))
      (x : Failure) (w : World Value)
      → calculate d s start_delta stop_delta (tv ∷ tvs) ≡ err x
      → print_metric d s os start_delta stop_delta metric (tv ∷ tvs) w ≡ (err x, w)
  unfolding print_metric
  print_metric-stuck os metric tv tvs x w e = rw e refl

  pub print_metrics-rows :
      (os : Stream) (stats : List (String × List (TimeValue Value))) (w : World Value)
      → (lines : List (Line Value)) × (r : Result (Unit {0})) × AreRows stats lines r
        × (print_metrics d s os start_delta stop_delta stats w
            ≡ (r, with_lines (to_stream os lines) w))
  unfolding print_metrics
  print_metrics-rows os [] w = ([], ok tt, done, ap (λ v. (ok tt, v)) (sym (with_lines-nil w)))
  print_metrics-rows os ((metric, []) ∷ stats) w =
      let (lines, r, rows, eq) = print_metrics-rows os stats w in
      (lines, r, without_points rows, eq)
  print_metrics-rows os ((metric, tv ∷ tvs) ∷ stats) w =
      let rest = print_metrics d s os start_delta stop_delta stats in
      let here = print_metric d s os start_delta stop_delta metric (tv ∷ tvs) in
      elim (Result-cases (calculate d s start_delta stop_delta (tv ∷ tvs))) [
        | inl (sum, e) ↦
            let w' = with_lines ((os, row metric sum) ∷ []) w in
            let (lines, r, rows, eq) = print_metrics-rows os stats w' in
            (
              row metric sum ∷ lines,
              r,
              with_points e rows,
              >>-step here rest w tt w' (print_metric-row os metric tv tvs sum w e)
                  ∙ eq
                  ∙ ap (λ ps. (r, record w { printed = ps }))
                      (append_assoc w.printed ((os, row metric sum) ∷ []) (to_stream os lines)),
            )
        | inr (x, e) ↦
            let failed = print_metric-stuck os metric tv tvs x w e in
            (
              [],
              err x,
              stuck e,
              >>=-err here (λ _. rest) w x (ap (λ p. p.0) failed)
                  ∙ ap (λ v. (err x, v.1)) failed
                  ∙ ap (λ v. (err x, v)) (sym (with_lines-nil w)),
            )
      ]

  -- The header is printed first, to the standard output, whatever the stream is, and then, to the
  -- stream, one line for each metric that has points, in the order of the metrics, with the statistics of
  -- its points; the first metric whose statistics cannot be computed ends this with its failure.
  pub summary_csv_print-rows :
      (os : Stream) (stats : List (String × List (TimeValue Value))) (w : World Value)
      → (lines : List (Line Value)) × (r : Result (Unit {0})) × AreRows stats lines r
        × (summary_csv_print d s os stats start_delta stop_delta w
            ≡ (r, with_lines ((cout, header) ∷ to_stream os lines) w))
  unfolding summary_csv_print
  summary_csv_print-rows os stats w =
      let (lines, r, rows, eq) = print_metrics-rows os stats (with_lines ((cout, header) ∷ []) w) in
      (
        lines,
        r,
        rows,
        eq
            ∙ ap (λ ps. (r, record w { printed = ps }))
                (append_assoc w.printed ((cout, header) ∷ []) (to_stream os lines)),
      )
