-- ===== src/Tpcc/RunLog/Reading.antt =====
-- What `process_run_file` makes of a log.
use benchhelpers.Prelude.{
  All, All-map, List, Option, String, [], err, false, if◌then◌else◌, none, other_exception, refl,
  some, true, ℕ, ◌++◌, ◌∷◌, ◌≡◌,
}
use benchhelpers.Tpcc.RunLog.{Patterns, scan, process_run_file, read_results}

-- No line of the list matches.
abbrev pub NoMatch {ℓ} : {A : Type ℓ} → (String → Option A) → List String → Type ℓ
NoMatch match = All (λ line. match line ≡ none)

scan-match {ℓ} :
    {A : Type ℓ} (match : String → Option A) (before : List String) (line : String)
    (after : List String) {a : A}
    → NoMatch match before
    → match line ≡ some a
    → scan match (before ++ line ∷ after) ≡ (some a, after)
unfolding scan
scan-match match [] line after miss hit = rw hit
scan-match match (b ∷ before) line after miss hit =
    rw (miss.0) (scan-match match before line after miss.1 hit)

scan-none {ℓ} :
    {A : Type ℓ} (match : String → Option A) (lines : List String)
    → NoMatch match lines
    → scan match lines ≡ (none, [])
unfolding scan
scan-none match [] miss = refl
scan-none match (l ∷ lines) miss = rw (miss.0, scan) (scan-none match lines miss.1)

module _ {F : Type 0} (p : Patterns F) where
  abbrev results_match : String → Option (Unit {0})
  results_match line = if p.is_results_line line then some tt else none

  -- A log in which the scale, the start of the measurement and the line of results come in this
  -- order is read at these three places, whatever lines stand between them.
  pub process_run_file_lem :
      (lead between gap tail : List String) (scale_line start_line results : String) {w ts : ℕ}
      → NoMatch p.scale lead
      → p.scale scale_line ≡ some w
      → NoMatch p.start_measure between
      → p.start_measure start_line ≡ some ts
      → All (λ line. p.is_results_line line ≡ false) gap
      → p.is_results_line results ≡ true
      → process_run_file p (lead ++ scale_line ∷ (between ++ start_line ∷ (gap ++ results ∷ tail)))
        ≡ read_results p w ts tail
  unfolding process_run_file
  process_run_file_lem lead between gap tail a b c no_scale scale no_start start no_results
        results =
      rw
        (
          scan-match p.scale lead a _ no_scale scale,
          scan-match p.start_measure between b _ no_start start,
          scan-match results_match gap c tail (All-map (λ line e. rw e) gap no_results)
              (rw results),
        )
        refl

  -- A log with no scale line is never read to a result: the first loop eats the whole file.
  pub process_run_file-no_scale :
      (lines : List String)
      → NoMatch p.scale lines
      → p.entry "" ≡ none
      → process_run_file p lines ≡ err other_exception
  unfolding process_run_file scan read_results
  process_run_file-no_scale lines miss at_end = rw (scan-none p.scale lines miss) (rw at_end)
