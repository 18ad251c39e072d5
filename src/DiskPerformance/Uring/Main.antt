-- ===== src/DiskPerformance/Uring/Main.antt =====
-- `print_table`, `print_csv` and `main` of disk_performance/aio_vs_uring/aggregate.py. What the file
-- system answers whether a figure can be saved, and whether matplotlib can be imported are arguments.
pub mod Codes
use benchhelpers.Prelude.{
  Bool, List, Option, Result, String, [], chars, err, has_char, if◌then◌else◌, join, length, ljust,
  ltb, map, max, none, not, ok, other_exception, show, some, suc, take, zero, ℕ, ◌++◌, ◌-◌, ◌<>◌,
  ◌>>=◌, ◌||◌, ◌∷◌,
}
use benchhelpers.DiskPerformance.Uring.{
  Json, Read, Attempt, parsed, run_failed, unparsed, Percentile, Row,
}
use benchhelpers.DiskPerformance.Uring.Collect.{Collected, collect_rows}
use benchhelpers.DiskPerformance.Uring.Points.{MedianRow, pick_median_run_rows}
use benchhelpers.DiskPerformance.Uring.Best.{MaxRow, build_max_iops_rows}
use benchhelpers.DiskPerformance.Uring.Plots.{
  Figure, has_lat, plot_speed_by_inflight, plot_iops_by_inflight, plot_latency_by_inflight,
}
use benchhelpers.DiskPerformance.Uring.Plots.Bars.{BarFigure, plot_latency_percentile_bars}

-- A column: its name, and `str(row[name])`
abbrev pub Column {ℓ} : Type ℓ → Type ℓ
Column R = String × (R → String)

abbrev pub width {ℓ} : {R : Type ℓ} → Column R → ℕ → List R → ℕ
width column n [] = n
width column n (row ∷ rows) = width column (max n (chars (column.1 row))) rows

abbrev pub dashes : ℕ → String
dashes zero = ""
dashes (suc n) = "-" <> dashes n

module _ {ℓ} {R : Type ℓ} (columns : List (Column R)) where
  abbrev pub table_line : List R → (Column R → String) → String
  table_line rows text = join "  " (map (λ c. ljust (width c (chars c.0) rows) (text c)) columns)

  unfoldable pub print_table : List R → List String
  print_table [] = "No JSON result files found." ∷ []
  print_table (row ∷ rows) =
      table_line (row ∷ rows) (λ c. c.0)
      ∷ join "  " (map (λ c. dashes (width c (chars c.0) (row ∷ rows))) columns)
      ∷ map (λ r. table_line (row ∷ rows) (λ c. c.1 r)) (row ∷ rows)

  -- A field of `csv`'s default dialect is quoted where it holds a comma, a quote or a line's end.
  abbrev pub doubled : String → String
  doubled String.[] = String.[]
  doubled (String.◌∷◌ c s) =
      let rest = doubled s in
      if has_char 34 (String.◌∷◌ c String.[])
      then String.◌∷◌ c (String.◌∷◌ c rest)
      else String.◌∷◌ c rest

  abbrev pub csv_field : String → String
  csv_field s =
      if has_char 44 s || has_char 34 s || has_char 13 s || has_char 10 s
      then "\"" <> doubled s <> "\""
      else s

  unfoldable pub print_csv : List R → List String
  print_csv rows =
      join "," (map (λ c. csv_field c.0) columns)
      ∷ map (λ r. join "," (map (λ c. csv_field (c.1 r)) columns)) rows

abbrev pub pct_column : String → Percentile → Column MedianRow
pct_column name k = (name, λ m. show (m.row.percentile k))

-- `fieldnames`
abbrev pub fieldnames : Bool → List (Column MedianRow)
fieldnames with_lat =
    ("Engine", λ m. m.row.engine)
    ∷ ("QueueDepth", λ m. show m.row.queue_depth)
    ∷ ("Workload", λ m. m.row.workload)
    ∷ ("MedianRun", λ m. show m.median_run)
    ∷ ("RunsInGroup", λ m. show m.runs_in_group)
    ∷ ("Speed", λ m. m.row.speed)
    ∷ ("IOPS", λ m. show m.row.iops)
    ∷ pct_column "ClatP50_us" Percentile.clat50
    ∷ pct_column "ClatP90_us" Percentile.clat90
    ∷ pct_column "ClatP95_us" Percentile.clat95
    ∷ pct_column "ClatP99_us" Percentile.clat99
    ∷ pct_column "ClatP99_9_us" Percentile.clat99_9
    ∷ (if with_lat
        then pct_column "LatP50_us" Percentile.lat50
          ∷ pct_column "LatP90_us" Percentile.lat90
          ∷ pct_column "LatP95_us" Percentile.lat95
          ∷ pct_column "LatP99_us" Percentile.lat99
          ∷ pct_column "LatP99_9_us" Percentile.lat99_9
          ∷ []
        else [])

abbrev pub max_columns : List (Column MaxRow)
max_columns =
    ("Engine", λ m. m.engine)
    ∷ ("QueueDepth", λ m. show m.queue_depth)
    ∷ ("KIOPS", λ m. show m.kiops)
    ∷ ("Speed", λ m. m.speed)
    ∷ []

pub record Arguments : Type 0 where
  pub results_dir : String
  pub csv : Bool
  pub plot : Bool
  pub prefix : String

-- What `main` writes, draws and returns
pub record Outcome : Type 0 where
  pub code : ℕ
  pub out : List String
  pub messages : List String
  pub figures : List Figure
  pub bar_figures : List BarFigure

abbrev pub failed : List String → Outcome
failed messages = record { code = 1; out = []; messages = messages; figures = []; bar_figures = [] }

-- The first twenty texts, and how many more there are
abbrev pub warnings : List String → List String
warnings [] = []
warnings (text ∷ texts) =
    let skipped = text ∷ texts in
    ("warning: skipped " <> show (length skipped) <> " failed fio run file(s)")
      ∷ map (λ msg. "warning: " <> msg) (take 20 skipped)
    ++ (if ltb 20 (length skipped)
        then ("warning: ... plus " <> show (length skipped - 20) <> " more failed fio run file(s)")
          ∷ []
        else [])

abbrev pub tables : Arguments → List MedianRow → List String
tables args rows =
    let columns = fieldnames (has_lat (map (λ m. m.row) rows)) in
    if args.csv
    then print_csv columns rows
    else print_table columns rows
      ++ ""
        ∷ "Max IOPS"
        ∷ "--------"
        ∷ print_table max_columns (build_max_iops_rows (map (λ m. m.row) rows))

abbrev pub drawn : List (Option Figure) → List Figure
drawn [] = []
drawn (none ∷ plots) = drawn plots
drawn (some figure ∷ plots) = figure ∷ drawn plots

abbrev pub plot_messages : List String → List String
plot_messages [] = "plot: no data to plot" ∷ []
plot_messages (path ∷ paths) = map (λ p. "plot: " <> p) (path ∷ paths)

-- `fig.savefig` of each figure; its `OSError` is not caught.
abbrev pub saved : (String → Bool) → List String → Result (Unit {0})
saved can_save [] = ok _
saved can_save (path ∷ paths) =
    let rest = saved can_save paths in if can_save path then rest else err other_exception

module _ (has_matplotlib : Bool) (can_save can_copy : String → Bool) (args : Arguments) where
  abbrev pub plotted : List Row → List String → List String → Result Outcome
  plotted all_rows messages out =
      let dir = args.results_dir in
      let figures = drawn (
        plot_iops_by_inflight all_rows dir args.prefix none
        ∷ plot_iops_by_inflight all_rows dir args.prefix (some 8)
        ∷ plot_speed_by_inflight all_rows dir args.prefix
        ∷ plot_latency_by_inflight all_rows dir args.prefix none
        ∷ plot_latency_by_inflight all_rows dir args.prefix (some 32)
        ∷ plot_latency_by_inflight all_rows dir args.prefix (some 16)
        ∷ []) in
      let bars = plot_latency_percentile_bars all_rows dir args.prefix can_copy in
      if not args.plot
      then ok (record { code = 0; out = out; messages = messages; figures = []; bar_figures = [] })
      else if has_matplotlib
      then (saved can_save (map (λ f. f.path) figures ++ map (λ f. f.path) bars.0) >>= λ all.
          ok (record {
            code = 0;
            out = out ++ plot_messages (map (λ f. f.path) figures ++ bars.1);
            messages = messages;
            figures = figures;
            bar_figures = bars.0;
          }))
      else ok (record {
        code = 1;
        out = out;
        messages = messages ++ "plotting requires matplotlib (pip install matplotlib)" ∷ [];
        figures = [];
        bar_figures = [];
      })

  abbrev pub report : Attempt Collected → Result Outcome
  report (unparsed text) = ok (failed (("failed to parse results: " <> text) ∷ []))
  report (run_failed text) = ok (failed (("failed to parse results: " <> text) ∷ []))
  report (parsed ([], skipped)) =
      ok (failed (warnings skipped ++ "no successful fio JSON result files found" ∷ []))
  report (parsed (row ∷ rows, skipped)) = pick_median_run_rows (row ∷ rows) >>= λ picked.
      plotted (row ∷ rows) (warnings skipped) (tables args picked)

  unfoldable pub main : Json → (String → Read String) → Bool → Read (List String) → Result Outcome
  main load read is_dir listing =
      if is_dir
      then report (collect_rows load read args.results_dir listing)
      else ok (failed (("results dir does not exist: " <> args.results_dir) ∷ []))
