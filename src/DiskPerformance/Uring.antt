-- ===== src/DiskPerformance/Uring.antt =====
-- disk_performance/aio_vs_uring/aggregate.py: what is read from one output of fio. `json.loads` is the
-- argument `load`. A `float` that is not negative is a whole number of the least
-- positive `float`, and the result of an operation is that number rounded by the argument `rounded`.
pub mod Names
pub mod Averages
pub mod Collect
pub mod Points
pub mod Best
pub mod Series
pub mod Plots
pub mod Main
mod Tests
use benchhelpers.Prelude.{
  Bool, List, Option, String, [], drop_chars, false, find, if◌then◌else◌, join, ltb, map, none,
  rfind, show, some, take_chars, true, ℕ, ◌%◌, ◌*◌, ◌+◌, ◌-◌, ◌/◌, ◌<>◌, ◌==◌, ◌∷◌,
}
use benchhelpers.Prelude.Dict.{Dict, lookup}
use benchhelpers.Prelude.Int.{ℤ, pos, negsuc}

-- A job's object for `read` or `write`; `clat_ns`, `lat_ns` and their `percentile` may be absent.
pub record Direction : Type 0 where
  pub bw_bytes : Option ℕ
  pub iops : Option ℕ
  pub clat_ns : Option (Option (Dict ℕ))
  pub lat_ns : Option (Option (Dict ℕ))

pub record Job : Type 0 where
  pub error : Option ℤ
  pub directions : Dict Direction

-- `jobs` may be absent.
abbrev pub Fio : Type 0
Fio = Option (List Job)

-- What `json.loads` comes to: an object, or a `JSONDecodeError` with its text
pub data Loaded : Type 0 where
  json : Fio → Loaded
  malformed : String → Loaded

-- `json.loads`, the number of the least positive `float` in 1, and the nearest `float` of a quotient
pub record Json : Type 0 where
  pub loads : String → Loaded
  pub unit : ℕ
  pub rounded : ℕ → ℕ → ℕ

-- Reading a file or a directory, or the `OSError` or `UnicodeDecodeError` with its text
pub data Read {ℓ} (R : Type ℓ) : Type ℓ where
  contents : R → Read R
  unreadable : String → Read R

-- A call that returns, or raises `FioRunFailedError`, or another `ValueError` or an `OSError`, with the
-- text
pub data Attempt {ℓ} (R : Type ℓ) : Type ℓ where
  parsed : R → Attempt R
  run_failed unparsed : String → Attempt R

abbrev pub after {ℓ κ} : {R : Type ℓ} {S : Type κ} → Attempt R → (R → Attempt S) → Attempt S
after (parsed r) next = next r
after (run_failed message) next = run_failed message
after (unparsed message) next = unparsed message

-- The columns of percentiles, in the order of `CLAT_PERCENTILE_KEYS` and `LAT_PERCENTILE_KEYS`
pub data Percentile : Type 0 where
  clat50 clat90 clat95 clat99 clat99_9 lat50 lat90 lat95 lat99 lat99_9 : Percentile

abbrev pub fio_key : Percentile → String
fio_key Percentile.clat50 = "50.000000"
fio_key Percentile.clat90 = "90.000000"
fio_key Percentile.clat95 = "95.000000"
fio_key Percentile.clat99 = "99.000000"
fio_key Percentile.clat99_9 = "99.900000"
fio_key Percentile.lat50 = "50.000000"
fio_key Percentile.lat90 = "90.000000"
fio_key Percentile.lat95 = "95.000000"
fio_key Percentile.lat99 = "99.000000"
fio_key Percentile.lat99_9 = "99.900000"

abbrev pub is_clat : Percentile → Bool
is_clat Percentile.clat50 = true
is_clat Percentile.clat90 = true
is_clat Percentile.clat95 = true
is_clat Percentile.clat99 = true
is_clat Percentile.clat99_9 = true
is_clat _ = false

pub record Row : Type 0 where
  pub engine : String
  pub queue_depth : ℕ
  pub workload : String
  pub run : ℕ
  pub speed : String
  pub speed_bps : ℕ
  pub iops : ℕ
  pub percentile : Percentile → ℕ

abbrev between : String → String → Option ℕ → Option ℕ → Attempt String
between path raw (some first) (some last) =
    if ltb last first
    then unparsed (path <> ": JSON object boundaries not found")
    else parsed (take_chars (last + 1 - first) (drop_chars first raw))
between path raw (some first) none = unparsed (path <> ": JSON object boundaries not found")
between path raw none last = unparsed (path <> ": JSON object boundaries not found")

abbrev or_malformed : String → Loaded → Attempt Fio
or_malformed path (json fio) = parsed fio
or_malformed path (malformed reason) =
    unparsed (path <> ": malformed JSON payload (" <> reason <> ")")

abbrev pub or_unreadable {ℓ} : {R : Type ℓ} → Read R → Attempt R
or_unreadable (contents r) = parsed r
or_unreadable (unreadable message) = unparsed message

unfoldable pub load_fio_json : Json → (String → Read String) → String → Attempt Fio
load_fio_json load read path = after (or_unreadable (read path)) (λ raw.
    after (between path raw (find 123 raw) (rfind 125 raw))
      (λ text. or_malformed path (load.loads text)))

-- `f"{n / d:.2f}"` of the exact quotient, whose ties go to the even digit
abbrev pub hundredths : ℕ → ℕ → ℕ
hundredths n d =
    let q = 100 * n / d in
    let r = 2 * (100 * n % d) in if ltb r d then q else if ltb d r then q + 1 else q + q % 2

abbrev pub two_decimals : ℕ → ℕ → String
two_decimals n d =
    let h = hundredths n d in
    show (h / 100) <> "." <> (if ltb (h % 100) 10 then "0" else "") <> show (h % 100)

-- The value over `d`, in the first unit that leaves less than 1024, or in the last
abbrev pub scaled : ℕ → ℕ → List String → String
scaled value d [] = two_decimals value 1 <> " B/s"
scaled value d (unit ∷ []) = two_decimals value d <> " " <> unit
scaled value d (unit ∷ next ∷ units) =
    let larger = scaled value (1024 * d) (next ∷ units) in
    if ltb value (1024 * d) then two_decimals value d <> " " <> unit else larger

unfoldable pub human_bytes_per_second : ℕ → String
human_bytes_per_second value = scaled value 1 ("B/s" ∷ "KiB/s" ∷ "MiB/s" ∷ "GiB/s" ∷ "TiB/s" ∷ [])

abbrev pub is_zero : ℤ → Bool
is_zero (pos n) = n == 0
is_zero (negsuc n) = false

abbrev pub error_code : Job → ℤ
error_code job = elim job.error [ none ↦ pos 0 | some code ↦ code ]

unfoldable pub job_errors : List Job → List ℤ
job_errors [] = []
job_errors (job ∷ jobs) =
    let rest = job_errors jobs in if is_zero (error_code job) then rest else error_code job ∷ rest

abbrev pub show_int : ℤ → String
show_int (pos n) = show n
show_int (negsuc n) = "-" <> show (n + 1)

-- The sums over the jobs, as `float`s
pub record Totals : Type 0 where
  pub bw_bytes : ℕ
  pub iops : ℕ
  pub pct_sum : Percentile → ℕ
  pub pct_count : Percentile → ℕ

abbrev pub no_totals : Totals
no_totals = record { bw_bytes = 0; iops = 0; pct_sum = λ k. 0; pct_count = λ k. 0 }

-- `job.get(workload, {})`
abbrev pub direction_of : String → Job → Direction
direction_of workload job = elim (lookup workload job.directions) [
  | none ↦ record { bw_bytes = none; iops = none; clat_ns = none; lat_ns = none }
  | some d ↦ d
]

abbrev pub or_zero : Option ℕ → ℕ
or_zero none = 0
or_zero (some n) = n

-- `.get("percentile", {})` of an object that may be absent
abbrev pub percentiles : Option (Option (Dict ℕ)) → Dict ℕ
percentiles (some (some d)) = d
percentiles (some none) = []
percentiles none = []

abbrev pub value_ns : Direction → Percentile → Option ℕ
value_ns d k = lookup (fio_key k) (percentiles (if is_clat k then d.clat_ns else d.lat_ns))

abbrev pub is_some : Option ℕ → ℕ
is_some none = 0
is_some (some n) = 1

module _ (load : Json) where
  -- `x += y` of `float`s
  abbrev pub plus : ℕ → ℕ → ℕ
  plus x y = load.rounded (x + y) 1

  -- `pct_sum[key] += float(val_ns) / 1000.0`
  abbrev pub plus_us : ℕ → Option ℕ → ℕ
  plus_us x none = x
  plus_us x (some val_ns) = plus x (load.rounded (load.rounded (val_ns * load.unit) 1) 1000)

  -- `iops` is a number of the least `float` already; `bw_bytes` and the percentiles are whole.
  unfoldable pub add_jobs : String → Totals → List Job → Totals
  add_jobs workload t [] = t
  add_jobs workload t (job ∷ jobs) =
      let d = direction_of workload job in
      add_jobs workload
        (record {
          bw_bytes = plus t.bw_bytes (load.rounded (or_zero d.bw_bytes * load.unit) 1);
          iops = plus t.iops (or_zero d.iops);
          pct_sum = λ k. plus_us (t.pct_sum k) (value_ns d k);
          pct_count = λ k. t.pct_count k + is_some (value_ns d k);
        })
        jobs

  -- `int(x)`, with `unit` positive
  abbrev pub truncated : ℕ → ℕ
  truncated x = x / load.unit

  abbrev pub row_of : String → ℕ → String → ℕ → Totals → Row
  row_of engine queue_depth workload run_index t = record {
    engine = engine;
    queue_depth = queue_depth;
    workload = workload;
    run = run_index;
    speed = human_bytes_per_second (truncated t.bw_bytes);
    speed_bps = truncated t.bw_bytes;
    iops = truncated t.iops;
    percentile = λ k.
        if t.pct_count k == 0 then 0 else truncated (load.rounded (t.pct_sum k) (t.pct_count k));
  }

abbrev pub error_message : String → List ℤ → String
error_message path codes =
    path <> ": fio reported non-zero job error(s): [" <> join ", " (map show_int codes) <> "]"

abbrev pub checked_jobs : String → List Job → List ℤ → Attempt (List Job)
checked_jobs path jobs [] = parsed jobs
checked_jobs path jobs (code ∷ codes) = run_failed (error_message path (code ∷ codes))

abbrev pub some_jobs : String → Fio → Attempt (List Job)
some_jobs path (some (job ∷ jobs)) = parsed (job ∷ jobs)
some_jobs path (some []) = unparsed (path <> ": no jobs in fio output")
some_jobs path none = unparsed (path <> ": no jobs in fio output")

unfoldable pub parse_one_result :
    Json → (String → Read String) → String → String → ℕ → String → ℕ → Attempt Row
parse_one_result load read path engine queue_depth workload run_index =
    after (load_fio_json load read path) (λ fio. after (some_jobs path fio) (λ jobs.
      after (checked_jobs path jobs (job_errors jobs)) (λ good. parsed (
        row_of load engine queue_depth workload run_index
          (add_jobs load workload no_totals good)))))
