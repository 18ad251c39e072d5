-- ===== src/DiskPerformance.antt =====
-- disk_performance/aggregate.py: what is read from the output of fio. `json.loads` is the argument
-- `load`. Numbers are exact: throughputs in KiB/s and latencies in ns are whole, and operations per
-- second are counted in millionths, as fio prints them.
pub mod Payload
pub mod Stats
pub mod Runs
pub mod Slug
pub mod Tables
pub mod Figures
pub mod Uring
mod Tests
use mathlib.Core.Option
use benchhelpers.Prelude.{
  List, Option, Result, String, [], drop_chars, err, find, if◌then◌else◌, key_error, length, ltb,
  none, ok, rfind, some, take_chars, value_error, ℕ, ◌*◌, ◌+◌, ◌-◌, ◌/◌, ◌==◌, ◌>>=◌, ◌>>◌, ◌∷◌,
}
use benchhelpers.Prelude.Dict.{Dict, lookup}

-- A job's object for `read` or `write`; `clat_ns` and its `percentile` may be absent.
pub record Direction : Type 0 where
  pub bw : Option ℕ
  pub iops : Option ℕ
  pub clat_ns : Option (Option (Dict ℕ))

abbrev pub Fio : Type 0
Fio = Option (List (Dict Direction))

pub record Sample : Type 0 where
  pub bw : ℕ
  pub iops : ℕ
  pub p50 : Option ℕ
  pub p90 : Option ℕ
  pub p95 : Option ℕ
  pub p99 : Option ℕ
  pub p99_9 : Option ℕ

-- `bw`, `iops` and `percentile_sums`
pub record Sums : Type 0 where
  pub bw : ℕ
  pub iops : ℕ
  pub p50 : ℕ
  pub p90 : ℕ
  pub p95 : ℕ
  pub p99 : ℕ
  pub p99_9 : ℕ

-- The text from the first brace to the last.
unfoldable pub payload : String → Result String
payload raw = between (find 123 raw) (rfind 125 raw)
  where
    between : Option ℕ → Option ℕ → Result String
    between (some first) (some last) =
        if ltb last first
        then err value_error
        else ok (take_chars (last + 1 - first) (drop_chars first raw))
    between (some first) none = err value_error
    between none last = err value_error

-- `d[key]`
abbrev pub required {ℓ} : {V : Type ℓ} → Option V → Result V
required none = err key_error
required (some v) = ok v

-- `.get('clat_ns', {}).get('percentile', {})`
abbrev pub percentile : Direction → Dict ℕ
percentile direction = elim direction.clat_ns [ some (some d) ↦ d | some none ↦ [] | none ↦ [] ]

abbrev pub get_or_zero : String → Dict ℕ → ℕ
get_or_zero key d = elim (lookup key d) [ some n ↦ n | none ↦ 0 ]

unfoldable pub add_job : String → Sums → Dict Direction → Result Sums
add_job test_type sums job = do
  direction ← required (lookup test_type job)
  bw ← required direction.bw
  iops ← required direction.iops
  let d = percentile direction in
      ok (record {
        bw = sums.bw + bw;
        iops = sums.iops + iops;
        p50 = sums.p50 + get_or_zero "50.000000" d;
        p90 = sums.p90 + get_or_zero "90.000000" d;
        p95 = sums.p95 + get_or_zero "95.000000" d;
        p99 = sums.p99 + get_or_zero "99.000000" d;
        p99_9 = sums.p99_9 + get_or_zero "99.900000" d;
      })

unfoldable pub add_jobs : String → Sums → List (Dict Direction) → Result Sums
add_jobs test_type sums [] = ok sums
add_jobs test_type sums (job ∷ jobs) =
    add_job test_type sums job >>= λ more. add_jobs test_type more jobs

abbrev pub no_sums : Sums
no_sums = record { bw = 0; iops = 0; p50 = 0; p90 = 0; p95 = 0; p99 = 0; p99_9 = 0 }

-- The percentiles are kept for a single job.
unfoldable pub sample_of : ℕ → Sums → Sample
sample_of num_jobs sums =
    let kept : ℕ → Option ℕ = λ n. if num_jobs == 1 then some (n / 1000) else none in
    record {
      bw = sums.bw / 1024;
      iops = sums.iops / (1000 * 1000000);
      p50 = kept sums.p50;
      p90 = kept sums.p90;
      p95 = kept sums.p95;
      p99 = kept sums.p99;
      p99_9 = kept sums.p99_9;
    }

abbrev pub loaded : Option Fio → Result Fio
loaded none = err value_error
loaded (some fio) = ok fio

unfoldable pub parse_result : (String → Option Fio) → String → String → Result Sample
parse_result load raw test_type = do
  text ← payload raw
  fio ← loaded (load text)
  jobs ← required fio
  sums ← add_jobs test_type no_sums jobs
  ok (sample_of (length jobs) sums)
