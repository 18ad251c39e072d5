-- ===== src/Installers/Cockroach/Share.antt =====
-- How the instances of a host share its cores and its memory.
use native.Mathlib.Omega.{div_any}
use native.Mathlib.Nat.{mod-lt, mod-eq_of_lt}
use benchhelpers.Prelude.{
  List, String, [], ap, arith, div-eq-zero, div_bounds, false, length, map, ok, positive,
  positive_le, positive_split, range, range-append, refl, suc, suc_mul, sum, sym, zero, ℕ, ◌%◌, ◌*◌,
  ◌++◌, ◌+◌, ◌-◌, ◌/◌, ◌<◌, ◌==◌, ◌∙◌, ◌∷◌, ◌≡◌, ◌≤◌,
}
use benchhelpers.Installers.Cockroach.{
  next_loop, Config, Loop, Part, parts, per_instance, host_parts,
}

-- The cores of the task set `start-end`
abbrev pub cores_of : Part → List ℕ
cores_of p = range p.start_core (p.end_core + 1 - p.start_core)

abbrev pub all_cores : List Part → List ℕ
all_cores [] = []
all_cores (p ∷ ps) = cores_of p ++ all_cores ps

module _ (p q m : ℕ) where
  parts-cores :
      (s : Loop) (ds : List String)
      → 0 < p
      → s.cores_reminder ≤ length ds
      → all_cores (parts p q m s ds) ≡ range s.start_core (length ds * p + s.cores_reminder)
  unfolding parts
  parts-cores s [] pos le =
      let none_left : 0 * p + s.cores_reminder ≡ 0 = omega arith in rw none_left refl
  parts-cores s (d ∷ ds) pos le =
      let r = s.cores_reminder in
      let size : ℕ = p + positive r in
      let left : ℕ = length ds * p + (r - positive r) in
      let width : s.start_core + p - 1 + positive r + 1 - s.start_core ≡ p + positive r =
        omega arith in
      let first : s.start_core + p - 1 + positive r + 1 ≡ s.start_core + (p + positive r) =
        omega arith in
      let total : size + left ≡ suc (length ds) * p + r =
        omega (arith, positive_split r, suc_mul (length ds) p) in
      let ih = parts-cores (next_loop p q m s) ds pos (positive_le r (length ds) le) in
      ap (λ w. range s.start_core w ++ all_cores (parts p q m (next_loop p q m s) ds)) width
      ∙ ap (λ xs. range s.start_core size ++ xs) (ih ∙ ap (λ i. range i left) first)
      ∙ range-append s.start_core size left
      ∙ ap (range s.start_core) total

  parts-cache :
      (s : Loop) (ds : List String)
      → s.cache_reminder ≤ length ds
      → sum (map (λ x. x.cache) (parts p q m s ds)) ≡ length ds * q + s.cache_reminder
  unfolding parts
  parts-cache s [] le = omega arith
  parts-cache s (d ∷ ds) le =
      let r = s.cache_reminder in
      let ih = parts-cache (next_loop p q m s) ds (positive_le r (length ds) le) in
      omega (arith, ih, positive_split r, suc_mul (length ds) q)

  parts-sql_mem :
      (s : Loop) (ds : List String)
      → s.sql_mem_reminder ≤ length ds
      → sum (map (λ x. x.sql_mem) (parts p q m s ds)) ≡ length ds * m + s.sql_mem_reminder
  unfolding parts
  parts-sql_mem s [] le = omega arith
  parts-sql_mem s (d ∷ ds) le =
      let r = s.sql_mem_reminder in
      let ih = parts-sql_mem (next_loop p q m s) ds (positive_le r (length ds) le) in
      omega (arith, ih, positive_split r, suc_mul (length ds) m)

some_share : (n k q : ℕ) → k ≤ n → n < k * q + k → 0 < q
some_share n k zero le lt = absurd (omega arith)
some_share n k (suc q) le lt = omega arith

-- What is shared among at most as many disks is shared without a rest, and else exceeded.
share_all : (n k : ℕ) → 0 < k → k ≤ n → k * per_instance n k + n % k ≡ n
share_all n k pos le =
    let bounds = div_bounds n k pos in
    let some_each : 0 < n / k = some_share n k (n / k) le bounds.1 in
    let same : per_instance n k ≡ n / k = omega arith in rw same (div_any n k)

share_too_much : (n k : ℕ) → 0 < k → n < k → k * per_instance n k + n % k ≡ k + n
share_too_much n k pos lt =
    let none_each : n / k ≡ 0 = sym (div-eq-zero n k lt) in
    let one_each : per_instance n k ≡ 1 = rw none_each refl in
    rw (one_each, mod-eq_of_lt lt) (omega arith)

reminder_le : (n k : ℕ) → 0 < k → n % k ≤ k
reminder_le n k pos = let lt = mod-lt n pos in omega arith

-- The parts of a host with disks
module _ (c : Config) (pos : 0 < length c.disks) where
  abbrev count : ℕ
  count = length c.disks

  abbrev begin : Loop
  begin = record {
    port = c.listen_port;
    http_port = c.http_port;
    start_core = 0;
    cores_reminder = c.cores % count;
    cache_reminder = c.cache_size_gb % count;
    sql_mem_reminder = c.sql_memory_size_gb % count;
  }

  abbrev pub the_parts : List Part
  the_parts =
      parts (per_instance c.cores count) (per_instance c.cache_size_gb count)
        (per_instance c.sql_memory_size_gb count) begin c.disks

  found : host_parts c ≡ ok the_parts
  unfolding host_parts
  found = let some_disks : (count == 0) ≡ false = ground arith in rw some_disks refl

  the_cores : all_cores the_parts ≡ range 0 (count * per_instance c.cores count + c.cores % count)
  the_cores = parts-cores _ _ _ begin c.disks (omega arith) (reminder_le c.cores count pos)

  -- On a host with at least as many cores, gigabytes of cache and gigabytes of SQL memory as there are
  -- disks, each core belongs to exactly one instance, and the instances' caches and memories add up to
  -- those of the host.
  pub host_parts-shared :
      count ≤ c.cores
      → count ≤ c.cache_size_gb
      → count ≤ c.sql_memory_size_gb
      → (ps : List Part) × (host_parts c ≡ ok ps)
        × (all_cores ps ≡ range 0 c.cores)
        × (sum (map (λ p. p.cache) ps) ≡ c.cache_size_gb)
        × (sum (map (λ p. p.sql_mem) ps) ≡ c.sql_memory_size_gb)
  host_parts-shared enough_cores enough_cache enough_memory = (
    the_parts,
    found,
    the_cores ∙ ap (range 0) (share_all c.cores count pos enough_cores),
    parts-cache _ _ _ begin c.disks (reminder_le c.cache_size_gb count pos)
        ∙ share_all c.cache_size_gb count pos enough_cache,
    parts-sql_mem _ _ _ begin c.disks (reminder_le c.sql_memory_size_gb count pos)
        ∙ share_all c.sql_memory_size_gb count pos enough_memory,
  )

  -- On a host with fewer cores than disks, the instances are bound to as many cores as there are
  -- disks and cores together, of which the last do not exist.
  pub host_parts-overrun :
      c.cores < count
      → (ps : List Part) × (host_parts c ≡ ok ps) × (all_cores ps ≡ range 0 (count + c.cores))
  host_parts-overrun few =
      (the_parts, found, the_cores ∙ ap (range 0) (share_too_much c.cores count pos few))
