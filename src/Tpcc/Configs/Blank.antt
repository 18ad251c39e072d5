-- ===== src/Tpcc/Configs/Blank.antt =====
-- Hosts files with blank lines, and without.
use benchhelpers.Prelude.{
  All, Bool-cases, Error, List, Option, Result, String, [], ap, arith, ceil_div, ceil_div-pos, err,
  exit, false, inl, inr, length, map, mul-pred, none, ok, refl, show, strip, suc, sum, zero, ℕ, ◌*◌,
  ◌++◌, ◌+◌, ◌-◌, ◌<>◌, ◌<◌, ◌==◌, ◌∷◌, ◌≡◌, ◌≢◌, ◌≤◌,
}
use benchhelpers.Prelude.Dict.{Dict, insert}
use benchhelpers.Tpcc.HostConfig.{HostConfig, host_config, assigned, share}
use benchhelpers.Tpcc.HostConfig.Tiling.{host_config-exit}
use benchhelpers.Tpcc.Configs.{
  Settings, Environment, Values, ConfigFile, is_blank, count_hosts, port_of, write_configs,
  write_file, config_file, generate, ydb_values,
}

write_file-fails :
    {V : Type 0} (made : Result HostConfig) (file : HostConfig → ConfigFile V)
    (rest : List (ConfigFile V) × Option Error)
    → rest.1 ≢ none
    → (write_file made file rest).1 ≢ none
write_file-fails (err e) file rest fails = λ h. cc
write_file-fails (ok config) file rest fails = fails

write_configs-late :
    {V : Type 0} (values : HostConfig → ℕ → ℕ → V) (w n : ℕ) (ports : Dict ℕ) (k : ℕ)
    (before after : List String) (line : String)
    → is_blank line ≡ false
    → n < k + length before
    → (write_configs values w n ports k (before ++ line ∷ after)).1 ≢ none
unfolding write_configs
write_configs-late values w n ports k [] after line full late =
    let out : host_config w n k ≡ err (exit 1) = (host_config-exit w n k).1 (inr (omega arith)) in
    rw (full, out) (λ h. cc)
write_configs-late values w n ports k (b ∷ before) after line full late =
    let port = port_of ports (strip b) in
    let next =
      write_configs-late values w n (insert (strip b) (port + 1) ports) (suc k) before after line
        full (omega arith) in
    let skipped =
      write_configs-late values w n ports (suc k) before after line full (omega arith) in
    elim (Bool-cases (is_blank b)) [
      | inl e ↦ rw e skipped
      | inr e ↦ rw e (write_file-fails (host_config w n k) (config_file values port k) _ next)
    ]

-- A host on a line whose number is above the number of hosts ends the run with an error: so a
-- blank line before the last host does.
pub generate-blank :
    {V : Type 0} (values : HostConfig → ℕ → ℕ → V) (warehouses : ℕ) (before after : List String)
    (line : String)
    → is_blank line ≡ false
    → count_hosts (before ++ line ∷ after) ≤ length before
    → (generate values warehouses (before ++ line ∷ after)).1 ≢ none
unfolding generate
generate-blank values w before after line full late =
    let fails =
      write_configs-late values w (count_hosts (before ++ line ∷ after)) [] 1 before after line full
        (omega arith) in
    elim (Bool-cases (count_hosts (before ++ line ∷ after) == 0)) [
      | inl e ↦ rw e (λ h. cc)
      | inr e ↦ rw e fails
    ]

-- The warehouses of the files.
abbrev pub total_warehouses : List (ConfigFile Values) → ℕ
total_warehouses [] = 0
total_warehouses (f ∷ fs) = f.values.warehouse + total_warehouses fs

abbrev pub AllHosts : List String → Type 0
AllHosts = All (λ line. is_blank line ≡ false)

count_hosts-AllHosts : (lines : List String) → AllHosts lines → count_hosts lines ≡ length lines
unfolding count_hosts
count_hosts-AllHosts [] h = refl
count_hosts-AllHosts (line ∷ lines) (full, h) = rw full (ap suc (count_hosts-AllHosts lines h))

host_config-ok :
    (w n k : ℕ) → 0 < k → k ≤ n → 0 < share w n k → host_config w n k ≡ ok (assigned w n k)
unfolding host_config
host_config-ok w n k low high some_left = ground arith

write_configs-nil :
    {V : Type 0} (values : HostConfig → ℕ → ℕ → V) (w n : ℕ) (ports : Dict ℕ) (k : ℕ)
    → write_configs values w n ports k [] ≡ ([], none)
unfolding write_configs
write_configs-nil values w n ports k = refl

write_configs-cons :
    {V : Type 0} (values : HostConfig → ℕ → ℕ → V) (w n : ℕ) (ports : Dict ℕ) (k : ℕ)
    (line : String) (lines : List String) {config : HostConfig}
    → is_blank line ≡ false
    → host_config w n k ≡ ok config
    → (next : List (ConfigFile V) × Option Error)
    → write_configs values w n
        (insert (strip line) (port_of ports (strip line) + 1) ports)
        (suc k)
        lines
      ≡ next
    → write_configs values w n ports k (line ∷ lines)
      ≡ (config_file values (port_of ports (strip line)) k config ∷ next.0, next.1)
unfolding write_configs
write_configs-cons values w n ports k line lines full made next e = rw (full, made, e) refl

-- The last node takes what the others leave.
share-last : (w n k : ℕ) → k ≡ n → share w n k ≡ w - ceil_div w n * (n - 1)
share-last w n k e = ground arith

share-inner : (w n k : ℕ) → k < n → share w n k ≡ ceil_div w n
share-inner w n k lt = ground arith

add_share : (s t c k w : ℕ) → 0 < k → s ≡ c → t + c * (suc k - 1) ≡ w → s + t + c * (k - 1) ≡ w
add_share s t c k w low same sum =
    let split = mul-pred c k low in
    let e : suc k - 1 ≡ k = omega arith in
    let sum' = rw e at sum in omega (arith, split, sum', same)

-- The files of so many nodes from the `k`-th on
abbrev pub names : (k m : ℕ) → List String
names k zero = []
names k (suc m) = ("config." <> show k <> ".xml") ∷ names (suc k) m

module _ (settings : Settings) (env : Environment) (w n : ℕ) where
  -- The files are those of `m` nodes from `k` on, and complete the warehouses, of which the nodes
  -- before `k` have theirs.
  abbrev Completes : (k m : ℕ) → List (ConfigFile Values) × Option Error → Type 0
  Completes k m r =
      (r.1 ≡ none)
      × (total_warehouses r.0 + ceil_div w n * (k - 1) ≡ w)
      × (map (λ f. f.output) r.0 ≡ names k m)

  write_configs-Completes :
      (ports : Dict ℕ) (k : ℕ) (line : String) (lines : List String)
      → 0 < ceil_div w n
      → ceil_div w n * (n - 1) < w
      → 0 < k
      → k + length lines ≡ n
      → AllHosts (line ∷ lines)
      → Completes k
          (suc (length lines))
          (write_configs (ydb_values settings env) w n ports k (line ∷ lines))
  write_configs-Completes ports k line [] pos left low at_end (full, h) =
      let size = share-last w n k (omega arith) in
      let made = host_config-ok w n k low (omega arith) (omega arith) in
      let step =
        write_configs-cons (ydb_values settings env) w n ports k line [] full made ([], none)
          (write_configs-nil _ w n _ (suc k)) in
      let e : k ≡ n = omega arith in rw step (refl, rw (size, e) (omega arith), refl)
  write_configs-Completes ports k line (l ∷ lines) pos left low at_end (full, h) =
      let size = share-inner w n k (omega arith) in
      let made = host_config-ok w n k low (omega arith) (omega arith) in
      let port = port_of ports (strip line) in
      let (fine, sum, named) =
        write_configs-Completes (insert (strip line) (port + 1) ports) (suc k) l lines pos left
          (omega arith) (omega arith) h in
      let step =
        write_configs-cons (ydb_values settings env) w n ports k line (l ∷ lines) full made _
          refl in
      rw step (
        fine,
        add_share _ _ _ k w low size sum,
        ap (λ fs. ("config." <> show k <> ".xml") ∷ fs) named,
      )

-- With no blank line and enough warehouses, the files config.1.xml to config.n.xml are written for the
-- n lines, each once and in this order, and they share out exactly the warehouses of the run.
pub generate-total :
    (settings : Settings) (env : Environment) (warehouses : ℕ) (line : String) (lines : List String)
    → AllHosts (line ∷ lines)
    → ceil_div warehouses (length (line ∷ lines)) * length lines < warehouses
    → let r = generate (ydb_values settings env) warehouses (line ∷ lines) in
      (r.1 ≡ none)
      × (total_warehouses r.0 ≡ warehouses)
      × (map (λ f. f.output) r.0 ≡ names 1 (length (line ∷ lines)))
unfolding generate
generate-total settings env w line lines h left =
    let count = count_hosts-AllHosts (line ∷ lines) h in
    let fine : (suc (length lines) == 0) ≡ false = ground arith in
    let pos = ceil_div-pos w (suc (length lines)) (omega arith) (omega arith) in
    let e : suc (length lines) - 1 ≡ length lines = omega arith in
    let (good, sum, named) =
      write_configs-Completes settings env w (suc (length lines)) [] 1 line lines pos (rw e left)
        (omega arith) (omega arith) h in
    rw (count, fine) (good, omega arith, named)
