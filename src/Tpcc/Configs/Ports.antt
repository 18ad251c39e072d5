-- ===== src/Tpcc/Configs/Ports.antt =====
-- The monitoring ports of the instances.
use benchhelpers.Prelude.{
  Bool, Bool-cases, Error, List, Option, Result, String, [], ap, arith, eq_iff, err, false,
  if◌then◌else◌, inl, inr, map, none, ok, refl, some, str_eq, strip, suc, true, ℕ, ◌+◌, ◌==◌, ◌∙◌,
  ◌∷◌, ◌≡◌,
}
use benchhelpers.Prelude.Dict.{Dict, lookup, insert, lookup-insert, lookup-nil}
use benchhelpers.Tpcc.HostConfig.{HostConfig, host_config}
use benchhelpers.Tpcc.Configs.{
  Settings, Environment, Values, ConfigFile, is_blank, count_hosts, port_or, port_of, write_configs,
  write_file, config_file, generate, ydb_values,
}

-- How often a host stands among those before.
abbrev pub occurrences : String → List String → ℕ
occurrences host [] = 0
occurrences host (h ∷ hs) =
    let rest = occurrences host hs in if str_eq h host then suc rest else rest

-- The port of each host: 8080 and as many as it has instances before.
abbrev pub expected_ports : List String → List String → List ℕ
expected_ports before [] = []
expected_ports before (line ∷ lines) =
    let skipped = expected_ports before lines in
    let next = expected_ports (strip line ∷ before) lines in
    if is_blank line then skipped else (8080 + occurrences (strip line) before) ∷ next

abbrev pub ports_of : List (ConfigFile Values) → List ℕ
ports_of = map (λ f. f.values.mport)

-- The dictionary counts the instances of every host.
abbrev CountsHosts : Dict ℕ → List String → Type 0
CountsHosts ports before = (h : String) → port_of ports h ≡ 8080 + occurrences h before

port_or-if :
    (b : Bool) (port : ℕ) (o : Option ℕ)
    → port_or (if b then some port else o) ≡ (if b then port else port_or o)
port_or-if true port o = refl
port_or-if false port o = refl

port_of-insert :
    (ports : Dict ℕ) (host h : String) (port : ℕ)
    → port_of (insert host port ports) h ≡ (if str_eq host h then port else port_of ports h)
port_of-insert ports host h port =
    ap port_or (lookup-insert host h port ports) ∙ port_or-if (str_eq host h) port (lookup h ports)

CountsHosts-insert :
    (ports : Dict ℕ) (before : List String) (host : String)
    → CountsHosts ports before
    → CountsHosts (insert host (port_of ports host + 1) ports) (host ∷ before)
CountsHosts-insert ports before host counts h =
    port_of-insert ports host h (port_of ports host + 1) ∙ bumped (str_eq host h) refl
  where
    bumped :
        (b : Bool)
        → str_eq host h ≡ b
        → (if b then port_of ports host + 1 else port_of ports h)
          ≡ 8080 + (if b then suc (occurrences h before) else occurrences h before)
    bumped true same =
        let p : host ≡ h = (eq_iff host h).0 same in
        let e : port_of ports host ≡ 8080 + occurrences h before =
          ap (port_of ports) p ∙ counts h in
        omega (arith, e)
    bumped false other = counts h

module _ (settings : Settings) (env : Environment) (w n : ℕ) where
  abbrev HasPorts : List String → List String → List (ConfigFile Values) × Option Error → Type 0
  HasPorts before lines r = r.1 ≡ none → ports_of r.0 ≡ expected_ports before lines

  write_file-HasPorts :
      (before lines : List String) (host : String) (port k : ℕ) (made : Result HostConfig)
      (rest : List (ConfigFile Values) × Option Error)
      → port ≡ 8080 + occurrences host before
      → HasPorts (host ∷ before) lines rest
      → (write_file made (config_file (ydb_values settings env) port k) rest).1 ≡ none
      → ports_of (write_file made (config_file (ydb_values settings env) port k) rest).0
        ≡ (8080 + occurrences host before) ∷ expected_ports (host ∷ before) lines
  write_file-HasPorts before lines host port k (err e) rest same has fine = cc
  write_file-HasPorts before lines host port k (ok config) rest same has fine =
      ap (λ p. p ∷ ports_of rest.0) same
      ∙ ap (λ ps. (8080 + occurrences host before) ∷ ps) (has fine)

  write_configs-HasPorts :
      (ports : Dict ℕ) (before : List String) (k : ℕ) (lines : List String)
      → CountsHosts ports before
      → HasPorts before lines (write_configs (ydb_values settings env) w n ports k lines)
  unfolding write_configs
  write_configs-HasPorts ports before k [] counts = λ fine. refl
  write_configs-HasPorts ports before k (line ∷ lines) counts =
      let skipped = write_configs-HasPorts ports before (suc k) lines counts in
      let next =
        write_configs-HasPorts (insert (strip line) (port_of ports (strip line) + 1) ports)
          (strip line ∷ before) (suc k) lines
          (CountsHosts-insert ports before (strip line) counts) in
      let written =
        write_file-HasPorts before lines (strip line) _ k (host_config w n k) _
          (counts (strip line)) next in
      choose (is_blank line) _ _ _ _ skipped written
    where
      choose :
          (b : Bool) (r s : List (ConfigFile Values) × Option Error) (ps qs : List ℕ)
          → (r.1 ≡ none → ports_of r.0 ≡ ps)
          → (s.1 ≡ none → ports_of s.0 ≡ qs)
          → (if b then r else s).1 ≡ none
          → ports_of (if b then r else s).0 ≡ (if b then ps else qs)
      choose true r s ps qs f g = f
      choose false r s ps qs f g = g

-- If the run ends without an error, each instance has the port 8080 raised by the number of
-- instances of the same host before it.
pub generate-ports :
    (settings : Settings) (env : Environment) (warehouses : ℕ) (lines : List String)
    → (generate (ydb_values settings env) warehouses lines).1 ≡ none
    → ports_of (generate (ydb_values settings env) warehouses lines).0 ≡ expected_ports [] lines
unfolding generate
generate-ports settings env w lines fine = elim (Bool-cases (count_hosts lines == 0)) [
  | inl e ↦ let h = rw e at fine in cc
  | inr e ↦ rw e (
      write_configs-HasPorts settings env w (count_hosts lines) [] [] 1 lines
        (λ h. rw (lookup-nil h) refl) (rw e at fine))
]
