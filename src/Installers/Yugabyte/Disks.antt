-- ===== src/Installers/Yugabyte/Disks.antt =====
-- How several servers of a host share its disks and its cores.
use benchhelpers.Prelude.{
  List, Option, String, [], positive, range, show, some, suc, zero, ℕ, ◌++◌, ◌+◌, ◌-◌, ◌<>◌, ◌∷◌,
}
use benchhelpers.Installers.Yugabyte.{Server}

abbrev pub all_dirs : List Server → List String
all_dirs [] = []
all_dirs (s ∷ rest) = s.dirs ++ all_dirs rest

-- A server's first core and the number of its cores
abbrev pub Part : Type 0
Part = ℕ × ℕ

-- The list of processors that `taskset` takes for at least one core
abbrev pub cpu_list : Part → Option String
cpu_list (first, count) = some (show first <> "-" <> show (first + count - 1))

abbrev pub all_cores : List Part → List ℕ
all_cores [] = []
all_cores ((first, count) ∷ parts) = range first count ++ all_cores parts

abbrev parts_from : (p left start r : ℕ) → List Part
parts_from p zero start r = []
parts_from p (suc left) start r =
    (start, p + positive r) ∷ parts_from p left (start + p + positive r) (r - positive r)
