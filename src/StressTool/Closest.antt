-- ===== src/StressTool/Closest.antt =====
-- The run that the latency table shows is the closest to the median.
use benchhelpers.Prelude.{
  All, Bool-cases, List, Option, Option-cases, String, [], ap, arith, false, get_elem?,
  if◌then◌else◌, inl, inr, ltb, ltb→lt, none, refl, some, suc, sym, ℕ, ◌∙◌, ◌∷◌, ◌≡◌, ◌≢◌, ◌≤◌, ◌⊎◌,
}
use benchhelpers.StressTool.{
  Run, Item, distance, difference, is_other_device, Best, better, closest, run_of,
  select_median_iops_run,
}

-- The runs that the loop looks at
abbrev pub considered : Option String → List (Option Run) → List Run
considered filter [] = []
considered filter (none ∷ runs) = considered filter runs
considered filter (some r ∷ runs) =
    let rest = considered filter runs in if is_other_device filter r then rest else r ∷ rest

abbrev pick : ℕ → Best → List Run → Best
pick target best [] = best
pick target best (r ∷ rs) = pick target (better (difference target r) r best) rs

closest-pick :
    (filter : Option String) (target : ℕ) (best : Best) (runs : List (Option Run))
    → closest filter target best runs ≡ pick target best (considered filter runs)
unfolding closest
closest-pick filter target best [] = refl
closest-pick filter target best (none ∷ runs) = closest-pick filter target best runs
closest-pick filter target best (some r ∷ runs) = elim (Bool-cases (is_other_device filter r)) [
  | inl other ↦ rw other (closest-pick filter target best runs)
  | inr same ↦ rw same (closest-pick filter target (better (difference target r) r best) runs)
]

abbrev pub HasIops : Run → Type 0
HasIops r = (n : ℕ) × (r.iops ≡ some n)

-- The run has operations at least so far from the target.
abbrev pub IsAway : ℕ → ℕ → Run → Type 0
IsAway target e r = (m : ℕ) × (difference target r ≡ some m) × (e ≤ m)

difference-some :
    (target : ℕ) (r : Run) (n : ℕ)
    → r.iops ≡ some n
    → difference target r ≡ some (distance n target)
difference-some target r n e = rw e refl

difference-none : (target : ℕ) (r : Run) → r.iops ≡ none → difference target r ≡ none
difference-none target r e = rw e refl

-- Where a run of a list stands that is as far from the target
abbrev pub Stands : ℕ → List Run → Run → ℕ → Type 0
Stands target rs r e = (i : ℕ) × (get_elem? rs i ≡ some r) × (difference target r ≡ some e)

record Picked (target : ℕ) (b : Run) (d : ℕ) (rs : List Run) : Type 0 where
  run : Run
  away : ℕ
  picked : pick target (some (b, some d)) rs ≡ some (run, some away)
  near : away ≤ d
  others : All (IsAway target away) rs
  stands : ((run ≡ b) × (away ≡ d)) ⊎ Stands target rs run away

pick-Picked : (target : ℕ) (b : Run) (d : ℕ) (rs : List Run) → All HasIops rs → Picked target b d rs
pick-Picked target b d [] h = record {
  run = b;
  away = d;
  picked = refl;
  near = omega arith;
  others = tt;
  stands = inl (refl, refl);
}
pick-Picked target b d (r ∷ rs) ((n, e), rest) =
    let diff = difference-some target r n e in
    elim (Bool-cases (ltb (distance n target) d)) [
      | inl closer ↦
          let p = pick-Picked target r (distance n target) rs rest in
          record {
            run = p.run;
            away = p.away;
            picked = rw (diff, closer) p.picked;
            near = let lt = ltb→lt (distance n target) d closer in omega (arith, p.near);
            others = ((distance n target, diff, p.near), p.others);
            stands = inr (elim p.stands [
              | inl (same, far) ↦ (
                0,
                ap (λ x. some x) (sym same),
                ap (difference target) same ∙ diff ∙ ap (λ x. some x) (sym far),
              )
              | inr (i, at, far) ↦ (suc i, at, far)
            ]);
          }
      | inr farther ↦
          let p = pick-Picked target b d rs rest in
          record {
            run = p.run;
            away = p.away;
            picked = rw (diff, farther) p.picked;
            near = p.near;
            others = (
              (
                distance n target,
                diff,
                let le : d ≤ distance n target = ground arith in omega (arith, p.near),
              ),
              p.others,
            );
            stands = elim p.stands [
              | inl same ↦ inl same
              | inr (i, at, far) ↦ inr (suc i, at, far)
            ];
          }
    ]

-- If the median is a number, and some run of the device is considered, and each of these has a number
-- of operations, the selected run is one of them, and none is closer to the median.
pub select_median_iops_run-closest :
    (item : Item) (filter : Option String) (target : ℕ) (runs : List (Option Run))
    → item.median ≡ some (some target)
    → item.runs ≡ some runs
    → considered filter runs ≢ []
    → All HasIops (considered filter runs)
    → (r : Run) × (e : ℕ) × (select_median_iops_run item filter ≡ some r)
      × Stands target (considered filter runs) r e
      × All (IsAway target e) (considered filter runs)
unfolding select_median_iops_run
select_median_iops_run-closest item filter target runs is_target are_runs some_run each =
    let (r, e, picked, stands, away) = first (considered filter runs) some_run each in
    (
      r,
      e,
      rw (is_target, are_runs) (ap run_of (closest-pick filter target none runs) ∙ picked),
      stands,
      away,
    )
  where
    first :
        (rs : List Run)
        → rs ≢ []
        → All HasIops rs
        → (r : Run) × (e : ℕ) × (run_of (pick target none rs) ≡ some r)
          × Stands target rs r e
          × All (IsAway target e) rs
    first [] not_nil h = absurd (not_nil refl)
    first (r ∷ rs) not_nil ((n, has), rest) =
        let diff = difference-some target r n has in
        let p = pick-Picked target r (distance n target) rs rest in
        (
          p.run,
          p.away,
          rw diff (ap run_of p.picked),
          elim p.stands [
            | inl (same, far) ↦ (
              0,
              ap (λ x. some x) (sym same),
              ap (difference target) same ∙ diff ∙ ap (λ x. some x) (sym far),
            )
            | inr (i, at, far) ↦ (suc i, at, far)
          ],
          ((distance n target, diff, p.near), p.others),
        )

-- A run without a number of operations that comes first is selected, whatever the others have.
pub select_median_iops_run-first :
    (item : Item) (filter : Option String) (target : ℕ) (r : Run) (runs : List (Option Run))
    → item.median ≡ some (some target)
    → item.runs ≡ some (some r ∷ runs)
    → is_other_device filter r ≡ false
    → r.iops ≡ none
    → select_median_iops_run item filter ≡ some r
unfolding select_median_iops_run closest
select_median_iops_run-first item filter target r runs is_target are_runs same no_iops =
    rw (is_target, are_runs, same, difference-none target r no_iops)
      (ap run_of (closest-pick filter target (some (r, none)) runs ∙ kept (considered filter runs)))
  where
    kept : (rs : List Run) → pick target (some (r, none)) rs ≡ some (r, none)
    kept [] = refl
    kept (q ∷ rs) = elim (Option-cases (difference target q)) [
      | inl e ↦ rw e (kept rs)
      | inr (d, e) ↦ rw e (kept rs)
    ]
