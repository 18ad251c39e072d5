-- ===== src/Tpcc/Maintenance/Restored.antt =====
-- The memory setting after the scripts.
use benchhelpers.Prelude.{
  Bool, Bool-cases, List, Option, String, ap, err, exit, false, inl, inr, none, ok, ok_injective,
  other_exception, refl, some, str_eq, sym, ◌||◌, ◌∙◌, ◌≡◌, ◌⊎◌,
}
use benchhelpers.Tpcc.Maintenance.{
  Server, Outcome, and_then, alter_system, reload_conf, set_work_mem, raised_from, raise_work_mem,
  restore_work_mem, any_fails, run_all, index_statements, create_indices, vacuum_tables, post_load,
  vacuum_analyze,
}

-- A setting that the server shows, so not empty, is shown as it is when it is set again.
abbrev pub IsShown : (String → String) → Server → Type 0
IsShown shown s =
    (str_eq s.maintenance_work_mem "" ≡ false)
    × (shown s.maintenance_work_mem ≡ s.maintenance_work_mem)

module _ (shown : String → String) (fails : Server → String → Bool) where
  -- A raised setting comes with the one before it.
  abbrev Raised : Server → Option String → Server → Type 0
  Raised s none u = u.maintenance_work_mem ≡ s.maintenance_work_mem
  Raised s (some value) u = value ≡ s.maintenance_work_mem

  set_work_mem-ok :
      (value : String) (s t : Server)
      → set_work_mem shown fails value s ≡ (t, ok tt)
      → t.maintenance_work_mem ≡ shown value
  set_work_mem-ok value s t h =
      elim (Bool-cases
        (fails s (alter_system shown fails value) || fails s (reload_conf shown fails))) [
          | inl e ↦ absurd (let h' : (s, err other_exception) ≡ (t, ok tt) = rw e at h in cc)
          | inr e ↦
              let h' : (record s { maintenance_work_mem = shown value }, ok tt) ≡ (t, ok tt) =
                rw e at h in
              sym (ap (λ x. x.0.maintenance_work_mem) h')
        ]

  raise_work_mem-ok :
      (m : String) (s u : Server) (current : Option String)
      → raise_work_mem shown fails m s ≡ (u, ok current)
      → Raised s current u
  unfolding raise_work_mem
  raise_work_mem-ok m s u current h = elim (Bool-cases (str_eq m "")) [
    | inl e ↦
        let h' : (s, ok none) ≡ (u, ok current) = rw e at h in
        let same : none ≡ current = ok_injective (ap (λ x. x.1) h') in
        rw (← same) (sym (ap (λ x. x.0.maintenance_work_mem) h'))
    | inr e ↦ from_set (set_work_mem shown fails m s) (rw e at h)
  ]
    where
      from_set :
          (o : Outcome (Unit {0}))
          → raised_from shown fails s o ≡ (u, ok current)
          → Raised s current u
      from_set (a, err raised) h = cc
      from_set (a, ok set) h =
          let same : some s.maintenance_work_mem ≡ current = ok_injective (ap (λ x. x.1) h) in
          rw (← same) refl

  restore_work_mem-ok :
      (s u t : Server) (current : Option String)
      → IsShown shown s
      → Raised s current u
      → restore_work_mem shown fails current u ≡ (t, ok tt)
      → t.maintenance_work_mem ≡ s.maintenance_work_mem
  unfolding restore_work_mem
  restore_work_mem-ok s u t none is_shown before h =
      sym (ap (λ x. x.0.maintenance_work_mem) h) ∙ before
  restore_work_mem-ok s u t (some value) (full, same) before h =
      let e : str_eq value "" ≡ false = rw before full in
      set_work_mem-ok value u t (rw e at h) ∙ ap shown before ∙ same

  and_then-ok :
      {A : Type 0} (o : Outcome A) (next : A → Server → Outcome (Unit {0})) (t : Server)
      → and_then o next ≡ (t, ok tt)
      → (a : A) × (u : Server) × (o ≡ (u, ok a)) × (next a u ≡ (t, ok tt))
  and_then-ok (u, err raised) next t h = cc
  and_then-ok (u, ok a) next t h = (a, u, refl, h)

  create_indices-ok :
      (current : Option String) (u t : Server)
      → create_indices shown fails current u ≡ (t, ok tt)
      → restore_work_mem shown fails current (run_all shown fails index_statements u) ≡ (t, ok tt)
  create_indices-ok current u t h = elim (Bool-cases (any_fails shown fails u index_statements)) [
    | inl e ↦ absurd (
        let h' : (run_all shown fails index_statements u, err (exit 1)) ≡ (t, ok tt) = rw e at h in
        cc)
    | inr e ↦ rw e at h
  ]

  Raised-run_all :
      (s u : Server) (current : Option String) (qs : List String)
      → Raised s current u
      → Raised s current (run_all shown fails qs u)
  Raised-run_all s u none qs h = h
  Raised-run_all s u (some value) qs h = h

-- If the server shows its memory setting as it is when it is set again, then each of the scripts that
-- vacuum and that create the indices leaves the setting as it was when it ends without an error.
pub work_mem-restored :
    (shown : String → String) (fails : Server → String → Bool) (max_work_mem : String)
    (s t : Server)
    → IsShown shown s
    → (vacuum_analyze shown fails max_work_mem s ≡ (t, ok tt))
      ⊎ (post_load shown fails max_work_mem s ≡ (t, ok tt))
    → t.maintenance_work_mem ≡ s.maintenance_work_mem
unfolding post_load vacuum_analyze
work_mem-restored shown fails m s t is_shown (inl h) =
    let (current, u, raised, k) =
      and_then-ok shown fails (raise_work_mem shown fails m s) (vacuum_tables shown fails) t h in
    restore_work_mem-ok shown fails s _ t current is_shown
      (Raised-run_all shown fails s u current _
        (raise_work_mem-ok shown fails m s u current raised))
      k
work_mem-restored shown fails m s t is_shown (inr h) =
    let (current, u, raised, k) =
      and_then-ok shown fails (raise_work_mem shown fails m s) (create_indices shown fails) t h in
    restore_work_mem-ok shown fails s _ t current is_shown
      (Raised-run_all shown fails s u current _
        (raise_work_mem-ok shown fails m s u current raised))
      (create_indices-ok shown fails current u t k)

-- The scripts end without an error where no statement raises.
pub scripts-total :
    (shown : String → String) (max_work_mem : String) (s : Server)
    → ((t : Server) × (vacuum_analyze shown (λ u q. false) max_work_mem s ≡ (t, ok tt)))
      × ((t : Server) × (post_load shown (λ u q. false) max_work_mem s ≡ (t, ok tt)))
unfolding post_load vacuum_analyze raise_work_mem restore_work_mem
scripts-total shown m s = elim (Bool-cases (str_eq m "")) [
  | inl e ↦ rw e ((_, refl), (_, refl))
  | inr e ↦ rw e (elim (Bool-cases (str_eq s.maintenance_work_mem "")) [
    | inl f ↦ rw f ((_, refl), (_, refl))
    | inr f ↦ rw f ((_, refl), (_, refl))
  ])
]
