-- ===== src/Tpcc/Maintenance/Tests.antt =====
-- A server that shows each value as it is given.
use benchhelpers.Prelude.{[], false, inr, ok, refl, ◌≡◌}
use benchhelpers.Tpcc.Maintenance.{
  Server, index_statements, raise_work_mem, restore_work_mem, post_load,
}
use benchhelpers.Tpcc.Maintenance.Restored.{work_mem-restored}

abbrev server : Server
server = record { maintenance_work_mem = "65536"; statements = [] }

abbrev indexed : Server
indexed = record { maintenance_work_mem = "65536"; statements = index_statements }

loaded : post_load (λ v. v) (λ u q. false) "1048576" server ≡ (indexed, ok tt)
unfolding post_load raise_work_mem restore_work_mem
loaded = refl

work_mem-restored_example : indexed.maintenance_work_mem ≡ "65536"
work_mem-restored_example =
    work_mem-restored (λ v. v) (λ u q. false) "1048576" server indexed (refl, refl) (inr loaded)
