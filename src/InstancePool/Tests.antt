-- ===== src/InstancePool/Tests.antt =====
-- A reload of instance_pool.py: one instance goes, one stays, one is renewed, one is new and one fails.
use poly_strategy.Prelude.{
  ℕ, ◌+◌, ◌≡◌, refl, Option, none, some, List, [], ◌∷◌, lookup, insert, erase, ◌==◌, if◌then◌else◌,
}
use poly_strategy.InstancePool.{InstanceConfig, Pool, config_of, new_pool, start_pool, reload}
use poly_strategy.InstancePool.Reload.{wanted_under, HasUniqueIds, reload_reconciles}

abbrev config : ℕ → ℕ → InstanceConfig
config i v = record { id = i; version = v }

-- Configuration 9 cannot be created.
abbrev make : InstanceConfig → Option ℕ
make c = if c.id == 9 then none else some (100 + c.id + c.version)

abbrev before : Pool
before = start_pool make (config 1 1 ∷ config 2 1 ∷ config 3 1 ∷ []) new_pool

abbrev enabled : List InstanceConfig
enabled = config 2 1 ∷ config 3 2 ∷ config 4 1 ∷ config 9 1 ∷ []

enabled-HasUniqueIds : HasUniqueIds enabled
unfolding config_of
enabled-HasUniqueIds = (refl, (refl, (refl, (refl, tt))))

reload_changes :
    (reload make enabled before).1
    ≡ record { stopped = 1 ∷ []; started = 4 ∷ 9 ∷ []; reloaded = 3 ∷ [] }
unfolding reload start_pool new_pool lookup insert erase
reload_changes = refl

reload_reconciles_example :
    lookup 3 (reload make enabled before).0.instances
    ≡ wanted_under make (config_of 3 enabled) (lookup 3 before.instances)
reload_reconciles_example = reload_reconciles make 3 enabled before enabled-HasUniqueIds
