-- ===== src/InstancePool.antt =====
-- backend/src/framework/instance_pool.py: `InstancePool`, the instances that run for the enabled
-- configurations. `create` stands for `create_instance`, which gives an instance or raises; what
-- `destroy_instance` does or raises changes nothing here. The configurations come from the loader.
use poly_strategy.Prelude.{
  ℕ, Bool, true, false, Option, none, some, List, [], ◌∷◌, ◌++◌, map, Dict, lookup, insert, erase,
  ◌==◌, is_some, if◌then◌else◌,
}
pub mod Reload
mod Tests

-- `InstanceConfig`
pub record InstanceConfig : Type 0 where
  pub id : ℕ
  pub version : ℕ

-- `_Running`
pub record Running : Type 0 where
  pub version : ℕ
  pub instance_id : ℕ

pub record Pool : Type 0 where
  pub instances : Dict Running
  pub running : Bool

-- What `reload` returns.
pub record Changes : Type 0 where
  pub stopped : List ℕ
  pub started : List ℕ
  pub reloaded : List ℕ

unfoldable pub new_pool : Pool
new_pool = record { instances = []; running = false }

abbrev pub keys : Dict Running → List ℕ
keys [] = []
keys ((k, r) ∷ rest) = k ∷ keys rest

-- `config_map[k]`
unfoldable pub config_of : ℕ → List InstanceConfig → Option InstanceConfig
config_of k [] = none
config_of k (c ∷ cs) = if c.id == k then some c else config_of k cs

module _ (create : InstanceConfig → Option ℕ) where
  -- `_start_one`: a failure leaves the pool as it is.
  unfoldable pub put_new : InstanceConfig → (made : Option ℕ) → Dict Running → Dict Running
  put_new c none d = d
  put_new c (some i) d = insert c.id (record { version = c.version; instance_id = i }) d

  unfoldable pub start_one : InstanceConfig → Dict Running → Dict Running
  unfolding put_new
  start_one c d = put_new c (create c) d

  unfoldable pub start_all : List InstanceConfig → Dict Running → Dict Running
  unfolding start_one
  start_all [] d = d
  start_all (c ∷ cs) d = start_all cs (start_one c d)

  -- `start`
  unfoldable pub start_pool : List InstanceConfig → Pool → Pool
  unfolding start_all
  start_pool cs p = record { instances = start_all cs p.instances; running = true }

  -- The loop of `reload` over the running instances; `_stop_one` drops the instance.
  unfoldable pub stop_missing : List ℕ → List InstanceConfig → Dict Running → Dict Running
  unfolding config_of
  stop_missing [] cs d = d
  stop_missing (k ∷ ks) cs d =
      let rest = if is_some (config_of k cs) then d else erase k d in stop_missing ks cs rest

  -- The step of `reload` for a configuration.
  unfoldable pub renew : InstanceConfig → (existing : Option Running) → Dict Running → Dict Running
  unfolding start_one
  renew c none d = start_one c d
  renew c (some r) d = if r.version == c.version then d else start_one c (erase c.id d)

  unfoldable pub update_one : InstanceConfig → Dict Running → Dict Running
  unfolding renew
  update_one c d = renew c (lookup c.id d) d

  unfoldable pub update_all : List InstanceConfig → Dict Running → Dict Running
  unfolding update_one
  update_all [] d = d
  update_all (c ∷ cs) d = update_all cs (update_one c d)

  abbrev missing_of : List ℕ → List InstanceConfig → List ℕ
  missing_of [] cs = []
  missing_of (k ∷ ks) cs =
      let rest = missing_of ks cs in if is_some (config_of k cs) then rest else k ∷ rest

  -- What the loop of `reload` adds to its lists of changes for a configuration.
  unfoldable pub note_change : InstanceConfig → Dict Running → Changes → Changes
  note_change c d changes = elim (lookup c.id d) [
    | none ↦ record changes { started = changes.started ++ c.id ∷ [] }
    | some r ↦
        if r.version == c.version
        then changes
        else record changes { reloaded = changes.reloaded ++ c.id ∷ [] }
  ]

  unfoldable pub changes_of : List InstanceConfig → Dict Running → Changes → Changes
  unfolding note_change update_one
  changes_of [] d changes = changes
  changes_of (c ∷ cs) d changes = changes_of cs (update_one c d) (note_change c d changes)

  -- `reload`
  unfoldable pub reload : List InstanceConfig → Pool → Pool × Changes
  unfolding stop_missing update_all changes_of
  reload cs p =
      let kept = stop_missing (keys p.instances) cs p.instances in
      let dropped : Changes = record {
        stopped = missing_of (keys p.instances) cs;
        started = [];
        reloaded = [];
      } in
      (record p { instances = update_all cs kept }, changes_of cs kept dropped)

-- `stop`
unfoldable pub stop_pool : Pool → Pool
stop_pool p = record { instances = []; running = false }
