-- ===== src/Service.antt =====
-- batchflow/coordinator/service.py: what trainers and workers call, and the background passes. A call or a pass
-- is modelled as if no other one ran in between. Configuration, clock, shuffle and the ids of `make_id`
-- are arguments; the wake-up events and the logging are left out.
pub mod Window
pub mod Maintenance
pub mod Trainers
pub mod Workers
pub mod Handing
pub mod Delivery
pub mod Spare
pub mod Acknowledged
pub mod Expiry
pub mod Fits
use ad_artifacts.Base.{ℕ, String, Bool, Option, List}
use ad_artifacts.Exec.{Exec, Reader}
use ad_artifacts.Store.State.{Store}
use ad_artifacts.Planner.{Planner}
use ad_artifacts.Cache.{CacheState}

-- The parts of a `CoordinatorService` that change. Redis is enabled or not for its whole life.
pub record Service (F : Type 0) : Type 0 where
  pub store : Store F
  pub planner : Planner
  pub deleted_keys : List String
  pub redis_enabled : Bool

module _ {F A : Type 0} where
  -- A method of the store, the planner or the cache manager, on the service that holds it.
  abbrev pub on_store : Exec (Store F) A → Exec (Service F) A
  on_store m c = let (r, s') = m c.store in (r, record c { store = s' })

  abbrev pub read_store : Reader (Store F) A → Exec (Service F) A
  read_store r c = (r c.store, c)

  abbrev pub on_planner : Exec Planner A → Exec (Service F) A
  on_planner m c = let (r, p') = m c.planner in (r, record c { planner = p' })

  abbrev pub on_cache : Exec (CacheState F) A → Exec (Service F) A
  on_cache m c =
      let (r, s') = m (record { store = c.store; deleted_keys = c.deleted_keys }) in
      (r, record c { store = s'.store; deleted_keys = s'.deleted_keys })
