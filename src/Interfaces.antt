-- ===== src/Interfaces.antt =====
-- The interfaces of src/interfaces.py. commands.py and worker.py use a store through its interface,
-- which the in-memory store fills; Filled has what fills the others.
pub mod Filled
use lite_store.Base.{ℕ, Bool, Option, List, ℤ, Result}
use lite_store.Base.Text.{Text}
use lite_store.Base.Dict.{Dict}
use lite_store.Clock.{Time, Clock}
use lite_store.Builtins.{Builtins}
use lite_store.Types.{CommandRequest, CommandResponse, KeyRoute, PersistRecord, WorkerStats}
use lite_store.Store
use lite_store.Store.{MemoryStore}

-- A method takes the store and returns the store after it with its result.
pub record StoreInterface (S : Type 0) : Type 0 where
  pub set : S → Text → Text → S
  pub get : S → Text → S × Option Text
  pub delete : S → Text → S × Bool
  pub expire : S → Text → ℤ → S × Bool
  -- the store that `expire` leaves when it raises an OverflowError, which `none` says it does not
  pub expire_raised : S → Text → ℤ → Option S
  pub ttl : S → Text → S × ℤ
  pub process_expirations : S → Option Time → S × ℕ
  pub keys : S → Text → S × List Text
  pub flush : S → S × ℕ
  pub snapshot : S → S × Dict Text Text

abbrev pub memory_store : Clock → Builtins → StoreInterface MemoryStore
memory_store c b = record {
  set = Store.set c;
  get = Store.get c;
  delete = Store.delete c;
  expire = Store.expire c;
  expire_raised = Store.expire_raised c;
  ttl = Store.ttl c;
  process_expirations = Store.process_expirations c;
  keys = Store.keys c b;
  flush = Store.flush c;
  snapshot = Store.snapshot c;
}

pub record PersistenceInterface (L : Type 0) : Type 0 where
  pub append : L → PersistRecord → L
  pub replay : L → List PersistRecord
  pub close : L → L

pub record RouterInterface (R : Type 0) : Type 0 where
  pub route_key : R → Text → KeyRoute
  pub route_request : R → CommandRequest → KeyRoute

-- An asynchronous method is the call of the other one.
pub record WorkerInterface (W : Type 0) : Type 0 where
  pub worker_id : W → Text
  pub partition_id : W → ℕ
  pub start : W → W
  pub stop : W → W
  pub execute : W → CommandRequest → W × Result Text CommandResponse
  pub execute_async : W → CommandRequest → W × Result Text CommandResponse
  pub run_expiration_cycle : W → Option Time → W × ℕ
  pub run_expiration_cycle_async : W → Option Time → W × ℕ
  pub snapshot : W → W × Dict Text Text
  pub snapshot_async : W → W × Dict Text Text
  pub stats : W → WorkerStats
