-- ===== src/Interfaces/Filled.antt =====
-- The log, the router and the worker of a store, as what src/interfaces.py calls them, and what a caller may
-- rely on through the interfaces.
use lite_store.Base.{◌≡◌, refl, some}
use lite_store.Base.Text.{Text}
use lite_store.Builtins.{Builtins}
use lite_store.Types.{CommandRequest}
use lite_store.Interfaces.{StoreInterface, PersistenceInterface, RouterInterface, WorkerInterface}
use lite_store.Persistence
use lite_store.Persistence.{AofPersistence, JsonLib}
use lite_store.Router
use lite_store.Router.{Hashing, Router, extract_key}
use lite_store.Worker
use lite_store.Worker.{StoreWorker}

-- AofPersistence, as a PersistenceInterface
abbrev pub aof_persistence : JsonLib → PersistenceInterface AofPersistence
aof_persistence json = record {
  append = Persistence.append json;
  replay = Persistence.replay json;
  close = Persistence.close json;
}

-- DeterministicHashRouter, as a RouterInterface
abbrev pub hash_router : Hashing → RouterInterface Router
hash_router h = record { route_key = Router.route_key h; route_request = Router.route_request h }

-- StoreWorker, as a WorkerInterface
abbrev pub store_worker :
    {S : Type 0} → StoreInterface S → Builtins → WorkerInterface (StoreWorker S)
store_worker store b = record {
  worker_id = λ w. w.worker_id;
  partition_id = λ w. w.partition_id;
  start = Worker.start_worker store;
  stop = Worker.stop_worker store;
  execute = Worker.execute store b;
  execute_async = Worker.execute store b;
  run_expiration_cycle = Worker.run_expiration_cycle store;
  run_expiration_cycle_async = Worker.run_expiration_cycle store;
  snapshot = Worker.worker_snapshot store;
  snapshot_async = Worker.worker_snapshot store;
  stats = Worker.stats store;
}

-- Requests that have a key are routed as the key is, so that two of them on one key meet in one worker.
pub routed_by_key :
    (h : Hashing) (r : Router) (request : CommandRequest) (key : Text)
    → extract_key request.command request.args ≡ some key
    → (hash_router h).route_request r request ≡ (hash_router h).route_key r key
unfolding Router.route_request Router.route_extracted
routed_by_key h r request key e = rw e refl
