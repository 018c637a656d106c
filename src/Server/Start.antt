-- ===== src/Server/Start.antt =====
-- The construction, the start and the end of the server.
--
-- Its listeners are the event loop's, and are not modelled.
use lite_store.Base.{
  ℕ, zero, suc, Option, none, some, List, [], ◌∷◌, ◌++◌, Result, ok, raised, pos_part,
}
use lite_store.Base.Text.{Text, text, text_key, decimal}
use lite_store.Base.Dict.{Dict, lookup, insert, map_values}
use lite_store.Builtins.{Builtins}
use lite_store.Interfaces.{StoreInterface}
use lite_store.Types.{CommandResponse, PersistRecord, every_n}
use lite_store.Config.{LiteStoreConfig}
use lite_store.Router.{Hashing, Router, make_router, route_request}
use lite_store.Persistence
use lite_store.Persistence.{AofPersistence, JsonLib, make_persistence, replay}
use lite_store.Worker.{StoreWorker, make_worker, start_worker, stop_worker, execute}
use lite_store.Metrics.{Floats, make_metrics}
use lite_store.Server.{
  LiteStoreRuntime, Crash, key_error, runtime_error, value_error, refresh_metrics_snapshot,
}

-- `f"w{index}"` for the numbers from `index` on
unfoldable pub worker_ids : ℕ → ℕ → List Text
worker_ids index zero = []
worker_ids index (suc n) = (text "w" ++ decimal index) ∷ worker_ids (suc index) n

module _ {S : Type 0} (store : StoreInterface S) where
  -- the workers with these ids, numbered from `index` on, added to `workers`; `fresh i` is the
  -- MemoryStore that the worker with number i makes
  unfoldable pub make_workers :
      (ℕ → S) → ℕ → List Text → Dict Text (StoreWorker S) → Dict Text (StoreWorker S)
  make_workers fresh index [] workers = workers
  make_workers fresh index (id ∷ ids) workers =
      make_workers fresh (suc index) ids
        (insert id (make_worker store id index (fresh index)) workers)

  -- for worker in self._workers.values(): worker.start()
  unfoldable pub start_workers : Dict Text (StoreWorker S) → Dict Text (StoreWorker S)
  unfolding map_values
  start_workers workers = map_values (start_worker store) workers

  -- for worker in self._workers.values(): worker.stop()
  unfoldable pub stop_workers : Dict Text (StoreWorker S) → Dict Text (StoreWorker S)
  unfolding map_values
  stop_workers workers = map_values (stop_worker store) workers

  module _ (b : Builtins) (json : JsonLib) (h : Hashing) (f : Floats) where
    -- `LiteStoreRuntime(config)`, by what the router's constructor does
    unfoldable pub make_runtime :
        (ℕ → S) → Text → List Text → Result (Unit {0}) Router → Result Crash (LiteStoreRuntime S)
    unfolding make_workers make_persistence
    make_runtime fresh content ids (raised e) = raised value_error
    make_runtime fresh content ids (ok router) = ok (record {
      router = router;
      workers = make_workers fresh 0 ids [];
      persistence = make_persistence json content every_n 100;
      metrics = make_metrics;
      connection_sequence = 0;
    })

    -- LiteStoreRuntime(config), with a log of this content
    unfoldable pub init : (ℕ → S) → Text → LiteStoreConfig → Result Crash (LiteStoreRuntime S)
    unfolding make_runtime worker_ids make_router
    init fresh content config =
        let ids = worker_ids 0 (pos_part config.worker_count) in
        make_runtime fresh content ids (make_router ids)

    -- the body of the loop of `_replay_persistence`, once the worker has returned or raised
    unfoldable pub replayed :
        LiteStoreRuntime S
        → Result Text CommandResponse
        → LiteStoreRuntime S × Result Crash (Unit {0})
    replayed rt (raised message) = (rt, raised (runtime_error message))
    replayed rt (ok r) = (rt, ok tt)

    unfoldable pub replay_worker :
        LiteStoreRuntime S
        → PersistRecord
        → Text
        → Option (StoreWorker S)
        → LiteStoreRuntime S × Result Crash (Unit {0})
    unfolding replayed execute
    replay_worker rt r id none = (rt, raised key_error)
    replay_worker rt r id (some w) =
        let (w', result) = execute store b w r.request in
        replayed (record rt { workers = insert id w' rt.workers }) result

    unfoldable pub replay_record :
        LiteStoreRuntime S → PersistRecord → LiteStoreRuntime S × Result Crash (Unit {0})
    unfolding replay_worker route_request
    replay_record rt r =
        let id = (route_request h rt.router r.request).worker_id in
        replay_worker rt r id (lookup id rt.workers)

    -- the loop of `_replay_persistence`, after what it has done, which an exception ends
    unfoldable pub replay_records :
        LiteStoreRuntime S × Result Crash (Unit {0})
        → List PersistRecord
        → LiteStoreRuntime S × Result Crash (Unit {0})
    unfolding replay_record
    replay_records (rt, raised e) records = (rt, raised e)
    replay_records (rt, ok _) [] = (rt, ok tt)
    replay_records (rt, ok _) (r ∷ records) = replay_records (replay_record rt r) records

    -- _replay_persistence
    unfoldable pub replay_persistence :
        LiteStoreRuntime S → LiteStoreRuntime S × Result Crash (Unit {0})
    unfolding replay_records replay
    replay_persistence rt = replay_records (rt, ok tt) (replay json rt.persistence)

    -- `start`, after the replay
    unfoldable pub refresh_started :
        LiteStoreRuntime S × Result Crash (Unit {0}) → LiteStoreRuntime S × Result Crash (Unit {0})
    unfolding refresh_metrics_snapshot
    refresh_started (rt, raised e) = (rt, raised e)
    refresh_started (rt, ok _) = (refresh_metrics_snapshot store b json h f rt, ok tt)

    -- start, to the opening of the listeners
    unfoldable pub start : LiteStoreRuntime S → LiteStoreRuntime S × Result Crash (Unit {0})
    unfolding start_workers replay_persistence refresh_started
    start rt =
        refresh_started (replay_persistence (record rt { workers = start_workers rt.workers }))

    -- close, from the closing of the listeners on
    unfoldable pub close : LiteStoreRuntime S → LiteStoreRuntime S
    unfolding stop_workers Persistence.close
    close rt = record rt {
      workers = stop_workers rt.workers;
      persistence = Persistence.close json rt.persistence;
    }
