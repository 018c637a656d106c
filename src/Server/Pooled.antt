-- ===== src/Server/Pooled.antt =====
-- The server of src/server.py with its workers in processes of their own.
--
-- A request waits for its response between two steps, the put and the get of `execute`, and other
-- connections step in between.
pub mod System
pub mod Begun
pub mod Steps
pub mod Order
pub mod Values
use lite_store.Base.{ℕ, ◌+◌, Option, none, some, List, Result, ok, raised, pos_part}
use lite_store.Base.Text.{Text}
use lite_store.Clock.{Time}
use lite_store.Builtins.{Builtins}
use lite_store.Config.{LiteStoreConfig}
use lite_store.Types.{CommandRequest, CommandResponse, every_n}
use lite_store.Protocol.{Raises, parse_command}
use lite_store.Router.{Hashing, Router, make_router, route_request}
use lite_store.Metrics.{Floats, MetricsCollector, make_metrics, observe_command}
use lite_store.WorkerPool.{
  Paths, WorkerPool, make_pool, start_all, shutdown_all, execute_send, execute_receive,
}
use lite_store.Server.{Crash, key_error, value_error, error_response, connection_name}
use lite_store.Server.Start.{worker_ids}

-- LiteStoreRuntime with `use_multiprocessing` true
pub record PooledRuntime : Type 0 where
  pub router : Router
  pub worker_pool : WorkerPool
  pub metrics : MetricsCollector
  pub connection_sequence : ℕ

-- `LiteStoreRuntime(config)`, by what the router's constructor does. The configuration has no policy,
-- so that of the pool is EVERY_N with 100.
unfoldable pub make_pooled : LiteStoreConfig → Result (Unit {0}) Router → Result Crash PooledRuntime
unfolding make_pool
make_pooled config (raised e) = raised value_error
make_pooled config (ok router) = ok (record {
  router = router;
  worker_pool = make_pool config.worker_count config.aof_path every_n 100;
  metrics = make_metrics;
  connection_sequence = 0;
})

-- LiteStoreRuntime(config)
unfoldable pub init : LiteStoreConfig → Result Crash PooledRuntime
unfolding make_pooled worker_ids make_router
init config = make_pooled config (make_router (worker_ids 0 (pos_part config.worker_count)))

-- start, to the opening of the listeners
unfoldable pub start : Paths → PooledRuntime → PooledRuntime
unfolding start_all
start paths rt = record rt { worker_pool = start_all paths rt.worker_pool }

-- close, from the closing of the listeners on
unfoldable pub close : PooledRuntime → PooledRuntime
unfolding shutdown_all
close rt = record rt { worker_pool = shutdown_all rt.worker_pool }

-- _next_connection_id
unfoldable pub next_connection_id : PooledRuntime → Option (Text × ℕ) → PooledRuntime × Text
next_connection_id rt peer =
    let sequence = rt.connection_sequence + 1 in
    (record rt { connection_sequence = sequence }, connection_name peer sequence)

-- How far a line is once its step has ended: it is answered, or it waits for this worker.
pub data Progress : Type 0 where
  answered : CommandResponse → Progress
  waiting : Text → CommandRequest → Progress

module _ (b : Builtins) (h : Hashing) (f : Floats) where
  -- the pool after the put, whose KeyError leaves the step
  abbrev pub put_on :
      PooledRuntime
      → Text
      → CommandRequest
      → Option WorkerPool
      → PooledRuntime × Result Crash Progress
  put_on rt worker_id request none = (rt, raised key_error)
  put_on rt worker_id request (some p) =
      (record rt { worker_pool = p }, ok (waiting worker_id request))

  -- `_dispatch_request` to the put of `execute`
  unfoldable pub dispatch_send :
      PooledRuntime → CommandRequest → Text → PooledRuntime × Result Crash Progress
  unfolding route_request execute_send
  dispatch_send rt request uuid =
      let worker_id = (route_request h rt.router request).worker_id in
      put_on rt worker_id request (execute_send rt.worker_pool worker_id request uuid)

  -- `_process_command_bytes` to the put, by what `parse_command` does
  unfoldable pub send_parsed :
      PooledRuntime → Text → Text → Raises CommandRequest → PooledRuntime × Result Crash Progress
  unfolding dispatch_send
  send_parsed rt request_id uuid (raised e) =
      (rt, ok (answered (error_response e.code e.message (some request_id))))
  send_parsed rt request_id uuid (ok request) = dispatch_send rt request uuid

  -- `_process_command_bytes` of a decoded line, to the put
  unfoldable pub process_send :
      PooledRuntime → Text → Text → Text → Text → PooledRuntime × Result Crash Progress
  unfolding send_parsed
  process_send rt decoded connection_id request_id uuid =
      send_parsed rt request_id uuid
        (parse_command b (some request_id) (some connection_id) decoded)

  -- `observe_command` on the metrics of the server, before it returns `r`
  abbrev pub metered :
      PooledRuntime
      → CommandResponse
      → Option MetricsCollector
      → PooledRuntime × Result Crash CommandResponse
  metered rt r none = (rt, raised value_error)
  metered rt r (some m) = (record rt { metrics = m }, ok r)

  abbrev pub received :
      PooledRuntime
      → CommandRequest
      → Time
      → Option (WorkerPool × CommandResponse)
      → Option (PooledRuntime × Result Crash CommandResponse)
  received rt request duration none = none
  received rt request duration (some (p, r)) =
      some (
        metered (record rt { worker_pool = p }) r (observe_command f h rt.metrics request duration))

  -- `_process_command_bytes` from the get on; `none` while it waits
  unfoldable pub process_receive :
      PooledRuntime
      → Text
      → CommandRequest
      → Time
      → Option (PooledRuntime × Result Crash CommandResponse)
  unfolding execute_receive
  process_receive rt worker_id request duration =
      received rt request duration (execute_receive rt.worker_pool worker_id)
