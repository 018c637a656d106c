-- ===== src/Tests/Pooled.antt =====
-- The server with two worker processes, and one request.
use lite_store.Base.{◌≡◌, refl, ◌++◌, some, [], ◌∷◌, ok, pos}
use lite_store.Base.Text.{Text, text, text_key, Text-discrete, decimal}
use lite_store.Base.Dict.{lookup, insert, map_values}
use lite_store.Types.{every_n}
use lite_store.Config.{LiteStoreConfig, default_config}
use lite_store.Router.{routing, make_router, route_request}
use lite_store.Metrics.{make_metrics}
use lite_store.ProcessWorker.{WorkerProcess, start}
use lite_store.ProcessWorker.Entry.{worker_entry}
use lite_store.WorkerPool.{
  Paths, WorkerHandle, Process, make_handle, make_handles, make_pool, start_all, start_handle,
  aof_path_for_worker, send_request, execute_send,
}
use lite_store.WorkerPool.Started.{start_all-enters}
use lite_store.WorkerPool.Channels.{seen}
use lite_store.WorkerPool.Order.{IsInOrder}
use lite_store.Server.Start.{worker_ids}
use lite_store.Server.Pooled
use lite_store.Server.Pooled.{PooledRuntime, waiting, make_pooled, dispatch_send}
use lite_store.Server.Pooled.System.{System, Reached, begun, asked, extended, channel}
use lite_store.Server.Pooled.Order.{Reached-IsInOrder, Reached_sends}
use lite_store.Tests.{builtins}
use lite_store.Tests.Servers.{c, hashing, set_request, json}
use lite_store.Tests.HotKeys.{floats}

abbrev pub config : LiteStoreConfig
config = record (default_config floats) { worker_count = pos 2 }

-- One path and an empty file for each worker.
abbrev pub paths : Paths
paths = record { parent = λ p. p; stem = λ p. p; suffix = λ p. p; join = λ p name. text "log" }

abbrev pub files : Text → Text
files path = []

abbrev pub made : PooledRuntime
made = record {
  router = routing (text "w" ++ decimal 0) ((text "w" ++ decimal 1) ∷ []);
  worker_pool = make_pool (pos 2) (text "data/litestore.aof") every_n 100;
  metrics = make_metrics;
  connection_sequence = 0;
}

init_made : Pooled.init config ≡ ok made
unfolding Pooled.init make_pooled worker_ids make_router
init_made = refl

abbrev processes : Text → WorkerProcess
processes id = start c builtins json (some []) every_n 100

spawned :
    (id : Text) (handle : WorkerHandle) (p : Process)
    → lookup id (Pooled.start paths made).worker_pool.handles ≡ some handle
    → handle.process ≡ some p
    → worker_entry c builtins json files (some p.aof_path) p.fsync_policy p.fsync_every_n
      ≡ some (processes id)
unfolding Pooled.start aof_path_for_worker make_pool
spawned id handle p found process =
    start_all-enters c builtins json files paths made.worker_pool id handle p found process

abbrev pub begun_system : System
begun_system = record { runtime = Pooled.start paths made; processes = processes }

pub begun_Reached :
    Reached c builtins json hashing floats paths files config begun_system (λ id. []) (λ id. [])
begun_Reached = begun made processes init_made spawned

Reached_sends_example :
    (rt : PooledRuntime) × (dispatch_send builtins hashing floats begun_system.runtime set_request
        (text "u")
      ≡ (
        rt,
        ok (
            waiting
              (route_request hashing begun_system.runtime.router set_request).worker_id
              set_request),
      ))
Reached_sends_example =
    Reached_sends c builtins json hashing floats paths files config set_request (text "u")
      begun_Reached

abbrev pub asked_runtime : PooledRuntime
asked_runtime =
    (dispatch_send builtins hashing floats begun_system.runtime set_request (text "u")).0

pub sent :
    dispatch_send builtins hashing floats begun_system.runtime set_request (text "u")
    ≡ (asked_runtime, ok (waiting (text "w" ++ decimal 1) set_request))
unfolding dispatch_send route_request decimal execute_send lookup Text-discrete Pooled.start
    start_all map_values make_pool make_handles insert
sent = refl

abbrev pub handle : WorkerHandle
handle =
    send_request (start_handle paths made.worker_pool (make_handle (text "w" ++ decimal 1) 1))
      set_request (text "u")

abbrev pub asked_system : System
asked_system = record begun_system { runtime = asked_runtime }

pub there : lookup (text "w" ++ decimal 1) asked_runtime.worker_pool.handles ≡ some handle
unfolding dispatch_send route_request decimal execute_send lookup Text-discrete Pooled.start
    start_all map_values make_pool make_handles insert
there = refl

Reached-IsInOrder_example :
    IsInOrder c builtins json
      (channel asked_system (text "w" ++ decimal 1) handle)
      (extended
        (text "w" ++ decimal 1)
        (seen set_request (text "u"))
        (λ id. [])
        (text "w" ++ decimal 1))
      []
Reached-IsInOrder_example =
    Reached-IsInOrder c builtins json hashing floats paths files config (text "w" ++ decimal 1)
      handle (asked set_request (text "u") asked_runtime (text "w" ++ decimal 1) sent begun_Reached)
      there
