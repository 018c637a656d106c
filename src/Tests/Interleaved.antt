-- ===== src/Tests/Interleaved.antt =====
-- The server with two worker processes: a SET and a GET of the same key are both sent before the process
-- works, and then both are answered.
use lite_store.Base.{
  false, All, or_else, ◌≡◌, refl, ◌++◌, Option, none, some, List, [], ◌∷◌, Result, ok,
}
use lite_store.Base.Text.{Text, text, text_key, Text-discrete, decimal}
use lite_store.Base.Dict.{lookup, insert, map_values}
use lite_store.Types.{CommandName, CommandRequest, CommandResponse, null, response, every_n}
use lite_store.Router.{route_request}
use lite_store.Commands.{execute_command}
use lite_store.Persistence.{make_persistence, replay}
use lite_store.ProcessWorker
use lite_store.ProcessWorker.Logged.{AreUntimed}
use lite_store.Commands.Contents.{Untimed}
use lite_store.WorkerPool.{
  WorkerHandle, Process, make_handles, make_pool, start_all, start_handle, send_request,
  execute_send, execute_receive,
}
use lite_store.WorkerPool.Channels.{next_overflows, Channel, work, work_on, seen}
use lite_store.WorkerPool.Answers.{IsAnswered}
use lite_store.Server.{Crash}
use lite_store.Server.Pooled
use lite_store.Server.Pooled.{PooledRuntime, waiting, dispatch_send, process_receive}
use lite_store.Server.Pooled.System.{
  System, Reached, asked, worked, taken, extended, channel, with_handle, replaced, handles_of,
}
use lite_store.Server.Pooled.Values.{logged_value, Reached-IsAnswered}
use lite_store.Tests.{builtins}
use lite_store.Tests.Servers.{c, hashing, request_of, set_request, json}
use lite_store.Tests.HotKeys.{floats}
use lite_store.Tests.Pooled.{
  config, paths, files, begun_system, begun_Reached, asked_runtime, sent, handle,
}

abbrev get_request : CommandRequest
get_request = request_of CommandName.get (text "k" ∷ [])

abbrev id : Text
id = text "w" ++ decimal 1

-- what is sent to each worker
abbrev requests : Text → List CommandRequest
requests =
    extended id (seen get_request (text "u")) (extended id (seen set_request (text "u")) (λ j. []))

abbrev both_runtime : PooledRuntime
both_runtime = (dispatch_send builtins hashing floats asked_runtime get_request (text "u")).0

both_sent :
    dispatch_send builtins hashing floats asked_runtime get_request (text "u")
    ≡ (both_runtime, ok (waiting id get_request))
unfolding dispatch_send route_request decimal execute_send lookup Text-discrete Pooled.start
    start_all map_values make_pool make_handles insert
both_sent = refl

abbrev both_handle : WorkerHandle
both_handle = send_request handle get_request (text "u")

abbrev both_system : System
both_system = record begun_system { runtime = both_runtime }

both_there : lookup id both_runtime.worker_pool.handles ≡ some both_handle
unfolding dispatch_send route_request decimal execute_send lookup Text-discrete Pooled.start
    start_all map_values make_pool make_handles insert
both_there = refl

abbrev once : Channel
once = work c builtins json (channel both_system id both_handle)

abbrev once_system : System
once_system = record {
  runtime = with_handle both_runtime id once.handle;
  processes = replaced id once.process both_system.processes;
}

once_there : lookup id (handles_of once_system) ≡ some once.handle
unfolding lookup insert Text-discrete decimal dispatch_send route_request execute_send Pooled.start
    start_all map_values make_pool make_handles
once_there = refl

both_Reached :
    Reached c builtins json hashing floats paths files config both_system requests (λ id. [])
both_Reached =
    asked get_request (text "u") both_runtime id both_sent
      (asked set_request (text "u") asked_runtime id sent begun_Reached)

both_fits : next_overflows c builtins json (channel both_system id both_handle) ≡ false
unfolding send_request start_handle ProcessWorker.overflows
both_fits = refl

once_Reached :
    Reached c builtins json hashing floats paths files config once_system requests (λ id. [])
once_Reached = worked id both_handle both_there both_fits both_Reached

abbrev twice : Channel
twice = work c builtins json (channel once_system id once.handle)

abbrev twice_system : System
twice_system = record {
  runtime = with_handle once_system.runtime id twice.handle;
  processes = replaced id twice.process once_system.processes;
}

once_fits : next_overflows c builtins json (channel once_system id once.handle) ≡ false
unfolding work ProcessWorker.start send_request start_handle ProcessWorker.overflows
once_fits = refl

twice_Reached :
    Reached c builtins json hashing floats paths files config twice_system requests (λ id. [])
twice_Reached = worked id once.handle once_there once_fits once_Reached

-- what a connection gets, or what it had when there is nothing
abbrev got :
    PooledRuntime
    → Option (PooledRuntime × Result Crash CommandResponse)
    → PooledRuntime × CommandResponse
got rt (some (rt', ok r)) = (rt', r)
got rt _ = (rt, response null none)

abbrev first : PooledRuntime × CommandResponse
first =
    got twice_system.runtime
      (process_receive builtins hashing floats twice_system.runtime id set_request 7)

first_taken :
    process_receive builtins hashing floats twice_system.runtime id set_request 7
    ≡ some (first.0, ok first.1)
unfolding process_receive execute_receive lookup insert Text-discrete decimal dispatch_send
    route_request execute_send Pooled.start start_all map_values make_pool make_handles work work_on
    ProcessWorker.start execute_command lite_store.Store.set lite_store.Store.process_expirations
    lite_store.Wheel.pop_due replay lite_store.Base.Text.strip make_persistence
    lite_store.Wheel.bucket_for_tick lite_store.Metrics.observe_command lite_store.CountMin.estimate
    lite_store.CountMin.increment
first_taken = refl

abbrev first_system : System
first_system = record twice_system { runtime = first.0 }

first_Reached :
    Reached c builtins json hashing floats paths files config first_system requests
      (extended id first.1 (λ id. []))
first_Reached = taken id set_request 7 first.0 first.1 first_taken twice_Reached

abbrev second : PooledRuntime × CommandResponse
second = got first.0 (process_receive builtins hashing floats first.0 id get_request 7)

-- the handle at the end, with its process
abbrev last_handle : WorkerHandle
last_handle = or_else (lookup id second.0.worker_pool.handles) handle

abbrev child : Process
child = or_else last_handle.process (record {
  worker_id = [];
  partition_id = 0;
  aof_path = [];
  fsync_policy = [];
  fsync_every_n = 0;
  name = [];
  alive = false;
})

-- The GET was sent before the SET was executed, and is answered with what the SET wrote.
second_computed :
    (process_receive builtins hashing floats first.0 id get_request 7
      ≡ some (second.0, ok second.1))
    × (lookup id second.0.worker_pool.handles ≡ some last_handle)
    × (last_handle.process ≡ some child)
    × (second.1.value ≡ some (text "v"))
unfolding process_receive execute_receive lookup insert Text-discrete decimal dispatch_send
    route_request execute_send Pooled.start start_all map_values make_pool make_handles work work_on
    ProcessWorker.start execute_command lite_store.Store.set lite_store.Store.process_expirations
    lite_store.Wheel.pop_due replay lite_store.Base.Text.strip make_persistence
    lite_store.Wheel.bucket_for_tick lite_store.Metrics.observe_command lite_store.CountMin.estimate
    lite_store.CountMin.increment lite_store.Store.get lite_store.Wheel.cancel start_handle
second_computed = (refl, refl, refl, refl)

no_log :
    AreUntimed (text "k") (replay json (make_persistence json (files child.aof_path) every_n 100))
unfolding replay make_persistence lite_store.Base.Text.strip
no_log = tt

abbrev last_system : System
last_system = record first_system { runtime = second.0 }

last_Reached :
    Reached c builtins json hashing floats paths files config last_system requests
      (extended id second.1 (extended id first.1 (λ id. [])))
last_Reached = taken id get_request 7 second.0 second.1 second_computed.0 first_Reached

plain : All (λ request. Untimed (text "k") request.command request.args) (requests id)
unfolding Text-discrete decimal
plain = (tt, (tt, tt))

Reached-IsAnswered_example :
    IsAnswered
      (text "k")
      (logged_value json (text "k") files child.aof_path)
      (requests id)
      (extended id second.1 (extended id first.1 (λ id. [])) id)
Reached-IsAnswered_example =
    Reached-IsAnswered c builtins json hashing floats paths files config (text "k") id last_handle
      child last_Reached second_computed.1 second_computed.2 no_log plain
