-- ===== src/Server/Pooled/System.antt =====
-- The server with its worker processes, and every interleaving of its connections and of them.
use lite_store.Base.{false, ℕ, ◌≡◌, ite, Option, some, List, [], ◌∷◌, ◌++◌, ok}
use lite_store.Base.Text.{Text, text_key}
use lite_store.Base.Dict.{Dict, lookup, insert}
use lite_store.Clock.{Clock, Time}
use lite_store.Builtins.{Builtins}
use lite_store.Config.{LiteStoreConfig}
use lite_store.Types.{CommandRequest, CommandResponse}
use lite_store.Persistence.{JsonLib}
use lite_store.ProcessWorker.{WorkerProcess}
use lite_store.ProcessWorker.Entry.{worker_entry}
use lite_store.Router.{Hashing}
use lite_store.Metrics.{Floats}
use lite_store.WorkerPool.{Paths, WorkerHandle, Process}
use lite_store.WorkerPool.Channels.{Channel, work, seen, next_overflows}
use lite_store.Server.Pooled
use lite_store.Server.Pooled.{
  PooledRuntime, Progress, waiting, answered, dispatch_send, put_on, metered, received,
  process_receive, next_connection_id, make_pooled,
}

-- The server, and the processes by the ids of their workers.
pub record System : Type 0 where
  pub runtime : PooledRuntime
  pub processes : Text → WorkerProcess

-- one more for the worker
abbrev pub extended : {A : Type 0} → Text → A → (Text → List A) → Text → List A
extended worker_id x f j = ite (text_key.decide worker_id j) (f j ++ x ∷ []) (f j)

abbrev pub replaced : Text → WorkerProcess → (Text → WorkerProcess) → Text → WorkerProcess
replaced worker_id process f j = ite (text_key.decide worker_id j) process (f j)

abbrev pub handles_of : System → Dict Text WorkerHandle
handles_of sys = sys.runtime.worker_pool.handles

abbrev pub with_handle : PooledRuntime → Text → WorkerHandle → PooledRuntime
with_handle rt id handle = record rt {
  worker_pool = record rt.worker_pool { handles = insert id handle rt.worker_pool.handles };
}

abbrev pub channel : System → Text → WorkerHandle → Channel
channel sys id handle = record { handle = handle; process = sys.processes id }

module _ (c : Clock) (b : Builtins) (json : JsonLib) (h : Hashing) (f : Floats) (paths : Paths)
    (files : Text → Text) (config : LiteStoreConfig) where
  -- What the server and its processes come to, from the start on, until it closes: the requests that
  -- were sent to each worker, and the responses that were taken from it. A process that an EXPIRE ends
  -- with an OverflowError works no more.
  pub data Reached
      : System → (Text → List CommandRequest) → (Text → List CommandResponse) → Type 0 where
    begun :
        (rt : PooledRuntime) (processes : Text → WorkerProcess)
        → Pooled.init config ≡ ok rt
        → ((id : Text) (handle : WorkerHandle) (p : Process)
            → lookup id (Pooled.start paths rt).worker_pool.handles ≡ some handle
            → handle.process ≡ some p
            → worker_entry c b json files (some p.aof_path) p.fsync_policy p.fsync_every_n
              ≡ some (processes id))
        → Reached
            (record { runtime = Pooled.start paths rt; processes = processes })
            (λ id. [])
            (λ id. [])
    connected :
        {sys : System} {out : Text → List CommandRequest} {back : Text → List CommandResponse}
        → (peer : Option (Text × ℕ)) → Reached sys out back
        → Reached (record sys { runtime = (next_connection_id sys.runtime peer).0 }) out back
    asked :
        {sys : System} {out : Text → List CommandRequest} {back : Text → List CommandResponse}
        → (request : CommandRequest) (uuid : Text) (rt : PooledRuntime) (id : Text)
        → dispatch_send b h f sys.runtime request uuid ≡ (rt, ok (waiting id request))
        → Reached sys out back
        → Reached (record sys { runtime = rt }) (extended id (seen request uuid) out) back
    worked :
        {sys : System} {out : Text → List CommandRequest} {back : Text → List CommandResponse}
        → (id : Text) (handle : WorkerHandle) → lookup id (handles_of sys) ≡ some handle
        → next_overflows c b json (channel sys id handle) ≡ false
        → Reached sys out back
        → Reached
            (record {
              runtime = with_handle sys.runtime id (work c b json (channel sys id handle)).handle;
              processes = replaced id (work c b json (channel sys id handle)).process sys.processes;
            })
            out
            back
    taken :
        {sys : System} {out : Text → List CommandRequest} {back : Text → List CommandResponse}
        → (id : Text) (request : CommandRequest) (duration : Time) (rt : PooledRuntime)
        → (r : CommandResponse)
        → process_receive b h f sys.runtime id request duration ≡ some (rt, ok r)
        → Reached sys out back
        → Reached (record sys { runtime = rt }) out (extended id r back)
