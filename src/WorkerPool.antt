-- ===== src/WorkerPool.antt =====
-- The pool of worker processes of src/worker_pool.py.
--
-- A queue is the list of what was put and not yet taken. `execute` has two steps, since other
-- requests may come between them: `send_request`, which puts the request, and `receive_response`,
-- which takes what the response queue has first. A process is what it is started with, and
-- what runs in it is the worker process.
pub mod Channels
pub mod Answers
pub mod Order
pub mod Exchange
pub mod Values
pub mod Started
use lite_store.Base.{
  ℕ, zero, suc, Bool, true, false, Option, none, some, List, [], ◌∷◌, ◌++◌, map, if◌then◌else◌, ℤ,
  pos_part,
}
use lite_store.Base.Text.{Text, text, text_key, decimal}
use lite_store.Base.Dict.{Dict, lookup, insert, map_values}
use lite_store.Types.{
  CommandRequest, CommandResponse, FsyncPolicy, never, always, every_n, WorkerRequest,
  WorkerResponse, WorkerControl,
}

-- pathlib.Path, on the texts of paths
pub record Paths : Type 0 where
  pub parent : Text → Text
  pub stem : Text → Text
  pub suffix : Text → Text
  -- path / name
  pub join : Text → Text → Text

-- FsyncPolicy.value
abbrev pub policy_value : FsyncPolicy → Text
policy_value never = text "never"
policy_value always = text "always"
policy_value every_n = text "every_n"

-- What a request queue carries.
pub data Message : Type 0 where
  requested : WorkerRequest → Message
  controlled : WorkerControl → Message

-- The arguments that a process is started with, but for the queues of its handle.
pub record Process : Type 0 where
  pub worker_id : Text
  pub partition_id : ℕ
  pub aof_path : Text
  pub fsync_policy : Text
  pub fsync_every_n : ℕ
  pub name : Text
  pub alive : Bool

-- _WorkerHandle
pub record WorkerHandle : Type 0 where
  pub worker_id : Text
  pub partition_id : ℕ
  pub request_queue : List Message
  pub response_queue : List WorkerResponse
  pub process : Option Process

pub record WorkerPool : Type 0 where
  pub worker_count : ℤ
  pub aof_base_path : Text
  pub fsync_policy : FsyncPolicy
  pub fsync_every_n : ℕ
  pub handles : Dict Text WorkerHandle

-- _WorkerHandle(worker_id, partition_id)
abbrev pub make_handle : Text → ℕ → WorkerHandle
make_handle worker_id partition_id = record {
  worker_id = worker_id;
  partition_id = partition_id;
  request_queue = [];
  response_queue = [];
  process = none;
}

-- the loop of `__init__`, for the numbers from `i` on
unfoldable pub make_handles : ℕ → ℕ → Dict Text WorkerHandle → Dict Text WorkerHandle
make_handles i zero handles = handles
make_handles i (suc n) handles =
    let worker_id = text "w" ++ decimal i in
    make_handles (suc i) n (insert worker_id (make_handle worker_id i) handles)

-- WorkerPool(worker_count, aof_base_path, fsync_policy, fsync_every_n)
unfoldable pub make_pool : ℤ → Text → FsyncPolicy → ℕ → WorkerPool
unfolding make_handles
make_pool worker_count aof_base_path fsync_policy fsync_every_n = record {
  worker_count = worker_count;
  aof_base_path = aof_base_path;
  fsync_policy = fsync_policy;
  fsync_every_n = fsync_every_n;
  handles = make_handles 0 (pos_part worker_count) [];
}

-- the property `worker_ids`
unfoldable pub worker_ids : WorkerPool → List Text
worker_ids p = map (λ entry. entry.0) p.handles

-- _aof_path_for_worker
unfoldable pub aof_path_for_worker : Paths → WorkerPool → Text → Text
aof_path_for_worker paths p worker_id =
    paths.join (paths.parent p.aof_base_path)
      (paths.stem p.aof_base_path ++ text "-" ++ worker_id ++ paths.suffix p.aof_base_path)

-- the body of the loop of `start_all`
unfoldable pub start_handle : Paths → WorkerPool → WorkerHandle → WorkerHandle
unfolding aof_path_for_worker
start_handle paths p handle = record handle {
  process = some (record {
    worker_id = handle.worker_id;
    partition_id = handle.partition_id;
    aof_path = aof_path_for_worker paths p handle.worker_id;
    fsync_policy = policy_value p.fsync_policy;
    fsync_every_n = p.fsync_every_n;
    name = text "litestore-" ++ handle.worker_id;
    alive = true;
  });
}

unfoldable pub start_all : Paths → WorkerPool → WorkerPool
unfolding start_handle map_values
start_all paths p = record p { handles = map_values (start_handle paths p) p.handles }

-- request.request_id or str(uuid.uuid4())
abbrev pub id_or : Option Text → Text → Text
id_or (some (c ∷ id)) uuid = c ∷ id
id_or _ uuid = uuid

-- `execute` to the put, on the handle
unfoldable pub send_request : WorkerHandle → CommandRequest → Text → WorkerHandle
send_request handle request uuid = record handle {
  request_queue =
      handle.request_queue
      ++ requested (record {
        request_id = id_or request.request_id uuid;
        command = request.command;
        args = request.args;
        client_id = request.client_id;
      })
        ∷ [];
}

-- the CommandResponse of `execute`, which leaves `values` at its default
unfoldable pub command_response : WorkerResponse → CommandResponse
command_response response = record {
  kind = response.kind;
  message = response.message;
  value = response.value;
  integer = response.integer;
  error_code = response.error_code;
  request_id = some response.request_id;
  values = [];
}

-- `execute` from the get on, by what the response queue has; `none` while it waits
abbrev pub receive_from :
    WorkerHandle → List WorkerResponse → Option (WorkerHandle × CommandResponse)
receive_from handle [] = none
receive_from handle (response ∷ rest) =
    some (record handle { response_queue = rest }, command_response response)

unfoldable pub receive_response : WorkerHandle → Option (WorkerHandle × CommandResponse)
unfolding command_response
receive_response handle = receive_from handle handle.response_queue

abbrev pub send_at :
    WorkerPool → Text → CommandRequest → Text → Option WorkerHandle → Option WorkerPool
send_at p worker_id request uuid none = none
send_at p worker_id request uuid (some handle) =
    some (record p { handles = insert worker_id (send_request handle request uuid) p.handles })

-- `execute` to the put, with `none` for the KeyError of an unknown worker
unfoldable pub execute_send : WorkerPool → Text → CommandRequest → Text → Option WorkerPool
unfolding send_request
execute_send p worker_id request uuid =
    send_at p worker_id request uuid (lookup worker_id p.handles)

-- the pool with what `execute` leaves of the handle
abbrev pub put_back :
    WorkerPool
    → Text
    → Option (WorkerHandle × CommandResponse)
    → Option (WorkerPool × CommandResponse)
put_back p worker_id none = none
put_back p worker_id (some (handle, response)) =
    some (record p { handles = insert worker_id handle p.handles }, response)

abbrev pub receive_at :
    WorkerPool → Text → Option WorkerHandle → Option (WorkerPool × CommandResponse)
receive_at p worker_id none = none
receive_at p worker_id (some handle) = put_back p worker_id (receive_response handle)

-- `execute` from the get on, on the handle that it has looked up; `none` while it waits
unfoldable pub execute_receive : WorkerPool → Text → Option (WorkerPool × CommandResponse)
unfolding receive_response
execute_receive p worker_id = receive_at p worker_id (lookup worker_id p.handles)

-- handle.request_queue.put(WorkerControl(action="shutdown"))
unfoldable pub send_shutdown : WorkerHandle → WorkerHandle
send_shutdown handle = record handle {
  request_queue =
      handle.request_queue
      ++ controlled (record { action = text "shutdown"; request_id = none }) ∷ [];
}

-- the body of the second loop of `shutdown_all`: the join ends the process, or `terminate` does
unfoldable pub join_process : WorkerHandle → WorkerHandle
join_process handle = record handle {
  process = elim handle.process [
    | none ↦ none
    | some process ↦ some (record process { alive = false })
  ];
}

-- shutdown_all; what the processes do between its two loops is not a part of it
unfoldable pub shutdown_all : WorkerPool → WorkerPool
unfolding send_shutdown join_process map_values
shutdown_all p = record p { handles = map_values join_process (map_values send_shutdown p.handles) }
