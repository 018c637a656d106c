-- ===== src/Tests/Restarts.antt =====
-- A worker process that ends and starts again.
use lite_store.Base.{
  ◌-◌, ◌+◌, ℕ, ◌≡◌, refl, arith, true, false, if-elim, Option, none, some, List, [], ◌∷◌, ℤ, pos,
  negsuc, inl, ap, ok, ◌++◌, subst, sym,
}
use lite_store.Base.Text.{Text, text, text_key, decimal, strip}
use lite_store.Base.Dict.{lookup}
use lite_store.Clock.{Clock}
use lite_store.Types.{
  CommandName, CommandRequest, CommandResponse, PersistRecord, FsyncPolicy, always, every_n,
}
use lite_store.Persistence.{
  AofPersistence, Json, JsonLib, object, field, int, replay, payload, make_persistence,
}
use lite_store.Persistence.Replay.{IsPrinted}
use lite_store.ProcessWorker
use lite_store.ProcessWorker.{Event, nothing, controlled, requested, start, run_loop, is_write}
use lite_store.ProcessWorker.Logged.{AreUntimed}
use lite_store.ProcessWorker.Restart.{IsPlain, restart_restores}
use lite_store.Config.{LiteStoreConfig, default_config}
use lite_store.Interfaces.{memory_store}
use lite_store.Store.{MemoryStore}
use lite_store.Router.{routing, make_router}
use lite_store.Metrics.{make_metrics}
use lite_store.Server.{LiteStoreRuntime, appended, dispatch_request}
use lite_store.Server.Start.{init, make_runtime, make_workers, worker_ids}
use lite_store.Server.Values
use lite_store.Server.Started.{fresh}
use lite_store.Server.Restorable
use lite_store.Server.Restart.{begun, answer_all, restart_answers}
use lite_store.Tests.HotKeys.{floats}
use lite_store.Tests.{builtins}
use lite_store.Tests.Servers.{hashing, c, set_request, request_of, message}

abbrev record_at : ℤ → PersistRecord
record_at n = record { sequence = n; request = set_request }

-- A short form of the records of one request: a character for the sequence, and a dash after it for a
-- negative one.
abbrev short : JsonLib
short = record { dumps = print; loads = read }
  where
    print : Json → Text
    print (object (field _ (int (pos n)) _)) = (20000 + n) ∷ []
    print (object (field _ (int (negsuc n)) _)) = (20000 + n) ∷ 45 ∷ []
    print _ = []

    read : Text → Option Json
    read (m ∷ []) = some (payload (record_at (pos (m - 20000))))
    read (m ∷ _ ∷ []) = some (payload (record_at (negsuc (m - 20000))))
    read _ = none

back : (n : ℕ) → (20000 + n) - 20000 ≡ n
back n = omega arith

short-IsPrinted : (n : ℤ) → IsPrinted short (record_at n)
unfolding payload strip
short-IsPrinted (pos n) = record {
  read_back = ap (λ m. some (payload (record_at (pos m)))) (back n);
  one_line = ground arith;
  stripped = ground arith;
  visible = λ e. cc;
}
short-IsPrinted (negsuc n) = record {
  read_back = ap (λ m. some (payload (record_at (negsuc m)))) (back n);
  one_line = ground arith;
  stripped = ground arith;
  visible = λ e. cc;
}

abbrev get_request : CommandRequest
get_request = request_of CommandName.get (text "k" ∷ [])

-- A SET, a pause, a GET, and the shutdown.
abbrev events : List Event
events =
    requested (message set_request (text "1"))
    ∷ nothing
    ∷ requested (message get_request (text "b"))
    ∷ controlled (record { action = text "shutdown"; request_id = none })
    ∷ []

get_unlogged :
    (r : CommandResponse)
    → is_write (ProcessWorker.request_of (message get_request (text "b"))) r ≡ false
unfolding is_write
get_unlogged r = if-elim (λ t. t ≡ false) (ProcessWorker.is_error r.kind) refl refl

set-IsPlain : IsPlain short (text "k") (requested (message set_request (text "1")))
set-IsPlain = (tt, λ n r e. short-IsPrinted n)

get-IsPlain : IsPlain short (text "k") (requested (message get_request (text "b")))
get-IsPlain = (tt, λ n r e. absurd (unlogged r e))
  where
    unlogged :
        (r : CommandResponse)
        → is_write (ProcessWorker.request_of (message get_request (text "b"))) r ≡ true
        → ⊥
    unlogged r e = cc (get_unlogged r, e)

empty_log : (policy : FsyncPolicy) (n : ℕ) → replay short (make_persistence short [] policy n) ≡ []
unfolding replay make_persistence strip
empty_log policy n = refl

restart_restores_example :
    (p : AofPersistence) × ((run_loop c builtins short
        (start c builtins short (some []) always 1)
        events).persistence
      ≡ some p)
    × (always ≡ always → p.unsynced ≡ [])
    × ((c' : Clock) (policy' : FsyncPolicy) (n' : ℕ)
        → lookup (text "k") (start c' builtins short (some p.content) policy' n').store.items
          ≡ lookup
              (text "k")
              (run_loop c builtins short
                (start c builtins short (some []) always 1)
                events).store.items)
restart_restores_example =
    restart_restores c builtins short (text "k") [] always 1 events (inl refl)
      (subst (AreUntimed (text "k")) (sym (empty_log always 1)) tt)
      (set-IsPlain, (tt, (get-IsPlain, (tt, tt))))

-- The server on the same requests, with two workers, and then with three.
abbrev two_workers : LiteStoreConfig
two_workers = record (default_config floats) { worker_count = pos 2 }

abbrev three_workers : LiteStoreConfig
three_workers = record (default_config floats) { worker_count = pos 3 }

abbrev server : Text → List Text → Text → LiteStoreRuntime MemoryStore
server content ids w = record {
  router = routing w ids;
  workers = make_workers (memory_store c builtins) (fresh c) 0 (w ∷ ids) [];
  persistence = make_persistence short content every_n 100;
  metrics = make_metrics;
  connection_sequence = 0;
}

abbrev first : LiteStoreRuntime MemoryStore
first = server [] (worker_ids 1 1) (text "w" ++ decimal 0)

first_made :
    init (memory_store c builtins) builtins short hashing floats (fresh c) [] two_workers ≡ ok first
unfolding init make_runtime worker_ids make_router
first_made = refl

abbrev requests : List CommandRequest
requests = set_request ∷ get_request ∷ []

abbrev last : LiteStoreRuntime MemoryStore
last =
    answer_all c builtins short hashing floats (text "k")
      (begun c builtins short hashing floats (text "k") first) requests

abbrev second : LiteStoreRuntime MemoryStore
second = server last.persistence.content (worker_ids 1 2) (text "w" ++ decimal 0)

second_made :
    init
      (memory_store c builtins)
      builtins
      short
      hashing
      floats
      (fresh c)
      last.persistence.content
      three_workers
    ≡ ok second
unfolding init make_runtime worker_ids make_router
second_made = refl

set-IsPlainRequest : Restorable.IsPlainRequest short (text "k") set_request
set-IsPlainRequest = (tt, λ n r e. short-IsPrinted n)

get-IsPlainRequest : Restorable.IsPlainRequest short (text "k") get_request
get-IsPlainRequest = (tt, λ n r e. absurd (cc (Values.get_unlogged r.kind r.integer, e)))

restart_answers_example :
    (dispatch_request
      (memory_store c builtins)
      builtins
      short
      hashing
      floats
      (begun c builtins short hashing floats (text "k") second)
      get_request
      appended).1
    ≡ (dispatch_request
        (memory_store c builtins)
        builtins
        short
        hashing
        floats
        last
        get_request
        appended).1
restart_answers_example =
    restart_answers c builtins short hashing floats (text "k") [] two_workers three_workers first
      second requests get_request first_made (inl refl)
      (subst (AreUntimed (text "k")) (sym (empty_log every_n 100)) tt)
      (set-IsPlainRequest, (get-IsPlainRequest, tt)) second_made refl refl
