-- ===== src/ProcessWorker/Runs.antt =====
-- What the worker process keeps through every run of its loop.
use lite_store.Store.Reachable.{replayed-IsSynced}
use lite_store.Base.{
  ℕ, ite-elim, Bool, true, false, Option, none, some, List, [], ◌∷◌, if◌then◌else◌, if-elim,
}
use lite_store.Base.Text.{Text, text, Text-discrete}
use lite_store.Clock.{Clock, IsRegular}
use lite_store.Builtins.{Builtins}
use lite_store.Interfaces.{memory_store}
use lite_store.Types.{
  CommandRequest, CommandResponse, WorkerRequest, WorkerControl, PersistRecord, FsyncPolicy,
}
use lite_store.Store
use lite_store.Store.{MemoryStore, time_source, process_expirations, processed}
use lite_store.Store.Synced.{IsSynced}
use lite_store.Store.Methods.{init-IsSynced, read-IsSynced, process_expirations-IsSynced}
use lite_store.Commands.Keeps.{execute_command-keeps, memory_store-Keeps}
use lite_store.Persistence.{AofPersistence, JsonLib, append_request, make_persistence, replay}
use lite_store.Persistence.Durability.{
  make_persistence-IsLogged, IsLogged, append_request-IsLogged, close-IsLogged,
}
use lite_store.ProcessWorker
use lite_store.ProcessWorker.{nothing, controlled, requested}

-- The log is in order, if there is one.
abbrev pub IsKept : Option AofPersistence → Type 0
IsKept none = Unit {0}
IsKept (some p) = IsLogged p

-- The store's two records of the deadlines agree, and the log keeps the bounds of its policy.
pub record IsWorking (c : Clock) (w : ProcessWorker.WorkerProcess) : Type 0 where
  pub store : IsSynced c w.store
  pub log : IsKept w.persistence

module _ (c : Clock) (b : Builtins) (json : JsonLib) where
  log_write-IsKept :
      (o : Option AofPersistence) (request : CommandRequest) (r : CommandResponse)
      → IsKept o
      → IsKept (ProcessWorker.log_write json o request r)
  log_write-IsKept none request r h = unfold ProcessWorker.log_write in tt
  log_write-IsKept (some p) request r h =
      unfold ProcessWorker.log_write in go (ProcessWorker.is_write request r)
    where
      go : (t : Bool) → IsKept (if t then some (append_request json p request).0 else some p)
      go true = append_request-IsLogged json p request h
      go false = h

  close_log-IsKept :
      (o : Option AofPersistence) → IsKept o → IsKept (ProcessWorker.close_log c b json o)
  close_log-IsKept none h = tt
  close_log-IsKept (some p) h = close-IsLogged json p h

  module _ (regular : IsRegular c) where
    expiration_cycle-IsWorking :
        (w : ProcessWorker.WorkerProcess)
        → IsWorking c w
        → IsWorking c (ProcessWorker.expiration_cycle c b json w)
    expiration_cycle-IsWorking w h =
        unfold ProcessWorker.expiration_cycle in
        go (c.overdue (time_source c w.store).1 w.last_expiration)
      where
        go :
            (t : Bool)
            → IsWorking c (
                if t
                then record w {
                  store = (process_expirations c (time_source c w.store).0 none).0;
                  last_expiration = (time_source c w.store).1;
                }
                else record w { store = (time_source c w.store).0 })
        go true = record {
          store =
              process_expirations-IsSynced c regular (time_source c w.store).0 none
                (read-IsSynced c regular w.store h.store);
          log = h.log;
        }
        go false = record { store = read-IsSynced c regular w.store h.store; log = h.log }

    handle_request-IsWorking :
        (w : ProcessWorker.WorkerProcess) (msg : WorkerRequest)
        → IsWorking c w
        → IsWorking c (ProcessWorker.handle_request c b json w msg)
    unfolding ProcessWorker.handle_request
    handle_request-IsWorking w msg h = record {
      store =
          execute_command-keeps (memory_store c b) b (memory_store-Keeps c b regular)
            (ProcessWorker.request_of msg) w.store h.store;
      log = log_write-IsKept w.persistence (ProcessWorker.request_of msg) _ h.log;
    }

    handle_control-IsWorking :
        (w : ProcessWorker.WorkerProcess) (msg : WorkerControl)
        → IsWorking c w
        → IsWorking c (ProcessWorker.handle_control c b json w msg)
    unfolding ProcessWorker.handle_control
    handle_control-IsWorking w msg h =
        ite-elim (IsWorking c) (Text-discrete msg.action (text "shutdown")) shut
          (ite-elim (IsWorking c) (Text-discrete msg.action (text "snapshot")) snapped h)
      where
        shut : IsWorking c (ProcessWorker.shutdown c b json w)
        shut =
            unfold ProcessWorker.shutdown in
            record { store = h.store; log = close_log-IsKept w.persistence h.log }

        snapped : IsWorking c (ProcessWorker.answer_snapshot c b json w msg.request_id)
        snapped =
            unfold ProcessWorker.answer_snapshot Store.snapshot in
            record {
              store = process_expirations-IsSynced c regular w.store none h.store;
              log = h.log;
            }

    round-IsWorking :
        (w : ProcessWorker.WorkerProcess) (e : ProcessWorker.Event)
        → IsWorking c w
        → IsWorking c (ProcessWorker.round c b json w e)
    unfolding ProcessWorker.round
    round-IsWorking w nothing h = expiration_cycle-IsWorking w h
    round-IsWorking w (controlled msg) h =
        expiration_cycle-IsWorking (ProcessWorker.handle_control c b json w msg)
          (handle_control-IsWorking w msg h)
    round-IsWorking w (requested msg) h =
        expiration_cycle-IsWorking (ProcessWorker.handle_request c b json w msg)
          (handle_request-IsWorking w msg h)

    -- On a regular clock, for every sequence of messages and pauses, to the EXPIRE that ends the process
    -- with an OverflowError, if one does: the loop keeps the store's two records of the deadlines in
    -- agreement, and the log within its fsync policy: with ALWAYS every line that was appended is on
    -- the disk, with EVERY_N and N positive fewer than N are not, and these are the last of the file.
    pub run_loop-IsWorking :
        (events : List ProcessWorker.Event) (w : ProcessWorker.WorkerProcess)
        → IsWorking c w
        → IsWorking c (ProcessWorker.run_loop c b json w events)
    unfolding ProcessWorker.run_loop
    run_loop-IsWorking [] w h = h
    run_loop-IsWorking (e ∷ events) w h =
        if-elim (IsWorking c) w.running
          (if-elim (IsWorking c) (ProcessWorker.overflows c b json w e) h
            (run_loop-IsWorking events (ProcessWorker.round c b json w e) (round-IsWorking w e h)))
          h

    replay_all-IsSynced :
        (records : List PersistRecord) (s : MemoryStore)
        → IsSynced c s
        → IsSynced c (ProcessWorker.replay_all c b json s records)
    unfolding ProcessWorker.replay_all
    replay_all-IsSynced [] s v = v
    replay_all-IsSynced (r ∷ records) s v =
        replay_all-IsSynced records (Store.apply_replay_request c b s r.request)
          (replayed-IsSynced c b regular s r.request v)

    -- On a regular clock, whatever the log's file holds and also without one: the worker that
    -- has replayed it starts with a synced store and a log within the bounds of its policy.
    pub start-IsWorking :
        (content : Option Text) (policy : FsyncPolicy) (n : ℕ)
        → IsWorking c (ProcessWorker.start c b json content policy n)
    unfolding ProcessWorker.start ProcessWorker.recovered
    start-IsWorking none policy n = record {
      store = read-IsSynced c regular (Store.init c) (init-IsSynced c regular);
      log = tt;
    }
    start-IsWorking (some text) policy n =
        let p = make_persistence json text policy n in
        let recovered =
          replay_all-IsSynced (replay json p) (Store.init c) (init-IsSynced c regular) in
        record {
          store = read-IsSynced c regular (ProcessWorker.recovered c b json (some p)) recovered;
          log = make_persistence-IsLogged json text policy n;
        }
