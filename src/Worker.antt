-- ===== src/Worker.antt =====
-- The worker of src/worker.py, which executes in the process of its caller, over any store.
pub mod Execution
use lite_store.Base.{
  some, ℕ, ◌+◌, ◌-◌, Bool, true, false, Option, none, List, ◌++◌, if◌then◌else◌, Result, ok, raised,
  pos,
}
use lite_store.Base.Text.{Text, text}
use lite_store.Base.Dict.{Dict}
use lite_store.Clock.{Time}
use lite_store.Builtins.{Builtins}
use lite_store.Interfaces.{StoreInterface}
use lite_store.Types.{CommandRequest, CommandResponse, WorkerStats}
use lite_store.Commands.{command_raised, execute_command}

pub record StoreWorker (S : Type 0) : Type 0 where
  pub worker_id : Text
  pub partition_id : ℕ
  pub store : S
  pub running : Bool
  pub in_flight : ℕ

module _ {S : Type 0} (store : StoreInterface S) where
  -- StoreWorker(worker_id, partition_id, store)
  abbrev pub make_worker : Text → ℕ → S → StoreWorker S
  make_worker worker_id partition_id s = record {
    worker_id = worker_id;
    partition_id = partition_id;
    store = s;
    running = false;
    in_flight = 0;
  }

  abbrev pub start_worker : StoreWorker S → StoreWorker S
  start_worker w = record w { running = true }

  abbrev pub stop_worker : StoreWorker S → StoreWorker S
  stop_worker w = record w { running = false }

  -- run_expiration_cycle
  unfoldable pub run_expiration_cycle : StoreWorker S → Option Time → StoreWorker S × ℕ
  run_expiration_cycle w now =
      let (s, count) = store.process_expirations w.store now in (record w { store = s }, count)

  unfoldable pub worker_snapshot : StoreWorker S → StoreWorker S × Dict Text Text
  worker_snapshot w = let (s, d) = store.snapshot w.store in (record w { store = s }, d)

  -- stats
  unfoldable pub stats : StoreWorker S → WorkerStats
  stats w = record {
    worker_id = w.worker_id;
    partition_id = w.partition_id;
    in_flight = pos w.in_flight;
    queued = 0;
  }

  module _ (b : Builtins) where
    -- the body of the `try` of `execute`, and its `finally`
    unfoldable pub execute_started :
        StoreWorker S → CommandRequest → StoreWorker S × CommandResponse
    execute_started w request =
        let (s, _) = store.process_expirations w.store none in
        let (s', r) = execute_command store b request s in
        (record w { store = s'; in_flight = w.in_flight + 1 - 1 }, r)

    -- the worker that `execute` leaves when it raises an OverflowError, after its `finally`
    unfoldable pub execute_raised : StoreWorker S → CommandRequest → Option (StoreWorker S)
    unfolding command_raised
    execute_raised w request =
        let (s, _) = store.process_expirations w.store none in
        if w.running
        then (elim (command_raised store b request request.command s request.args) [
          | none ↦ none
          | some s' ↦ some (record w { store = s'; in_flight = w.in_flight + 1 - 1 })
        ])
        else none

    -- execute; the error is the message of its RuntimeError
    unfoldable pub execute :
        StoreWorker S → CommandRequest → StoreWorker S × Result Text CommandResponse
    unfolding execute_started
    execute w request =
        if w.running
        then (let (w', r) = execute_started w request in (w', ok r))
        else (w, raised (text "Worker " ++ w.worker_id ++ text " is not running"))
