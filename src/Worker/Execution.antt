-- ===== src/Worker/Execution.antt =====
-- What the started worker does.
use lite_store.Base.{◌≡◌, ok, if_true, true}
use lite_store.Builtins.{Builtins}
use lite_store.Interfaces.{StoreInterface}
use lite_store.Types.{CommandRequest}
use lite_store.Worker.{StoreWorker, execute, execute_started}

-- A started worker executes.
pub execute_running :
    {S : Type 0} (store : StoreInterface S) (b : Builtins) (w : StoreWorker S)
    (request : CommandRequest)
    → w.running ≡ true
    → execute store b w request
      ≡ ((execute_started store b w request).0, ok (execute_started store b w request).1)
unfolding execute
execute_running store b w request running = if_true w.running _ _ running
