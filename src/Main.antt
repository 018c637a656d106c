-- ===== src/Main.antt =====
-- The entry of the program, src/main.py: from the command line to the end of the runtime.
--
-- argparse reads the command line; its result is `Arguments`. What the server does between its start and
-- its end is an argument; the end is an interrupt. An exception of the start leaves the program.
pub mod Runs
use lite_store.Base.{ℕ, ◌≡◌, refl, Bool, true, false, not, Result, ok, raised, ℤ, pos}
use lite_store.Base.Text.{Text, text}
use lite_store.Clock.{Time}
use lite_store.Builtins.{Builtins}
use lite_store.Interfaces.{StoreInterface}
use lite_store.Config.{LiteStoreConfig, default_config}
use lite_store.Router.{Hashing}
use lite_store.Persistence.{JsonLib}
use lite_store.Metrics.{Floats}
use lite_store.WorkerPool.{Paths}
use lite_store.Server.{LiteStoreRuntime, Crash}
use lite_store.Server.Start
use lite_store.Server.Pooled
use lite_store.Server.Pooled.{PooledRuntime}

-- the Namespace of `parse_args`
pub record Arguments : Type 0 where
  pub host : Text
  pub port : ℤ
  pub metrics_host : Text
  pub metrics_port : ℤ
  pub workers : ℤ
  pub aof_path : Text
  pub no_multiprocessing : Bool

-- `parse_args` on an empty command line: the defaults of the arguments
abbrev pub default_arguments : Arguments
default_arguments = record {
  host = text "127.0.0.1";
  port = pos 6379;
  metrics_host = text "127.0.0.1";
  metrics_port = pos 9100;
  workers = pos 4;
  aof_path = text "data/litestore.aof";
  no_multiprocessing = false;
}

-- the configuration of `main`
unfoldable pub config_of : Floats → Arguments → LiteStoreConfig
config_of f args = record (default_config f) {
  host = args.host;
  port = args.port;
  metrics_host = args.metrics_host;
  metrics_port = args.metrics_port;
  worker_count = args.workers;
  aof_path = args.aof_path;
  use_multiprocessing = not args.no_multiprocessing;
}

-- The runtime, in either mode.
pub data Runtime (S : Type 0) : Type 0 where
  in_process : LiteStoreRuntime S → Runtime S
  pooled : PooledRuntime → Runtime S

-- How `run_runtime` is left: by an exception of the construction or the start, with nothing closed, or by
-- the CancelledError of an interrupt, with the runtime after its `close`.
pub data Ended (S : Type 0) : Type 0 where
  failed : Crash → Ended S
  cancelled : Runtime S → Ended S

module _ {S : Type 0} (store : StoreInterface S) (b : Builtins) (json : JsonLib) (h : Hashing)
    (f : Floats) (paths : Paths) (fresh : ℕ → S) (files : Text → Text) where
  abbrev pub made_pooled : Result Crash PooledRuntime → Result Crash (Runtime S)
  made_pooled (raised e) = raised e
  made_pooled (ok rt) = ok (pooled rt)

  abbrev pub made_in_process : Result Crash (LiteStoreRuntime S) → Result Crash (Runtime S)
  made_in_process (raised e) = raised e
  made_in_process (ok rt) = ok (in_process rt)

  -- LiteStoreRuntime(config), on the files that are there
  abbrev pub made : LiteStoreConfig → Bool → Result Crash (Runtime S)
  made config true = made_pooled (Pooled.init config)
  made config false =
      made_in_process (Start.init store b json h f fresh (files config.aof_path) config)

  -- a server in one process whose start has returned or raised
  abbrev pub replayed : LiteStoreRuntime S × Result Crash (Unit {0}) → Result Crash (Runtime S)
  replayed (rt, raised e) = raised e
  replayed (rt, ok _) = ok (in_process rt)

  -- await runtime.start()
  abbrev pub started : Runtime S → Result Crash (Runtime S)
  started (pooled rt) = ok (pooled (Pooled.start paths rt))
  started (in_process rt) = replayed (Start.start store b json h f rt)

  -- await runtime.close()
  abbrev pub closed : Runtime S → Runtime S
  closed (pooled rt) = pooled (Pooled.close rt)
  closed (in_process rt) = in_process (Start.close store b json h f rt)

  abbrev pub served : (Runtime S → Runtime S) → Result Crash (Runtime S) → Ended S
  served serve (raised e) = failed e
  served serve (ok rt) = cancelled (closed (serve rt))

  abbrev pub begun : (Runtime S → Runtime S) → Result Crash (Runtime S) → Ended S
  begun serve (raised e) = failed e
  begun serve (ok rt) = served serve (started rt)

  -- run_runtime(config); the event that it waits for is never set, so that only the cancellation ends
  -- the wait
  unfoldable pub run_runtime : (Runtime S → Runtime S) → LiteStoreConfig → Ended S
  unfolding Pooled.init Pooled.start Pooled.close Start.init Start.start Start.close
  run_runtime serve config = begun serve (made config config.use_multiprocessing)

  -- asyncio.run, and the `except` of `main`: the KeyboardInterrupt that cancelled it does not leave
  abbrev interrupted : Ended S → Result Crash (Runtime S)
  interrupted (failed e) = raised e
  interrupted (cancelled rt) = ok rt

  unfoldable pub main : (Runtime S → Runtime S) → Arguments → Result Crash (Runtime S)
  unfolding run_runtime config_of
  main serve args = interrupted (run_runtime serve (config_of f args))

  -- An empty command line runs the default configuration: the defaults of the arguments are those of
  -- the configuration.
  pub main_default :
      (serve : Runtime S → Runtime S)
      → main serve default_arguments ≡ interrupted (run_runtime serve (default_config f))
  unfolding main config_of
  main_default serve = refl
