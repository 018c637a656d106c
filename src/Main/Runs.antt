-- ===== src/Main/Runs.antt =====
-- When the program runs, and when it ends in an exception.
use lite_store.Base.{ℕ, ◌≡◌, Bool, Result, ok}
use lite_store.Base.Text.{Text}
use lite_store.Clock.{Clock}
use lite_store.Builtins.{Builtins}
use lite_store.Interfaces.{memory_store}
use lite_store.Config.{LiteStoreConfig}
use lite_store.Store.{MemoryStore}
use lite_store.Router.{Hashing, make_router}
use lite_store.Persistence.{JsonLib}
use lite_store.Metrics.{Floats}
use lite_store.WorkerPool.{Paths}
use lite_store.Server.{LiteStoreRuntime, Crash}
use lite_store.Server.Start
use lite_store.Server.Start.{worker_ids, make_runtime}
use lite_store.Server.Pooled
use lite_store.Main.{Runtime, made, run_runtime, Ended, cancelled, closed, started}

module _ (c : Clock) (b : Builtins) (json : JsonLib) (h : Hashing) (f : Floats) (paths : Paths)
    (fresh : ℕ → MemoryStore) (files : Text → Text)
    (serve : Runtime MemoryStore → Runtime MemoryStore) (config : LiteStoreConfig) where
  abbrev run : Ended MemoryStore
  run = run_runtime (memory_store c b) b json h f paths fresh files serve config

  abbrev content : Text
  content = files config.aof_path

  abbrev made_with : (n : ℕ) → Result Crash (LiteStoreRuntime MemoryStore)
  made_with n =
      make_runtime (memory_store c b) b json h f fresh content (worker_ids 0 n)
        (make_router (worker_ids 0 n))

  -- The server is made and started, and what it then becomes is closed.
  abbrev pub Runs : Bool → Ended MemoryStore → Type 0
  Runs mode end =
      (rt rt' : Runtime MemoryStore) × (made (memory_store c b) b json h f paths fresh files config
          mode
        ≡ ok rt)
      × (started (memory_store c b) b json h f paths fresh files rt ≡ ok rt')
      × (end ≡ cancelled (closed (memory_store c b) b json h f paths fresh files (serve rt')))
