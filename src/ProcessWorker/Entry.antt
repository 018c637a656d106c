-- ===== src/ProcessWorker/Entry.antt =====
-- The start of a worker process, `worker_entry` of src/process_worker.py, from the arguments that the
-- pool passes.
use mathlib.Core.Option.{some-injective}
use lite_store.Base.{ℕ, ◌≡◌, sym, ap, true, Option, none, some, ◌∷◌, ite}
use lite_store.Base.Text.{Text, text, Text-discrete}
use lite_store.Clock.{Clock}
use lite_store.Builtins.{Builtins}
use lite_store.Types.{FsyncPolicy, never, always, every_n}
use lite_store.Persistence.{JsonLib}
use lite_store.ProcessWorker.{WorkerProcess, start}

-- FsyncPolicy(value), with `none` for its ValueError
unfoldable pub policy_of : Text → Option FsyncPolicy
policy_of value = ite (Text-discrete value (text "never")) (some never) (
    ite (Text-discrete value (text "always")) (some always)
      (ite (Text-discrete value (text "every_n")) (some every_n) none))

module _ (c : Clock) (b : Builtins) (json : JsonLib) where
  -- the content of the file at the path, if there is a path
  abbrev pub content_at : (Text → Text) → Option Text → Option Text
  content_at files (some (ch ∷ path)) = some (files (ch ∷ path))
  content_at files _ = none

  -- `worker_entry` once its policy is read
  abbrev pub entered : (Text → Text) → Option Text → ℕ → Option FsyncPolicy → Option WorkerProcess
  entered files aof_path fsync_every_n none = none
  entered files aof_path fsync_every_n (some policy) =
      some (start c b json (content_at files aof_path) policy fsync_every_n)

  -- `worker_entry`, up to the loop of `run`, for the files that are there; `none` for a ValueError
  unfoldable pub worker_entry : (Text → Text) → Option Text → Text → ℕ → Option WorkerProcess
  unfolding policy_of start
  worker_entry files aof_path fsync_policy fsync_every_n =
      entered files aof_path fsync_every_n (policy_of fsync_policy)

  -- A process that is started runs.
  pub worker_entry-running :
      (files : Text → Text) (aof_path : Option Text) (fsync_policy : Text) (n : ℕ)
      (w : WorkerProcess)
      → worker_entry files aof_path fsync_policy n ≡ some w
      → w.running ≡ true
  unfolding worker_entry start
  worker_entry-running files aof_path fsync_policy n w = go (policy_of fsync_policy)
    where
      go : (o : Option FsyncPolicy) → entered files aof_path n o ≡ some w → w.running ≡ true
      go none e = absurd cc
      go (some policy) e = sym (ap (λ (v : WorkerProcess). v.running) (some-injective _ _ e))
