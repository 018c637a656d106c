-- ===== src/WorkerPool/Started.antt =====
-- The processes that the pool starts, with the arguments that it passes to them.
use mathlib.Core.Option.{some-injective}
use lite_store.Base.{◌≡◌, ◌∙◌, refl, ap, subst, some}
use lite_store.Base.Text.{Text, text_key, Text-discrete}
use lite_store.Base.Dict.{lookup, lookup-map_values_from}
use lite_store.Clock.{Clock}
use lite_store.Builtins.{Builtins}
use lite_store.Types.{FsyncPolicy, never, always, every_n}
use lite_store.Persistence.{JsonLib}
use lite_store.ProcessWorker.{WorkerProcess, start}
use lite_store.ProcessWorker.Entry.{policy_of, content_at, entered, worker_entry}
use lite_store.WorkerPool.{
  Paths, WorkerPool, WorkerHandle, Process, policy_value, aof_path_for_worker, start_handle,
  start_all,
}

-- The value of a policy is read back by the process.
policy_of-value : (policy : FsyncPolicy) → policy_of (policy_value policy) ≡ some policy
unfolding policy_of Text-discrete
policy_of-value never = refl
policy_of-value always = refl
policy_of-value every_n = refl

module _ (c : Clock) (b : Builtins) (json : JsonLib) (files : Text → Text) (paths : Paths)
    (p : WorkerPool) where
  -- the process of a worker, under the policy of the pool and on the worker's own log
  abbrev pub started : WorkerHandle → WorkerProcess
  started handle =
      start c b json
        (content_at c b json files (some (aof_path_for_worker paths p handle.worker_id)))
        p.fsync_policy p.fsync_every_n

  enters :
      (handle : WorkerHandle) (q : Process)
      → (start_handle paths p handle).process ≡ some q
      → worker_entry c b json files (some q.aof_path) q.fsync_policy q.fsync_every_n
        ≡ some (started handle)
  unfolding start_handle worker_entry
  enters handle q e =
      subst
        (λ (x : Process).
          worker_entry c b json files (some x.aof_path) x.fsync_policy x.fsync_every_n
          ≡ some (started handle))
        (some-injective _ _ e)
        (ap
          (entered c b json files (some (aof_path_for_worker paths p handle.worker_id))
            p.fsync_every_n)
          (policy_of-value p.fsync_policy))

  -- Each process that `start_all` starts accepts the arguments that it is passed, and is then the
  -- worker process with the policy of the pool and the log of its own worker.
  pub start_all-enters :
      (id : Text) (handle : WorkerHandle) (q : Process)
      → lookup id (start_all paths p).handles ≡ some handle
      → handle.process ≡ some q
      → worker_entry c b json files (some q.aof_path) q.fsync_policy q.fsync_every_n
        ≡ some (started handle)
  unfolding start_all
  start_all-enters id handle q found process =
      let (old, _, e) = lookup-map_values_from (start_handle paths p) id handle p.handles found in
      enters old q (ap (λ (x : WorkerHandle). x.process) e ∙ process)
      ∙ ap (λ (x : WorkerHandle). some (started x)) (unfold start_handle in e)
