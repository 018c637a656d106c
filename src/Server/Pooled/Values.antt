-- ===== src/Server/Pooled/Values.antt =====
-- What the responses of the server with worker processes tell of a key, whichever connections send
-- requests and wait, and whenever the processes run.
use mathlib.Core.Option.{some-injective}
use lite_store.Base.{ℕ, ◌≡◌, ◌∙◌, sym, refl, subst, Option, none, some, List, [], ◌∷◌, All}
use lite_store.Base.Text.{Text, text_key}
use lite_store.Base.Dict.{lookup}
use lite_store.Clock.{Clock}
use lite_store.Builtins.{Builtins}
use lite_store.Config.{LiteStoreConfig}
use lite_store.Types.{CommandRequest, CommandResponse, FsyncPolicy, every_n}
use lite_store.Store.Holding.{Holds}
use lite_store.Commands.Contents.{written, Untimed}
use lite_store.Persistence.{JsonLib, make_persistence, replay}
use lite_store.ProcessWorker.{WorkerProcess, start, recovered}
use lite_store.ProcessWorker.Entry.{policy_of, content_at, entered, worker_entry}
use lite_store.ProcessWorker.Logged.{requests_of, AreUntimed}
use lite_store.ProcessWorker.Restart.{start-Holds}
use lite_store.Router.{Hashing}
use lite_store.Metrics.{Floats}
use lite_store.WorkerPool.{Paths, WorkerHandle, Process}
use lite_store.WorkerPool.Answers.{IsAnswered}
use lite_store.WorkerPool.Values.{Exchanged-IsAnswered}
use lite_store.Server.Pooled.System.{System, Reached, handles_of}
use lite_store.Server.Pooled.Order.{Reached-IsConsistent}

-- What the requests of a log write for the key; without a path there is no log.
abbrev pub logged_value : JsonLib → Text → (Text → Text) → Text → Option Text
logged_value json k files [] = none
logged_value json k files (ch ∷ path) =
    written k (requests_of (replay json (make_persistence json (files (ch ∷ path)) every_n 100)))
      none

module _ (c : Clock) (b : Builtins) (json : JsonLib) (k : Text) (files : Text → Text) where
  content_at-Holds :
      (path : Text) (policy : FsyncPolicy) (n : ℕ)
      → AreUntimed k (replay json (make_persistence json (files path) every_n 100))
      → Holds k
          (logged_value json k files path)
          (start c b json (content_at c b json files (some path)) policy n).store
  unfolding start recovered lookup
  content_at-Holds [] policy n untimed = (refl, refl)
  content_at-Holds (ch ∷ path) policy n untimed =
      let same : replay json (make_persistence json (files (ch ∷ path)) every_n 100)
          ≡ replay json (make_persistence json (files (ch ∷ path)) policy n) =
        unfold replay make_persistence in refl in
      subst
        (λ l.
          Holds k (written k (requests_of l) none)
            (start c b json (some (files (ch ∷ path))) policy n).store)
        (sym same)
        (start-Holds c b json k (files (ch ∷ path)) policy n (subst (AreUntimed k) same untimed))

  worker_entry-Holds :
      (path policy : Text) (n : ℕ) (w : WorkerProcess)
      → worker_entry c b json files (some path) policy n ≡ some w
      → AreUntimed k (replay json (make_persistence json (files path) every_n 100))
      → Holds k (logged_value json k files path) w.store
  unfolding worker_entry
  worker_entry-Holds path policy n w e untimed = go (policy_of policy) e
    where
      go :
          (o : Option FsyncPolicy)
          → entered c b json files (some path) n o ≡ some w
          → Holds k (logged_value json k files path) w.store
      go none e = absurd cc
      go (some policy) e =
          subst (λ (x : WorkerProcess). Holds k (logged_value json k files path) x.store)
            (some-injective _ _ e) (content_at-Holds path policy n untimed)

module _ (c : Clock) (b : Builtins) (json : JsonLib) (h : Hashing) (f : Floats) (paths : Paths)
    (files : Text → Text) (config : LiteStoreConfig) where
  -- In the server with worker processes, from its start to its end, whichever connections send
  -- requests and wait, whenever the processes run and whichever thread takes a response first: if
  -- neither the log that a worker started from nor the requests that were sent to it give the key a
  -- deadline or flush, then each response that was taken from it for a GET of the key has what the
  -- last SET or DEL of the key wrote that was sent to it before that GET, or else what the log gave.
  pub Reached-IsAnswered :
      {sys : System} {out : Text → List CommandRequest} {back : Text → List CommandResponse}
      (k id : Text) (handle : WorkerHandle) (p : Process)
      → Reached c b json h f paths files config sys out back
      → lookup id (handles_of sys) ≡ some handle
      → handle.process ≡ some p
      → AreUntimed k (replay json (make_persistence json (files p.aof_path) every_n 100))
      → All (λ request. Untimed k request.command request.args) (out id)
      → IsAnswered k (logged_value json k files p.aof_path) (out id) (back id)
  Reached-IsAnswered k id handle p l found started logged untimed =
      let v = (Reached-IsConsistent c b json h f paths files config l).exchanges id handle found in
      let same : v.child ≡ p = some-injective _ _ (sym v.started ∙ started) in
      Exchanged-IsAnswered c b json k (logged_value json k files p.aof_path)
        (subst (λ (x : Process). Holds k (logged_value json k files x.aof_path) v.first.store) same
          (worker_entry-Holds c b json k files v.child.aof_path v.child.fsync_policy
            v.child.fsync_every_n v.first v.entry
            (subst
              (λ (x : Process).
                AreUntimed k (replay json (make_persistence json (files x.aof_path) every_n 100)))
              (sym same) logged)))
        v.exchange untimed
