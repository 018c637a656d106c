-- ===== src/Server/Restart.antt =====
-- What the server with its workers in one process gives back when it starts again from its log.
--
-- The keys are those that no EXPIRE is sent for, and no FLUSHALL is sent, as in ProcessWorker/Restart.
-- Each write to the log succeeds.
use lite_store.Base.{◌≡◌, ◌∙◌, sym, refl, ap, subst, none, List, [], ◌∷◌, All, ok}
use lite_store.Base.Text.{Text, text_key}
use lite_store.Clock.{Clock}
use lite_store.Builtins.{Builtins}
use lite_store.Interfaces.{memory_store}
use lite_store.Types.{CommandName, CommandRequest, every_n}
use lite_store.Config.{LiteStoreConfig}
use lite_store.Store.{MemoryStore}
use lite_store.Commands.Contents.{written}
use lite_store.Commands.Writes.{found_response}
use lite_store.Router.{Hashing}
use lite_store.Persistence.{JsonLib, make_persistence, replay}
use lite_store.Persistence.Replay.{IsClosed}
use lite_store.ProcessWorker.Logged.{requests_of, AreUntimed}
use lite_store.Metrics.{Floats}
use lite_store.Server.{LiteStoreRuntime, appended, dispatch_request}
use lite_store.Server.Start.{init, start}
use lite_store.Server.Values.{get_answered}
use lite_store.Server.Replayed.{IsAt}
use lite_store.Server.Started.{fresh, start-Reaches}
use lite_store.Server.Restorable.{
  IsPlainRequest, IsRestorable, logged, step, step-IsRestorable, renewed-IsRestorable,
}

module _ (c : Clock) (b : Builtins) (json : JsonLib) (h : Hashing) (f : Floats) (k : Text) where
  -- the server after these requests, each of which is logged if it is a write
  unfoldable pub answer_all :
      LiteStoreRuntime MemoryStore → List CommandRequest → LiteStoreRuntime MemoryStore
  answer_all rt [] = rt
  answer_all rt (request ∷ requests) = answer_all (step c b json h f k rt request) requests

  answer_all-IsRestorable :
      (requests : List CommandRequest) (rt : LiteStoreRuntime MemoryStore)
      → All (IsPlainRequest json k) requests
      → IsRestorable c b json h f k rt
      → IsRestorable c b json h f k (answer_all rt requests)
  unfolding answer_all
  answer_all-IsRestorable [] rt plain v = v
  answer_all-IsRestorable (request ∷ requests) rt plain v =
      answer_all-IsRestorable requests (step c b json h f k rt request) plain.1
        (step-IsRestorable c b json h f k rt request plain.0 v)

  -- the server once it is started on a log of this content
  abbrev pub begun : LiteStoreRuntime MemoryStore → LiteStoreRuntime MemoryStore
  begun rt = (start (memory_store c b) b json h f rt).0

  begun-IsAt :
      (content : Text) (config : LiteStoreConfig) (rt : LiteStoreRuntime MemoryStore)
      → init (memory_store c b) b json h f (fresh c) content config ≡ ok rt
      → AreUntimed k (replay json (make_persistence json content every_n 100))
      → IsAt c b json h f k
          (logged c b json h f k (make_persistence json content every_n 100))
          (make_persistence json content every_n 100)
          (begun rt)
  begun-IsAt content config rt made untimed =
      let (rt', e, v) = start-Reaches c b json h f k content config rt made untimed in
      subst
        (λ x.
          IsAt c b json h f k (logged c b json h f k (make_persistence json content every_n 100))
            (make_persistence json content every_n 100) x.0)
        (sym e) v

  begun-IsRestorable :
      (content : Text) (config : LiteStoreConfig) (rt : LiteStoreRuntime MemoryStore)
      → init (memory_store c b) b json h f (fresh c) content config ≡ ok rt
      → IsClosed content
      → AreUntimed k (replay json (make_persistence json content every_n 100))
      → IsRestorable c b json h f k (begun rt)
  begun-IsRestorable content config rt made closed untimed =
      let v = begun-IsAt content config rt made untimed in
      renewed-IsRestorable c b json h f k (begun rt) (make_persistence json content every_n 100)
        v.log v.serving (unfold make_persistence in closed) untimed v.has

  -- A server starts on a log, whose lines are whole and which neither gives the key a deadline nor has
  -- a FLUSHALL, and answers
  -- any requests, of which none gives the key a deadline or flushes; each write is logged. Another
  -- server starts on the log that this leaves, with any number of workers. A GET of the key has the
  -- same answer from both. JSON is assumed to print what is logged on one line that it reads back.
  pub restart_answers :
      (content : Text) (config config' : LiteStoreConfig) (rt rt' : LiteStoreRuntime MemoryStore)
      (requests : List CommandRequest) (request : CommandRequest)
      → init (memory_store c b) b json h f (fresh c) content config ≡ ok rt
      → IsClosed content
      → AreUntimed k (replay json (make_persistence json content every_n 100))
      → All (IsPlainRequest json k) requests
      → init
          (memory_store c b)
          b
          json
          h
          f
          (fresh c)
          (answer_all (begun rt) requests).persistence.content
          config'
        ≡ ok rt'
      → request.command ≡ CommandName.get
      → request.args ≡ k ∷ []
      → (dispatch_request (memory_store c b) b json h f (begun rt') request appended).1
        ≡ (dispatch_request
            (memory_store c b)
            b
            json
            h
            f
            (answer_all (begun rt) requests)
            request
            appended).1
  restart_answers content config config' rt rt' requests request made closed untimed plain made'
        name args =
      let last = answer_all (begun rt) requests in
      let v =
        answer_all-IsRestorable requests (begun rt) plain
          (begun-IsRestorable content config rt made closed untimed) in
      let p = make_persistence json last.persistence.content every_n 100 in
      let same : replay json p ≡ replay json last.persistence =
        unfold replay make_persistence in refl in
      let v' =
        begun-IsAt last.persistence.content config' rt' made'
          (subst (AreUntimed k) (sym same) v.untimed) in
      get_answered c b json h f k (logged c b json h f k p) (begun rt') v'.serving request appended
        name args v'.has
      ∙ ap (λ l. ok (found_response request (written k (requests_of l) none))) same
      ∙ sym (
          get_answered c b json h f k (logged c b json h f k last.persistence) last v.serving
            request appended name args v.has)
