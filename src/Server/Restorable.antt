-- ===== src/Server/Restorable.antt =====
-- The log of the server with its workers in one process, against what the workers have.
--
-- The keys are those that no EXPIRE is sent for, and no FLUSHALL is sent, as in ProcessWorker/Restart.
-- Each write to the log succeeds.
use lite_store.Base.{
  ◌≡◌, ◌∙◌, sym, refl, ap, subst, Bool, true, false, Option, none, List, [], ◌∷◌, if◌then◌else◌, ok,
  ℤ,
}
use lite_store.Base.Text.{Text, text_key}
use lite_store.Clock.{Clock}
use lite_store.Builtins.{Builtins}
use lite_store.Interfaces.{memory_store}
use lite_store.Types.{CommandName, CommandRequest, CommandResponse}
use lite_store.Store.{MemoryStore, process_expirations}
use lite_store.Commands.{execute_command, dispatch}
use lite_store.Commands.Contents.{wrote, written, Untimed}
use lite_store.Base.Dict.{insert}
use lite_store.Router.{Hashing, route_request}
use lite_store.Persistence.{AofPersistence, JsonLib, append_request, replay}
use lite_store.Persistence.Replay.{IsPrinted, IsClosed}
use lite_store.ProcessWorker.Logged.{
  requests_of, AreUntimed, append_request-IsClosed, append_request-AreUntimed,
  written-append_request,
}
use lite_store.Worker.{execute_started}
use lite_store.Metrics.{Floats}
use lite_store.Server.{
  LiteStoreRuntime, appended, is_persisted_write, log_request, dispatch_executed, dispatch_request,
}
use lite_store.Server.Serving.{IsServing, dispatch_request-Returns}
use lite_store.Server.Acknowledged.{Executed, executed}
use lite_store.Server.Held.{Has}
use lite_store.Server.Values.{wrote-Has}
use lite_store.Server.Replayed.{Any, kept_somewhere}

-- The request gives the key no deadline and does not flush, and JSON prints what the log gets of it.
abbrev pub IsPlainRequest : JsonLib → Text → CommandRequest → Type 0
IsPlainRequest json k request =
    Untimed k request.command request.args
    × ((n : ℤ) (r : CommandResponse)
        → is_persisted_write r.kind request.command r.integer ≡ true
        → IsPrinted json (record { sequence = n; request = request }))

module _ (c : Clock) (b : Builtins) (json : JsonLib) (h : Hashing) (f : Floats) (k : Text) where
  -- A request that is not logged has not written the key.
  unlogged_unwritten :
      (request : CommandRequest) (s : MemoryStore) (o : Option Text)
      → is_persisted_write
          (execute_command (memory_store c b) b request s).1.kind
          request.command
          (execute_command (memory_store c b) b request s).1.integer
        ≡ false
      → wrote k request.command request.args o ≡ o
  unfolding is_persisted_write execute_command dispatch wrote
  unlogged_unwritten request s o = go request.command request.args
    where
      go :
          (name : CommandName) (args : List Text)
          → is_persisted_write
              (dispatch (memory_store c b) b request name s args).1.kind
              name
              (dispatch (memory_store c b) b request name s args).1.integer
            ≡ false
          → wrote k name args o ≡ o
      go CommandName.set (j ∷ w ∷ []) e = cc
      go CommandName.del (j ∷ []) e = cc
      go CommandName.set [] e = refl
      go CommandName.set (_ ∷ []) e = refl
      go CommandName.set (_ ∷ _ ∷ _ ∷ _) e = refl
      go CommandName.del [] e = refl
      go CommandName.del (_ ∷ _ ∷ _) e = refl
      go CommandName.ping args e = refl
      go CommandName.get args e = refl
      go CommandName.expire args e = refl
      go CommandName.ttl args e = refl
      go CommandName.mget args e = refl
      go CommandName.keys args e = refl
      go CommandName.flushall args e = refl

  -- what the requests of the log write
  abbrev pub logged : AofPersistence → Option Text
  logged p = written k (requests_of (replay json p)) none

  -- The worker of the key has what the requests of the log write.
  pub record IsRestorable (rt : LiteStoreRuntime MemoryStore) : Type 0 where
    pub serving : IsServing h (Any c b json h f k) rt
    pub closed : IsClosed rt.persistence.content
    pub untimed : AreUntimed k (replay json rt.persistence)
    pub has : Has h k (logged rt.persistence) rt

  -- a server with this log
  pub renewed-IsRestorable :
      (rt : LiteStoreRuntime MemoryStore) (p : AofPersistence)
      → rt.persistence ≡ p
      → IsServing h (Any c b json h f k) rt
      → IsClosed p.content
      → AreUntimed k (replay json p)
      → Has h k (logged p) rt
      → IsRestorable rt
  renewed-IsRestorable rt p same serving closed untimed has = record {
    serving = serving;
    closed = subst (λ q. IsClosed q.content) (sym same) closed;
    untimed = subst (λ q. AreUntimed k (replay json q)) (sym same) untimed;
    has = subst (λ q. Has h k (logged q) rt) (sym same) has;
  }

  abbrev pub step : LiteStoreRuntime MemoryStore → CommandRequest → LiteStoreRuntime MemoryStore
  step rt request = (dispatch_request (memory_store c b) b json h f rt request appended).0

  step-IsServing :
      (rt : LiteStoreRuntime MemoryStore) (request : CommandRequest)
      → IsServing h (Any c b json h f k) rt
      → IsServing h (Any c b json h f k) (step rt request)
  step-IsServing rt request serving =
      let (rt', _, _, e, _, serving') =
        dispatch_request-Returns (memory_store c b) b json h f (kept_somewhere c b json h f k)
          (λ s now u. u) rt request appended serving in
      subst (λ x. IsServing h (Any c b json h f k) x.0) (sym e) serving'

  executed_log :
      (rt : LiteStoreRuntime MemoryStore) (request : CommandRequest) (r : CommandResponse)
      (t : Bool)
      → is_persisted_write r.kind request.command r.integer ≡ t
      → (dispatch_executed (memory_store c b) b json h f rt request appended (ok r)).0.persistence
        ≡ (if t then (append_request json rt.persistence request).0 else rt.persistence)
  unfolding dispatch_executed log_request
  executed_log rt request r t e =
      ap
        (λ u.
          (if u
            then log_request (memory_store c b) b json h f rt request r appended
            else (rt, ok r)).0.persistence)
        e
      ∙ either t
    where
      either :
          (u : Bool)
          → (if u
              then log_request (memory_store c b) b json h f rt request r appended
              else (rt, ok r)).0.persistence
            ≡ (if u then (append_request json rt.persistence request).0 else rt.persistence)
      either true = refl
      either false = refl

  pub step-IsRestorable :
      (rt : LiteStoreRuntime MemoryStore) (request : CommandRequest)
      → IsPlainRequest json k request
      → IsRestorable rt
      → IsRestorable (step rt request)
  unfolding execute_started
  step-IsRestorable rt request (untimed, printed) v =
      either (is_persisted_write r.kind request.command r.integer) refl
    where
      it : Executed (memory_store c b) b json h f rt v.serving request appended
      it = executed (memory_store c b) b json h f rt v.serving request appended

      r : CommandResponse
      r = (execute_started (memory_store c b) b it.w request).1

      there : LiteStoreRuntime MemoryStore
      there = record rt {
        workers =
            insert (route_request h rt.router request).worker_id
              (execute_started (memory_store c b) b it.w request).0 rt.workers;
      }

      has : Has h k (wrote k request.command request.args (logged rt.persistence)) (step rt request)
      has = wrote-Has c b json h f k _ rt v.serving request appended untimed v.has

      serving : IsServing h (Any c b json h f k) (step rt request)
      serving = step-IsServing rt request v.serving

      either :
          (t : Bool)
          → is_persisted_write r.kind request.command r.integer ≡ t
          → IsRestorable (step rt request)
      either true e =
          renewed-IsRestorable (step rt request) (append_request json rt.persistence request).0
            (ap (λ x. x.0.persistence) it.same ∙ executed_log there request r true e) serving
            (append_request-IsClosed c b json k rt.persistence request
              (printed rt.persistence.next_sequence r e) v.closed)
            (append_request-AreUntimed c b json k rt.persistence request
              (printed rt.persistence.next_sequence r e) v.closed untimed v.untimed)
            (subst (λ o. Has h k o (step rt request))
              (sym (
                written-append_request c b json k rt.persistence request
                  (printed rt.persistence.next_sequence r e) v.closed))
              has)
      either false e =
          renewed-IsRestorable (step rt request) rt.persistence
            (ap (λ x. x.0.persistence) it.same ∙ executed_log there request r false e) serving
            v.closed v.untimed
            (subst (λ o. Has h k o (step rt request))
              (unlogged_unwritten request (process_expirations c it.w.store none).0 _ e) has)
