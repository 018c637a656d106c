-- ===== src/Server/Serving.antt =====
-- A server that serves answers every line.
use lite_store.Base.{
  ℕ, ◌<◌, ◌≡◌, ◌∙◌, refl, ap, subst, arith, Bool, true, false, inl, inr, Option, none, some, List,
  [], ◌∷◌, ◌++◌, length, get_or, if◌then◌else◌, ok, raised,
}
use lite_store.Base.Text.{Text, text, text_key, decimal}
use lite_store.Base.Dict.{lookup, insert, IsIn, insert-IsIn, insert-cases}
use lite_store.Clock.{Time}
use lite_store.Builtins.{Builtins}
use lite_store.Interfaces.{StoreInterface}
use lite_store.Types.{CommandRequest, CommandResponse, ErrorCode, command_value}
use lite_store.Commands.Keeps.{Keeps, execute_command-keeps}
use lite_store.Protocol.{Raises, parse_command, serialize_response, serialize_kind}
use lite_store.Protocol.Exchange.{execute_command_serializes}
use lite_store.Router.{Hashing, make_router, route_request, route_request-IsRoute}
use lite_store.Persistence.{AofPersistence, JsonLib, append_request}
use lite_store.Worker.{StoreWorker, execute_started}
use lite_store.Worker.Execution.{execute_running}
use lite_store.CountMin.TopK.{TopKTracker}
use lite_store.CountMin.TopK.Counts.{Tracks, record_key-Tracks}
use lite_store.Metrics.{
  Floats, MetricsCollector, observe_command, observe_key, observe_tracked, count_command,
}
use lite_store.Server.{
  LiteStoreRuntime, Outcome, appended, os_error, is_persisted_write, error_response, log_request,
  dispatch_executed, dispatch_worker, dispatch_request, measure, process_parsed, process_command,
  answer_line, Call,
}

-- What a worker is between two steps.
pub record IsReady {S : Type 0} (P : S → Type 0) (w : StoreWorker S) : Type 0 where
  pub running : w.running ≡ true
  pub idle : w.in_flight ≡ 0
  pub kept : P w.store

-- Each worker that the router knows is there and ready, and the tracker has counted some keys.
pub record IsServing {S : Type 0} (h : Hashing) (P : S → Type 0) (rt : LiteStoreRuntime S)
    : Type 0 where
  pub made : (ids : List Text) × (make_router ids ≡ ok rt.router)
  pub manned :
      (i : ℕ) → i < length rt.router.worker_ids → IsIn (get_or rt.router.worker_ids i []) rt.workers
  pub ready : (id : Text) (w : StoreWorker S) → lookup id rt.workers ≡ some w → IsReady P w
  pub counted : (keys : List Text) × Tracks h 100 2048 4 keys rt.metrics.hot_key_tracker

module _ {S : Type 0} (h : Hashing) {P : S → Type 0} (rt : LiteStoreRuntime S)
    (v : IsServing h P rt) where
  pub logged-IsServing : (p : AofPersistence) → IsServing h P (record rt { persistence = p })
  logged-IsServing p = record {
    made = v.made;
    manned = v.manned;
    ready = v.ready;
    counted = v.counted;
  }

  metered-IsServing :
      (m : MetricsCollector) (keys : List Text)
      → Tracks h 100 2048 4 keys m.hot_key_tracker
      → IsServing h P (record rt { metrics = m })
  metered-IsServing m keys t = record {
    made = v.made;
    manned = v.manned;
    ready = v.ready;
    counted = (keys, t);
  }

  pub replaced-IsServing :
      (id : Text) (w : StoreWorker S)
      → IsReady P w
      → IsServing h P (record rt { workers = insert id w rt.workers })
  replaced-IsServing id w r = record {
    made = v.made;
    manned = λ i lt. insert-IsIn id (get_or rt.router.worker_ids i []) w rt.workers (v.manned i lt);
    ready = λ j w' found. elim (insert-cases id j w w' rt.workers found) [
      | inl e ↦ subst (IsReady P) e r
      | inr old ↦ v.ready j w' old
    ];
    counted = v.counted;
  }

module _ {S : Type 0} (store : StoreInterface S) (b : Builtins) (json : JsonLib) (h : Hashing)
    (f : Floats) {P : S → Type 0} (k : Keeps store P)
    (expires : (s : S) (now : Option Time) → P s → P (store.process_expirations s now).0) where
  -- the call returns, with a response that has a line, and the server serves after it
  abbrev pub Returns : Call store b json h f CommandResponse → Type 0
  Returns c =
      (rt : LiteStoreRuntime S) × (r : CommandResponse) × (line : Text) × (c ≡ (rt, ok r))
      × (serialize_response r ≡ ok line)
      × IsServing h P rt

  pub executed-IsReady :
      (w : StoreWorker S) (request : CommandRequest)
      → IsReady P w
      → IsReady P (execute_started store b w request).0
  unfolding execute_started
  executed-IsReady w request r = record {
    running = r.running;
    idle = omega (arith, r.idle);
    kept = execute_command-keeps store b k request _ (expires w.store none r.kept);
  }

  error-serialized :
      (code : ErrorCode) (message : Text) (id : Option Text)
      → (line : Text) × (serialize_response (error_response code message id) ≡ ok line)
  unfolding serialize_response serialize_kind
  error-serialized code message id = (_, refl)

  log_request-Returns :
      (rt : LiteStoreRuntime S) (request : CommandRequest) (r : CommandResponse) (outcome : Outcome)
      (line : Text)
      → serialize_response r ≡ ok line
      → IsServing h P rt
      → Returns (log_request store b json h f rt request r outcome)
  unfolding log_request
  log_request-Returns rt request r appended line e v =
      (_, r, line, refl, e, logged-IsServing h rt v (append_request json rt.persistence request).0)
  log_request-Returns rt request r (os_error message left) line e v =
      let (line', e') = error-serialized _ _ _ in
      (_, _, line', refl, e', logged-IsServing h rt v left)

  dispatch_executed-Returns :
      (rt : LiteStoreRuntime S) (request : CommandRequest) (outcome : Outcome) (r : CommandResponse)
      (line : Text)
      → serialize_response r ≡ ok line
      → IsServing h P rt
      → Returns (dispatch_executed store b json h f rt request outcome (ok r))
  unfolding dispatch_executed
  dispatch_executed-Returns rt request outcome r line e v =
      either (is_persisted_write r.kind request.command r.integer)
    where
      either :
          (t : Bool)
          → Returns (if t then log_request store b json h f rt request r outcome else (rt, ok r))
      either true = log_request-Returns rt request r outcome line e v
      either false = (rt, r, line, refl, e, v)

  dispatch_worker-Returns :
      (rt : LiteStoreRuntime S) (request : CommandRequest) (outcome : Outcome) (id : Text)
      (w : StoreWorker S)
      → lookup id rt.workers ≡ some w
      → IsServing h P rt
      → Returns (dispatch_worker store b json h f rt request outcome id (some w))
  unfolding dispatch_worker
  dispatch_worker-Returns rt request outcome id w found v =
      let ready = v.ready id w found in
      let w' = (execute_started store b w request).0 in
      let (line, e) = line_of_executed in
      rw (execute_running store b w request ready.running) (
        dispatch_executed-Returns (record rt { workers = insert id w' rt.workers }) request outcome
          (execute_started store b w request).1 line e
          (replaced-IsServing h rt v id w' (executed-IsReady w request ready)))
    where
      line_of_executed :
          (line : Text) × (serialize_response (execute_started store b w request).1 ≡ ok line)
      line_of_executed =
          unfold execute_started in
          execute_command_serializes store b request (store.process_expirations w.store none).0

  pub dispatch_request-Returns :
      (rt : LiteStoreRuntime S) (request : CommandRequest) (outcome : Outcome)
      → IsServing h P rt
      → Returns (dispatch_request store b json h f rt request outcome)
  unfolding dispatch_request
  dispatch_request-Returns rt request outcome v =
      let (ids, made) = v.made in
      let route = route_request h rt.router request in
      let (below, named) = route_request-IsRoute h ids request made in
      let (w, found) = v.manned route.partition_id below in
      let here : lookup route.worker_id rt.workers ≡ some w =
        ap (λ id. lookup id rt.workers) named ∙ found in
      rw here (dispatch_worker-Returns rt request outcome route.worker_id w here v)

  key_counted :
      (keys : List Text) (t : TopKTracker) (args : List Text)
      → Tracks h 100 2048 4 keys t
      → (t' : TopKTracker) × (keys' : List Text) × (observe_key h t args ≡ some t')
        × Tracks h 100 2048 4 keys' t'
  unfolding observe_key
  key_counted keys t [] r = (t, keys, refl, r)
  key_counted keys t (key ∷ args) r =
      let (t', e, r') = record_key-Tracks h 100 2048 4 keys key t r (omega arith) (omega arith) in
      (t', key ∷ keys, e, r')

  measure-Returns :
      (request : CommandRequest) (duration : Time) (c : Call store b json h f CommandResponse)
      → Returns c
      → Returns (measure store b json h f request duration c)
  unfolding measure observe_command observe_tracked
  measure-Returns request duration c (rt, r, line, e, e', v) =
      let (keys, counted) = v.counted in
      let (t, keys', e'', counted') =
        key_counted keys rt.metrics.hot_key_tracker request.args counted in
      (
        record rt {
          metrics = count_command f rt.metrics (command_value request.command) duration t;
        },
        r,
        line,
        rw (e, e'') refl,
        e',
        metered-IsServing h rt v
            (count_command f rt.metrics (command_value request.command) duration t) keys'
            (unfold count_command in counted'),
      )

  -- the call returns a text, and the server serves after it
  abbrev pub Answers : Call store b json h f Text → Type 0
  Answers c = (rt : LiteStoreRuntime S) × (line : Text) × (c ≡ (rt, ok line)) × IsServing h P rt

  process_parsed-Returns :
      (rt : LiteStoreRuntime S) (id : Text) (outcome : Outcome) (duration : Time)
      (parsed : Raises CommandRequest)
      → IsServing h P rt
      → Returns (process_parsed store b json h f rt id outcome duration parsed)
  unfolding process_parsed
  process_parsed-Returns rt id outcome duration (raised e) v =
      let (line, e') = error-serialized e.code e.message (some id) in (rt, _, line, refl, e', v)
  process_parsed-Returns rt id outcome duration (ok request) v =
      measure-Returns request duration _ (dispatch_request-Returns rt request outcome v)

  -- In a server that serves, whatever the line is and whatever the log does: the answer is a line of
  -- text, no exception leaves the step, and the server serves after it.
  pub answer_line-Answers :
      (rt : LiteStoreRuntime S) (id : Text) (n : ℕ) (decoded : Text) (outcome : Outcome)
      (duration : Time)
      → IsServing h P rt
      → Answers (answer_line store b json h f rt id n decoded outcome duration)
  unfolding answer_line process_command
  answer_line-Answers rt id n decoded outcome duration v =
      let (rt', r, line, e, e', v') =
        process_parsed-Returns rt (id ++ text ":" ++ decimal n) outcome duration
          (parse_command b (some (id ++ text ":" ++ decimal n)) (some id) decoded) v in
      (rt', line, rw (e, e') refl, v')
