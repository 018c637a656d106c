-- ===== src/Server/Acknowledged.antt =====
-- What a dispatched request does to the log and to the workers, by its answer.
use mathlib.Core.Logic.{if_neg}
use lite_store.Base.{
  ◌≡◌, ◌≢◌, ◌∙◌, sym, refl, ap, true, Option, some, ◌++◌, if_true, if-elim, ok, ℤ, pos,
}
use lite_store.Base.Text.{Text, text, text_key}
use lite_store.Base.Dict.{lookup, insert, lookup-insert, lookup-insert_self}
use lite_store.Builtins.{Builtins}
use lite_store.Interfaces.{StoreInterface}
use lite_store.Types.{
  CommandName, CommandRequest, CommandResponse, ResponseKind, simple_string, bulk_string, integer,
  null, array, error, persistence_error,
}
use lite_store.Router.{Hashing, route_request, route_request-IsRoute}
use lite_store.Persistence.{AofPersistence, JsonLib}
use lite_store.Worker.{StoreWorker, execute_started}
use lite_store.Worker.Execution.{execute_running}
use lite_store.Metrics.{Floats}
use lite_store.Server.{
  Call, LiteStoreRuntime, Outcome, appended, os_error, is_persisted_write, error_response,
  log_request, dispatch_executed, dispatch_worker, dispatch_request,
}
use lite_store.Server.Serving.{IsServing}

-- The writes that the server logs: SET and DEL, and an EXPIRE that is answered with 1.
pub data IsWrite (request : CommandRequest) (r : CommandResponse) : Type 0 where
  sets : request.command ≡ CommandName.set → IsWrite request r
  deletes : request.command ≡ CommandName.del → IsWrite request r
  expires : request.command ≡ CommandName.expire → r.integer ≡ some (pos 1) → IsWrite request r

kind_persisted :
    (kind : ResponseKind) (n : Option ℤ)
    → kind ≢ error
    → (is_persisted_write kind CommandName.set n ≡ true)
      × (is_persisted_write kind CommandName.del n ≡ true)
      × (is_persisted_write kind CommandName.expire (some (pos 1)) ≡ true)
unfolding is_persisted_write
kind_persisted simple_string n fine = (refl, refl, refl)
kind_persisted bulk_string n fine = (refl, refl, refl)
kind_persisted integer n fine = (refl, refl, refl)
kind_persisted null n fine = (refl, refl, refl)
kind_persisted array n fine = (refl, refl, refl)
kind_persisted error n fine = absurd (fine refl)

IsWrite-persisted :
    (request : CommandRequest) (r : CommandResponse)
    → r.kind ≢ error
    → IsWrite request r
    → is_persisted_write r.kind request.command r.integer ≡ true
IsWrite-persisted request r fine (sets e) = rw e ((kind_persisted r.kind r.integer fine).0)
IsWrite-persisted request r fine (deletes e) = rw e ((kind_persisted r.kind r.integer fine).1)
IsWrite-persisted request r fine (expires e one) =
    rw (e, one) ((kind_persisted r.kind r.integer fine).2)

module _ {S : Type 0} (store : StoreInterface S) (b : Builtins) (json : JsonLib) (h : Hashing)
    (f : Floats) (rt : LiteStoreRuntime S) (request : CommandRequest) where
  -- The log is all that is changed after the execution.
  module _ {A : Type 0} (g : LiteStoreRuntime S → A)
      (same : (p : AofPersistence) → g (record rt { persistence = p }) ≡ g rt) where
    log_request_keeps :
        (outcome : Outcome) (r : CommandResponse)
        → g (log_request store b json h f rt request r outcome).0 ≡ g rt
    unfolding log_request
    log_request_keeps appended r = same _
    log_request_keeps (os_error message left) r = same left

    pub dispatch_executed_keeps :
        (outcome : Outcome) (r : CommandResponse)
        → g (dispatch_executed store b json h f rt request outcome (ok r)).0 ≡ g rt
    unfolding dispatch_executed
    dispatch_executed_keeps outcome r =
        if-elim (λ (c : Call store b json h f CommandResponse). g c.0 ≡ g rt)
          (is_persisted_write r.kind request.command r.integer) (log_request_keeps outcome r) refl

  refusal : Text → CommandResponse
  refusal message =
      error_response persistence_error (text "Persistence append failed: " ++ message)
        request.request_id

  dispatch_executed_refused :
      (message : Text) (left : AofPersistence) (r : CommandResponse)
      → is_persisted_write r.kind request.command r.integer ≡ true
      → dispatch_executed store b json h f rt request (os_error message left) (ok r)
        ≡ (record rt { persistence = left }, ok (refusal message))
  unfolding dispatch_executed log_request refusal
  dispatch_executed_refused message left r e =
      if_true (is_persisted_write r.kind request.command r.integer) _ _ e

module _ {S : Type 0} (store : StoreInterface S) (b : Builtins) (json : JsonLib) (h : Hashing)
    (f : Floats) {P : S → Type 0} (rt : LiteStoreRuntime S) (v : IsServing h P rt)
    (request : CommandRequest) (outcome : Outcome) where
  abbrev routed : Text
  routed = (route_request h rt.router request).worker_id

  -- The worker that executes the request: the server before the log, and the response.
  pub record Executed : Type 0 where
    pub w : StoreWorker S
    pub found : lookup routed rt.workers ≡ some w
    pub same :
        dispatch_request store b json h f rt request outcome
        ≡ dispatch_executed store b json h f
            (record rt { workers = insert routed (execute_started store b w request).0 rt.workers })
            request
            outcome
            (ok (execute_started store b w request).1)

  pub executed : Executed
  unfolding dispatch_request dispatch_worker
  executed =
      let (ids, made) = v.made in
      let route = route_request h rt.router request in
      let (below, named) = route_request-IsRoute h ids request made in
      let (w, there) = v.manned route.partition_id below in
      let here : lookup routed rt.workers ≡ some w =
        ap (λ id. lookup id rt.workers) named ∙ there in
      record {
        w = w;
        found = here;
        same = rw (here, execute_running store b w request (v.ready routed w here).running) refl;
      }

  -- Whatever the request is and the log does: only the worker that the request is routed to may change.
  dispatch_request_others :
      (id : Text)
      → id ≢ routed
      → lookup id (dispatch_request store b json h f rt request outcome).0.workers
        ≡ lookup id rt.workers
  dispatch_request_others id other =
      let w = (execute_started store b executed.w request).0 in
      ap (λ c. lookup id c.0.workers) executed.same
      ∙ ap (lookup id) (
          dispatch_executed_keeps store b json h f
            (record rt { workers = insert routed w rt.workers }) request (λ x. x.workers)
            (λ p. refl) outcome (execute_started store b executed.w request).1)
      ∙ lookup-insert routed id w rt.workers
      ∙ if_neg (text_key.decide routed id) (λ e. other (sym e)) _ _

  -- When the log refuses a SET, a DEL, or an EXPIRE that took effect: the answer is PERSISTENCE_ERROR,
  -- although the worker has executed the request and keeps what that did.
  pub refused_applied :
      (message : Text) (left : AofPersistence)
      → outcome ≡ os_error message left
      → (w : StoreWorker S) → lookup routed rt.workers ≡ some w
      → (execute_started store b w request).1.kind ≢ error
      → IsWrite request (execute_started store b w request).1
      → (r : CommandResponse) × ((dispatch_request store b json h f rt request outcome).1 ≡ ok r)
        × (r.error_code ≡ some persistence_error)
        × (lookup routed (dispatch_request store b json h f rt request outcome).0.workers
            ≡ some (execute_started store b w request).0)
  unfolding dispatch_request dispatch_worker refusal
  refused_applied message left refused w found fine write =
      let w' = (execute_started store b w request).0 in
      let rt1 : LiteStoreRuntime S = record rt { workers = insert routed w' rt.workers } in
      let persisted = IsWrite-persisted request (execute_started store b w request).1 fine write in
      let same =
        dispatch_executed_refused store b json h f rt1 request message left
          (execute_started store b w request).1 persisted in
      rw (refused, found, execute_running store b w request (v.ready routed w found).running, same)
        (
          refusal store b json h f rt1 request message,
          refl,
          refl,
          lookup-insert_self routed w' rt.workers,
        )
