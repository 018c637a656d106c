-- ===== src/Server/Values.antt =====
-- The value of a key before and after a request is dispatched.
use mathlib.Core.Option.{some-injective}
use lite_store.Base.{◌≡◌, ◌∙◌, sym, refl, ap, subst, Option, none, some, [], ◌∷◌, ok, ℤ, false}
use lite_store.Base.Text.{Text, text_key}
use lite_store.Base.Dict.{lookup, insert, lookup-insert_self}
use lite_store.Clock.{Clock}
use lite_store.Builtins.{Builtins}
use lite_store.Interfaces.{memory_store}
use lite_store.Types.{
  CommandName, CommandRequest, CommandResponse, ResponseKind, simple_string, bulk_string, integer,
  null, error, array,
}
use lite_store.Store.{MemoryStore, process_expirations}
use lite_store.Store.Holding.{Holds, processed-Holds}
use lite_store.Commands.Contents.{wrote, Untimed}
use lite_store.Commands.Writes.{found_response, execute_set-Holds, execute_get-answer}
use lite_store.Router.{Hashing, route_request}
use lite_store.Persistence.{JsonLib, AofPersistence}
use lite_store.Worker.{StoreWorker, execute_started}
use lite_store.Metrics.{Floats}
use lite_store.Server.{
  LiteStoreRuntime, Outcome, dispatch_request, dispatch_executed, is_persisted_write,
}
use lite_store.Server.Serving.{IsServing}
use lite_store.Server.Acknowledged.{Executed, executed, dispatch_executed_keeps}
use lite_store.Server.Held.{Has, set_routed, get_routed, same-Has, executed-Has}

pub get_unlogged :
    (kind : ResponseKind) (n : Option ℤ) → is_persisted_write kind CommandName.get n ≡ false
unfolding is_persisted_write
get_unlogged simple_string n = refl
get_unlogged bulk_string n = refl
get_unlogged integer n = refl
get_unlogged null n = refl
get_unlogged error n = refl
get_unlogged array n = refl

module _ (c : Clock) (b : Builtins) (json : JsonLib) (h : Hashing) (f : Floats) (k : Text)
    (o : Option Text) {P : MemoryStore → Type 0} (rt : LiteStoreRuntime MemoryStore)
    (serving : IsServing h P rt) (request : CommandRequest) (outcome : Outcome) where
  abbrev after : LiteStoreRuntime MemoryStore
  after = (dispatch_request (memory_store c b) b json h f rt request outcome).0

  abbrev it : Executed (memory_store c b) b json h f rt serving request outcome
  it = executed (memory_store c b) b json h f rt serving request outcome

  abbrev routed : Text
  routed = (route_request h rt.router request).worker_id

  abbrev done : StoreWorker MemoryStore
  done = (execute_started (memory_store c b) b it.w request).0

  abbrev executed_there : LiteStoreRuntime MemoryStore
  executed_there = record rt { workers = insert routed done rt.workers }

  after_keeps :
      {A : Type 0} (g : LiteStoreRuntime MemoryStore → A)
      → ((x : LiteStoreRuntime MemoryStore) (p : AofPersistence)
          → g (record x { persistence = p }) ≡ g x)
      → g after ≡ g executed_there
  after_keeps g same =
      ap (λ x. g x.0) it.same
      ∙ dispatch_executed_keeps (memory_store c b) b json h f executed_there request g
          (same executed_there) outcome (execute_started (memory_store c b) b it.w request).1

  after_workers : after.workers ≡ insert routed done rt.workers
  after_workers = after_keeps (λ x. x.workers) (λ x p. refl)

  after_router : after.router ≡ rt.router
  after_router = after_keeps (λ x. x.router) (λ x p. refl)

  pub wrote-Has :
      Untimed k request.command request.args
      → Has h k o rt
      → Has h k (wrote k request.command request.args o) after
  wrote-Has untimed has =
      same-Has h k _ executed_there after after_router after_workers
        (executed-Has c b h k o rt request it.w it.found untimed has)

  pub set-Has :
      (v : Text)
      → request.command ≡ CommandName.set
      → request.args ≡ k ∷ v ∷ []
      → Has h k (some v) after
  unfolding execute_started
  set-Has v name args =
      same-Has h k (some v) executed_there after after_router after_workers (record {
        w = done;
        found =
            ap (λ id. lookup id (insert routed done rt.workers))
              (sym (set_routed h rt.router request k v name args))
            ∙ lookup-insert_self routed done rt.workers;
        holds =
            execute_set-Holds c b k o request (process_expirations c it.w.store none).0 v name args;
      })

  pub get_answered :
      request.command ≡ CommandName.get
      → request.args ≡ k ∷ []
      → Has h k o rt
      → (dispatch_request (memory_store c b) b json h f rt request outcome).1
        ≡ ok (found_response request o)
  unfolding execute_started
  get_answered name args has =
      let same : it.w ≡ has.w = some-injective _ _ (
        sym it.found
        ∙ ap (λ id. lookup id rt.workers) (get_routed h rt.router request k name args)
        ∙ has.found) in
      ap (λ x. x.1) it.same
      ∙ unlogged (execute_started (memory_store c b) b it.w request).1
      ∙ ap ok (
          execute_get-answer c b k o request (process_expirations c it.w.store none).0 name args (
            processed-Holds c k o it.w.store (subst (λ x. Holds k o x.store) (sym same) has.holds)))
    where
      unlogged :
          (r : CommandResponse)
          → (dispatch_executed
              (memory_store c b)
              b
              json
              h
              f
              executed_there
              request
              outcome
              (ok r)).1
            ≡ ok r
      unlogged r =
          unfold dispatch_executed in
          rw (ap (λ n. is_persisted_write r.kind n r.integer) name, get_unlogged r.kind r.integer)
            refl
