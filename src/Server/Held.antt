-- ===== src/Server/Held.antt =====
-- The worker of a key, what it has for the key, and what its execution of a request does to that.
use mathlib.Core.Logic.{if_pos, if_neg}
use mathlib.Core.Option.{some-injective}
use lite_store.Base.{◌≡◌, ◌≢◌, ite, List, ◌∙◌, sym, refl, ap, subst, Option, none, some, [], ◌∷◌}
use lite_store.Base.Text.{Text, text_key}
use lite_store.Base.Dict.{lookup, insert, lookup-insert}
use lite_store.Clock.{Clock}
use lite_store.Builtins.{Builtins}
use lite_store.Interfaces.{memory_store}
use lite_store.Types.{CommandName, CommandRequest}
use lite_store.Store.{MemoryStore, process_expirations}
use lite_store.Store.Holding.{Holds, processed-Holds}
use lite_store.Commands.Contents.{wrote, Untimed}
use lite_store.Commands.Writes.{execute_command-Holds}
use lite_store.Router.{Hashing, Router, route_key, route_request, route_extracted, extract_key}
use lite_store.Worker.{StoreWorker, execute_started}
use lite_store.Server.{LiteStoreRuntime}

-- The worker of the key has this value for it, or none, and no deadline.
pub record Has (h : Hashing) (k : Text) (o : Option Text) (rt : LiteStoreRuntime MemoryStore)
    : Type 0 where
  pub w : StoreWorker MemoryStore
  pub found : lookup (route_key h rt.router k).worker_id rt.workers ≡ some w
  pub holds : Holds k o w.store

module _ (h : Hashing) (router : Router) (request : CommandRequest) (k : Text) where
  pub set_routed :
      (v : Text)
      → request.command ≡ CommandName.set
      → request.args ≡ k ∷ v ∷ []
      → (route_request h router request).worker_id ≡ (route_key h router k).worker_id
  unfolding route_request route_extracted extract_key
  set_routed v name args = rw (name, args) refl

  pub get_routed :
      request.command ≡ CommandName.get
      → request.args ≡ k ∷ []
      → (route_request h router request).worker_id ≡ (route_key h router k).worker_id
  unfolding route_request route_extracted extract_key
  get_routed name args = rw (name, args) refl

-- A request that goes to another worker than the key's does not write the key.
elsewhere_unwritten :
    (h : Hashing) (router : Router) (request : CommandRequest) (k : Text) (o : Option Text)
    → (route_request h router request).worker_id ≢ (route_key h router k).worker_id
    → wrote k request.command request.args o ≡ o
unfolding wrote route_request route_extracted extract_key
elsewhere_unwritten h router request k o other = go request.command request.args other
  where
    same :
        (j : Text) (x : Option Text)
        → (route_key h router j).worker_id ≢ (route_key h router k).worker_id
        → ite (text_key.decide j k) x o ≡ o
    same j x differ =
        if_neg (text_key.decide j k) (λ e. differ (ap (λ i. (route_key h router i).worker_id) e)) _
          _

    go :
        (name : CommandName) (args : List Text)
        → (route_extracted h router (extract_key name args)).worker_id
          ≢ (route_key h router k).worker_id
        → wrote k name args o ≡ o
    go CommandName.set (j ∷ w ∷ []) differ = same j _ differ
    go CommandName.del (j ∷ []) differ = same j _ differ
    go CommandName.set [] differ = refl
    go CommandName.set (_ ∷ []) differ = refl
    go CommandName.set (_ ∷ _ ∷ _ ∷ _) differ = refl
    go CommandName.del [] differ = refl
    go CommandName.del (_ ∷ _ ∷ _) differ = refl
    go CommandName.ping args differ = refl
    go CommandName.get args differ = refl
    go CommandName.expire args differ = refl
    go CommandName.ttl args differ = refl
    go CommandName.mget args differ = refl
    go CommandName.keys args differ = refl
    go CommandName.flushall args differ = refl

-- What the key has depends on the workers and on the router.
pub same-Has :
    (h : Hashing) (k : Text) (o : Option Text) (rt rt' : LiteStoreRuntime MemoryStore)
    → rt'.router ≡ rt.router
    → rt'.workers ≡ rt.workers
    → Has h k o rt
    → Has h k o rt'
same-Has h k o rt rt' routers workers has = record {
  w = has.w;
  found =
      ap (λ (r : Router). lookup (route_key h r k).worker_id rt'.workers) routers
      ∙ ap (lookup (route_key h rt.router k).worker_id) workers
      ∙ has.found;
  holds = has.holds;
}

module _ (c : Clock) (b : Builtins) (h : Hashing) (k : Text) (o : Option Text)
    (rt : LiteStoreRuntime MemoryStore) (request : CommandRequest)
    (w : StoreWorker MemoryStore) where
  abbrev routed : Text
  routed = (route_request h rt.router request).worker_id

  abbrev done : StoreWorker MemoryStore
  done = (execute_started (memory_store c b) b w request).0

  -- what the execution leaves, by what the worker had
  done-Holds :
      Untimed k request.command request.args
      → Holds k o w.store
      → Holds k (wrote k request.command request.args o) done.store
  unfolding execute_started
  done-Holds untimed holds =
      execute_command-Holds c b k o request (process_expirations c w.store none).0 untimed
        (processed-Holds c k o w.store holds)

  -- Once the worker of a request has executed it, the worker of the key has what the specification
  -- says, whether or not it is the same one.
  pub executed-Has :
      lookup routed rt.workers ≡ some w
      → Untimed k request.command request.args
      → Has h k o rt
      → Has h k
          (wrote k request.command request.args o)
          (record rt { workers = insert routed done rt.workers })
  executed-Has here untimed has =
      elim (text_key.decide routed (route_key h rt.router k).worker_id) [
        | yes e ↦
            let same : w ≡ has.w =
              some-injective _ _ (sym here ∙ ap (λ id. lookup id rt.workers) e ∙ has.found) in
            record {
              w = done;
              found =
                  lookup-insert routed (route_key h rt.router k).worker_id done rt.workers
                  ∙ if_pos (text_key.decide routed _) e _ _;
              holds = done-Holds untimed (subst (λ x. Holds k o x.store) (sym same) has.holds);
            }
        | no e ↦ record {
          w = has.w;
          found =
              lookup-insert routed (route_key h rt.router k).worker_id done rt.workers
              ∙ if_neg (text_key.decide routed _) e _ _
              ∙ has.found;
          holds =
              subst (λ x. Holds k x has.w.store)
                (sym (elsewhere_unwritten h rt.router request k o e)) has.holds;
        }
      ]
