-- ===== src/Server/Visible.antt =====
-- What a client reads after its write, through the router, the workers and their stores.
use lite_store.Base.{
  ◌≡◌, ◌∙◌, refl, ap, sym, subst, Option, none, some, map, List, [], ◌∷◌, ok, All,
}
use lite_store.Base.Text.{Text, text_key}
use lite_store.Clock.{Clock, Time}
use lite_store.Builtins.{Builtins}
use lite_store.Interfaces.{StoreInterface, memory_store}
use lite_store.Types.{CommandName, CommandRequest}
use lite_store.Store.{MemoryStore, process_expirations}
use lite_store.Commands.Keeps.{Keeps}
use lite_store.Commands.Contents.{wrote, written, Untimed, Spares, Spares-Untimed, wrote_spared}
use lite_store.Commands.Writes.{found_response}
use lite_store.Router.{Hashing}
use lite_store.Persistence.{JsonLib}
use lite_store.Metrics.{Floats}
use lite_store.Server.{LiteStoreRuntime, Outcome, dispatch_request}
use lite_store.Server.Serving.{IsServing, dispatch_request-Returns}
use lite_store.Server.Held.{Has}
use lite_store.Server.Values.{wrote-Has, set-Has, get_answered}

-- the server after these requests
unfoldable pub dispatch_all :
    {S : Type 0}
    → StoreInterface S
    → Builtins
    → JsonLib
    → Hashing
    → Floats
    → LiteStoreRuntime S
    → List (CommandRequest × Outcome)
    → LiteStoreRuntime S
dispatch_all store b json h f rt [] = rt
dispatch_all store b json h f rt ((request, outcome) ∷ requests) =
    dispatch_all store b json h f (dispatch_request store b json h f rt request outcome).0 requests

-- their requests
abbrev pub asked : List (CommandRequest × Outcome) → List CommandRequest
asked = map (λ p. p.0)

module _ (c : Clock) (b : Builtins) (json : JsonLib) (h : Hashing) (f : Floats) (k : Text)
    {P : MemoryStore → Type 0} (keeps : Keeps (memory_store c b) P)
    (expires : (s : MemoryStore) (now : Option Time)
      → P s
      → P (process_expirations c s now).0) where
  abbrev step :
      LiteStoreRuntime MemoryStore → CommandRequest → Outcome → LiteStoreRuntime MemoryStore
  step rt request outcome = (dispatch_request (memory_store c b) b json h f rt request outcome).0

  step-IsServing :
      (rt : LiteStoreRuntime MemoryStore) (request : CommandRequest) (outcome : Outcome)
      → IsServing h P rt
      → IsServing h P (step rt request outcome)
  step-IsServing rt request outcome serving =
      let (rt', _, _, e, _, serving') =
        dispatch_request-Returns (memory_store c b) b json h f keeps expires rt request outcome
          serving in
      subst (λ x. IsServing h P x.0) (sym e) serving'

  dispatch_all-Has :
      (rt : LiteStoreRuntime MemoryStore) (requests : List (CommandRequest × Outcome))
      (o : Option Text)
      → All (λ p. Untimed k p.0.command p.0.args) requests
      → IsServing h P rt
      → Has h k o rt
      → IsServing h P (dispatch_all (memory_store c b) b json h f rt requests)
        × Has h k
            (written k (asked requests) o)
            (dispatch_all (memory_store c b) b json h f rt requests)
  unfolding dispatch_all written
  dispatch_all-Has rt [] o untimed serving has = (serving, has)
  dispatch_all-Has rt ((request, outcome) ∷ requests) o untimed serving has =
      dispatch_all-Has (step rt request outcome) requests (wrote k request.command request.args o)
        untimed.1 (step-IsServing rt request outcome serving)
        (wrote-Has c b json h f k o rt serving request outcome untimed.0 has)

  -- In a server that serves, over in-memory stores: after a SET of a key, and after any requests of
  -- any clients of which none gives that key a deadline or flushes, a GET of the key is answered
  -- with what the specification says, which is what the last of these SETs and DELs of the key
  -- wrote, whatever times are read, whichever other keys expire, and whatever the log does.
  pub get_written :
      (rt : LiteStoreRuntime MemoryStore)
      → IsServing h P rt
      → (set_request get_request : CommandRequest) (outcome outcome' : Outcome) (v : Text)
      → set_request.command ≡ CommandName.set
      → set_request.args ≡ k ∷ v ∷ []
      → (requests : List (CommandRequest × Outcome))
      → All (λ p. Untimed k p.0.command p.0.args) requests
      → get_request.command ≡ CommandName.get
      → get_request.args ≡ k ∷ []
      → (dispatch_request
          (memory_store c b)
          b
          json
          h
          f
          (dispatch_all (memory_store c b) b json h f (step rt set_request outcome) requests)
          get_request
          outcome').1
        ≡ ok (found_response get_request (written k (asked requests) (some v)))
  get_written rt serving set_request get_request outcome outcome' v name args requests untimed name'
        args' =
      let has = set-Has c b json h f k none rt serving set_request outcome v name args in
      let (serving', has') =
        dispatch_all-Has (step rt set_request outcome) requests (some v) untimed
          (step-IsServing rt set_request outcome serving) has in
      get_answered c b json h f k (written k (asked requests) (some v)) _ serving' get_request
        outcome' name' args' has'

  spared_written :
      (requests : List (CommandRequest × Outcome)) (o : Option Text)
      → All (λ p. Spares k p.0.command p.0.args) requests
      → All (λ p. Untimed k p.0.command p.0.args) requests × (written k (asked requests) o ≡ o)
  unfolding written
  spared_written [] o spares = (tt, refl)
  spared_written ((request, outcome) ∷ requests) o spares =
      let same = wrote_spared k request.command request.args o spares.0 in
      let (untimed, later) = spared_written requests o spares.1 in
      (
        (Spares-Untimed k request.command request.args spares.0, untimed),
        ap (written k (asked requests)) same ∙ later,
      )

  -- If the requests between the SET and the GET neither write the key nor flush, the GET is answered
  -- with the value of the SET.
  pub get_after_set :
      (rt : LiteStoreRuntime MemoryStore)
      → IsServing h P rt
      → (set_request get_request : CommandRequest) (outcome outcome' : Outcome) (v : Text)
      → set_request.command ≡ CommandName.set
      → set_request.args ≡ k ∷ v ∷ []
      → (requests : List (CommandRequest × Outcome))
      → All (λ p. Spares k p.0.command p.0.args) requests
      → get_request.command ≡ CommandName.get
      → get_request.args ≡ k ∷ []
      → (dispatch_request
          (memory_store c b)
          b
          json
          h
          f
          (dispatch_all (memory_store c b) b json h f (step rt set_request outcome) requests)
          get_request
          outcome').1
        ≡ ok (found_response get_request (some v))
  get_after_set rt serving set_request get_request outcome outcome' v name args requests spares
        name' args' =
      let (untimed, same) = spared_written requests (some v) spares in
      get_written rt serving set_request get_request outcome outcome' v name args requests untimed
        name' args'
      ∙ ap (λ o. ok (found_response get_request o)) same
