-- ===== src/Server/Clients.antt =====
-- A connection from its first line to its end.
use lite_store.Base.{
  arith, ◌-◌, ℤ, ℕ, ◌+◌, ◌≡◌, refl, sym, subst, ◌⊎◌, inl, inr, Bool, true, false, Option, none,
  some, List, [], ◌∷◌, if◌then◌else◌, if_true, ◌∙◌, ◌++◌, ok, raised,
}
use mathlib.Core.Option.{some-injective}
use lite_store.Base.Text.{Text, text, text_key, decimal}
use lite_store.Base.Dict.{lookup, insert}
use lite_store.Clock.{Time}
use lite_store.Builtins.{Builtins}
use lite_store.Interfaces.{StoreInterface}
use lite_store.Types.{CommandName, CommandRequest}
use lite_store.Commands.{command_raised, expire_arguments_raised}
use lite_store.Commands.Keeps.{Keeps}
use lite_store.Protocol.{Raises, parse_command}
use lite_store.Router.{Hashing, route_request}
use lite_store.Persistence.{JsonLib}
use lite_store.Metrics.{Floats}
use lite_store.Worker.{StoreWorker, execute_raised}
use lite_store.Server.{
  LiteStoreRuntime, Crash, Outcome, value_error, overflow_error, connection_error,
  next_connection_id,
}
use lite_store.Server.Connection.{
  Incoming, received, overlong, broken, Turn, lookup_raised, request_raised, line_raised,
  turn_before, serve_lines, handle_client,
}
use lite_store.Server.Serving.{IsServing, IsReady, replaced-IsServing, answer_line-Answers}

-- The line is an EXPIRE.
abbrev pub IsExpire : Builtins → Text → Type 0
IsExpire b line =
    (id client : Option Text) × (request : CommandRequest) × (parse_command b id client line
      ≡ ok request)
    × (request.command ≡ CommandName.expire)

-- What is written for one turn and the later ones, of which `rest` tells, and what ends the connection.
TurnServed :
    Builtins
    → Incoming
    → Bool
    → (List Text → Option Crash → Type 0)
    → List Text
    → Option Crash
    → Type 0
TurnServed b overlong lost rest texts crash = (texts ≡ []) × (crash ≡ some value_error)
TurnServed b broken lost rest texts crash = (texts ≡ []) × (crash ≡ some connection_error)
TurnServed b (received []) lost rest texts crash = (texts ≡ []) × (crash ≡ none)
TurnServed b (received (c ∷ line)) lost rest texts crash =
    (IsExpire b (c ∷ line) × (texts ≡ []) × (crash ≡ some overflow_error))
    ⊎ ((text : Text) × (later : List Text) × (texts ≡ text ∷ later)
        × (if lost then (later ≡ []) × (crash ≡ some connection_error) else rest later crash))

-- What is written to a connection for these turns, and what ends it: a text for each line to the end of
-- the stream; or for each line before an overlong one, before an EXPIRE that overflows, or to where the
-- connection is lost, and then that exception.
pub IsServed : Builtins → List Turn → List Text → Option Crash → Type 0
IsServed b [] texts crash = (texts ≡ []) × (crash ≡ none)
IsServed b (turn ∷ turns) texts crash =
    TurnServed b turn.incoming turn.lost (λ later end. IsServed b turns later end) texts crash

-- a server that serves, and what was written
pub record Serves {S : Type 0} (b : Builtins) (h : Hashing) (P : S → Type 0) (turns : List Turn)
    (end : LiteStoreRuntime S × List Text × Option Crash) : Type 0 where
  pub serving : IsServing h P end.0
  pub served : IsServed b turns end.1 end.2

module _ {S : Type 0} (store : StoreInterface S) (b : Builtins) (json : JsonLib) (h : Hashing)
    (f : Floats) {P : S → Type 0} (k : Keeps store P)
    (expires : (s : S) (now : Option Time) → P s → P (store.process_expirations s now).0)
    (overflows : (s s' : S) (key : Text) (seconds : ℤ)
      → store.expire_raised s key seconds ≡ some s'
      → P s
      → P s') where
  command_raised-keeps :
      (request : CommandRequest) (name : CommandName) (s s' : S) (args : List Text)
      → command_raised store b request name s args ≡ some s'
      → P s
      → P s' × (name ≡ CommandName.expire)
  unfolding command_raised expire_arguments_raised
  command_raised-keeps request CommandName.expire s s' (key ∷ raw ∷ []) e p = go (b.int_of raw) e
    where
      go :
          (o : Option ℤ)
          → elim o [ none ↦ none | some seconds ↦ store.expire_raised s key seconds ] ≡ some s'
          → P s' × (CommandName.expire ≡ CommandName.expire)
      go none e = absurd cc
      go (some seconds) e = (overflows s s' key seconds e p, refl)
  command_raised-keeps request CommandName.expire s s' [] e p = absurd cc
  command_raised-keeps request CommandName.expire s s' (_ ∷ []) e p = absurd cc
  command_raised-keeps request CommandName.expire s s' (_ ∷ _ ∷ _ ∷ _) e p = absurd cc
  command_raised-keeps request CommandName.ping s s' args e p = absurd cc
  command_raised-keeps request CommandName.set s s' args e p = absurd cc
  command_raised-keeps request CommandName.get s s' args e p = absurd cc
  command_raised-keeps request CommandName.del s s' args e p = absurd cc
  command_raised-keeps request CommandName.ttl s s' args e p = absurd cc
  command_raised-keeps request CommandName.mget s s' args e p = absurd cc
  command_raised-keeps request CommandName.keys s s' args e p = absurd cc
  command_raised-keeps request CommandName.flushall s s' args e p = absurd cc

  execute_raised-IsReady :
      (request : CommandRequest) (w w' : StoreWorker S)
      → execute_raised store b w request ≡ some w'
      → IsReady P w
      → IsReady P w' × (request.command ≡ CommandName.expire)
  unfolding execute_raised
  execute_raised-IsReady request w w' e r =
      go (command_raised store b request request.command s request.args) refl
        (sym (if_true w.running _ none r.running) ∙ e)
    where
      s : S
      s = (store.process_expirations w.store none).0

      go :
          (o : Option S)
          → command_raised store b request request.command s request.args ≡ o
          → elim o [
            | none ↦ none
            | some s' ↦ some (record w { store = s'; in_flight = w.in_flight + 1 - 1 })
          ]
            ≡ some w'
          → IsReady P w' × (request.command ≡ CommandName.expire)
      go none here e = absurd cc
      go (some s') here e =
          let (kept, name) =
            command_raised-keeps request request.command s s' request.args here
              (expires w.store none r.kept) in
          (
            subst (IsReady P) (some-injective _ _ e)
                (record { running = r.running; idle = omega (arith, r.idle); kept = kept }),
            name,
          )

  lookup_raised-IsServing :
      (rt rt' : LiteStoreRuntime S) (request : CommandRequest) (id : Text)
      (o : Option (StoreWorker S))
      → lookup id rt.workers ≡ o
      → lookup_raised store b h rt request id o ≡ some rt'
      → IsServing h P rt
      → IsServing h P rt' × (request.command ≡ CommandName.expire)
  lookup_raised-IsServing rt rt' request id none found e v = absurd cc
  lookup_raised-IsServing rt rt' request id (some w) found e v =
      go (execute_raised store b w request) refl e
    where
      go :
          (o : Option (StoreWorker S))
          → execute_raised store b w request ≡ o
          → elim o [
            | none ↦ none
            | some w' ↦ some (record rt { workers = insert id w' rt.workers })
          ]
            ≡ some rt'
          → IsServing h P rt' × (request.command ≡ CommandName.expire)
      go none here e = absurd cc
      go (some w') here e =
          let (ready, name) = execute_raised-IsReady request w w' here (v.ready id w found) in
          (
            subst (IsServing h P) (some-injective _ _ e) (replaced-IsServing h rt v id w' ready),
            name,
          )

  line_raised-IsServing :
      (rt rt' : LiteStoreRuntime S) (id : Text) (n : ℕ) (line : Text)
      → line_raised store b h rt id n line ≡ some rt'
      → IsServing h P rt
      → IsServing h P rt' × IsExpire b line
  unfolding line_raised
  line_raised-IsServing rt rt' id n line e v =
      go (parse_command b (some (id ++ text ":" ++ decimal n)) (some id) line) refl e
    where
      go :
          (parsed : Raises CommandRequest)
          → parse_command b (some (id ++ text ":" ++ decimal n)) (some id) line ≡ parsed
          → request_raised store b h rt parsed ≡ some rt'
          → IsServing h P rt' × IsExpire b line
      go (raised _) here e = absurd cc
      go (ok request) here e =
          let (serving, name) =
            lookup_raised-IsServing rt rt' request (route_request h rt.router request).worker_id _
              refl e v in
          (serving, (_, _, request, here, name))

  module _ (rt : LiteStoreRuntime S) (id : Text) (n : ℕ) (turns : List Turn) (v : IsServing h P rt)
      (next : (rt' : LiteStoreRuntime S)
        → IsServing h P rt'
        → Serves b h P turns (serve_lines store b json h f rt' id (n + 1) turns)) where
    -- a turn whose line is answered, if it does not overflow
    answered_Serves :
        (line : Text) (rt' : LiteStoreRuntime S) (answer : Text) (c : ℕ) (rest : Text)
        → line ≡ c ∷ rest
        → (outcome : Outcome) (duration : Time) → IsServing h P rt'
        → (o : Option (LiteStoreRuntime S)) → line_raised store b h rt id (n + 1) line ≡ o
        → (lost : Bool)
        → Serves b h P
            (record {
              incoming = received (c ∷ rest);
              outcome = outcome;
              duration = duration;
              lost = lost;
            }
              ∷ turns)
            (turn_before store b json h f o rt'
              (ok answer)
              lost
              (serve_lines store b json h f rt' id (n + 1) turns))
    unfolding IsServed TurnServed
    answered_Serves line rt' answer c rest same outcome duration v' (some left) here lost =
        let (serving, expire) = line_raised-IsServing rt left id (n + 1) line here v in
        record { serving = serving; served = inl (subst (IsExpire b) same expire, refl, refl) }
    answered_Serves line rt' answer c rest same outcome duration v' none here true = record {
      serving = v';
      served = inr (answer, [], refl, (refl, refl));
    }
    answered_Serves line rt' answer c rest same outcome duration v' none here false =
        let later = next rt' v' in
        record { serving = later.serving; served = inr (answer, _, refl, later.served) }

    -- one turn, with the later ones
    turn_Serves :
        (incoming : Incoming) (outcome : Outcome) (duration : Time) (lost : Bool)
        → Serves b h P
            (record { incoming = incoming; outcome = outcome; duration = duration; lost = lost }
              ∷ turns)
            (serve_lines store b json h f rt id n (
              record { incoming = incoming; outcome = outcome; duration = duration; lost = lost }
              ∷ turns))
    unfolding serve_lines IsServed TurnServed
    turn_Serves overlong outcome duration lost = record { serving = v; served = (refl, refl) }
    turn_Serves broken outcome duration lost = record { serving = v; served = (refl, refl) }
    turn_Serves (received []) outcome duration lost = record { serving = v; served = (refl, refl) }
    turn_Serves (received (c ∷ line)) outcome duration lost =
        let (rt', answer, e, v') =
          answer_line-Answers store b json h f k expires rt id (n + 1) (c ∷ line) outcome duration
            v in
        rw e (
          answered_Serves (c ∷ line) rt' answer c line refl outcome duration v'
            (line_raised store b h rt id (n + 1) (c ∷ line)) refl lost)

  serve_lines-Serves :
      (rt : LiteStoreRuntime S) (id : Text) (n : ℕ) (turns : List Turn)
      → IsServing h P rt
      → Serves b h P turns (serve_lines store b json h f rt id n turns)
  serve_lines-Serves rt id n [] v =
      unfold serve_lines IsServed in record { serving = v; served = (refl, refl) }
  serve_lines-Serves rt id n (turn ∷ turns) v =
      turn_Serves rt id n turns v (λ rt' v'. serve_lines-Serves rt' id (n + 1) turns v')
        turn.incoming turn.outcome turn.duration turn.lost

  -- In a server that serves, whose stores have an invariant that every method keeps, an EXPIRE that
  -- overflows included: `_handle_client` leaves a server that serves, and writes a text for each line
  -- of the connection, in order, to the end of its stream, or to the first line that is over the limit
  -- of the stream, that is an EXPIRE which raises an OverflowError, or before or after which the
  -- connection is lost; the exception is then the one that leaves it, and no other does.
  pub handle_client-Serves :
      (rt : LiteStoreRuntime S) (peer : Option (Text × ℕ)) (turns : List Turn)
      → IsServing h P rt
      → Serves b h P turns (handle_client store b json h f rt peer turns)
  unfolding handle_client next_connection_id
  handle_client-Serves rt peer turns v =
      serve_lines-Serves _ _ 0 turns
        (record { made = v.made; manned = v.manned; ready = v.ready; counted = v.counted })
