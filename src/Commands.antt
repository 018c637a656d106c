-- ===== src/Commands.antt =====
-- The command layer of src/commands.py, over any store that fills the store interface.
pub mod Responses
pub mod Keeps
pub mod Contents
pub mod Writes
use lite_store.Base.{
  ℕ, ◌+◌, zero, suc, Bool, true, false, not, Option, none, some, List, [], ◌∷◌, ◌++◌, map, length,
  if◌then◌else◌, ◌==◌, ltb, ℤ, pos,
}
use lite_store.Base.Text.{Text, text, decimal}
use lite_store.Builtins.{Builtins}
use lite_store.Interfaces.{StoreInterface}
use lite_store.Types.{
  CommandName, ErrorCode, ResponseKind, CommandRequest, CommandResponse, response, command_value,
  simple_string, bulk_string, integer, error, array, invalid_request, wrong_arity,
}

-- a response of kind ERROR
abbrev pub error_response : ErrorCode → Text → Option Text → CommandResponse
error_response code message request_id = record (response error request_id) {
  error_code = some code;
  message = some message;
}

-- a response of kind INTEGER
abbrev pub integer_response : ℤ → Option Text → CommandResponse
integer_response n request_id = record (response integer request_id) { integer = some n }

unfoldable pub wrong_arity_response : CommandRequest → ℕ → CommandResponse
wrong_arity_response request expected =
    error_response wrong_arity
      (command_value request.command
        ++ text " expects "
        ++ decimal expected
        ++ text " argument(s), received "
        ++ decimal (length request.args))
      request.request_id

abbrev flag : Bool → ℤ
flag b = if b then pos 1 else pos 0

module _ {S : Type 0} (store : StoreInterface S) where
  -- tuple(store.get(k) for k in args)
  unfoldable pub get_all : S → List Text → S × List (Option Text)
  get_all s [] = (s, [])
  get_all s (k ∷ ks) =
      let (s', value) = store.get s k in let (s'', values) = get_all s' ks in (s'', value ∷ values)

  module _ (b : Builtins) (request : CommandRequest) where
    open request use {request_id}

    -- One branch of `execute_command` for each command. The tests of `_has_arity` are the patterns.
    unfoldable pub execute_set : S → List Text → S × CommandResponse
    execute_set s (key ∷ value ∷ []) = (
      store.set s key value,
      record (response simple_string request_id) { message = some (text "OK") },
    )
    execute_set s _ = (s, wrong_arity_response request 2)

    unfoldable pub execute_get : S → List Text → S × CommandResponse
    execute_get s (key ∷ []) =
        let (s', result) = store.get s key in
        (
          s',
          elim result [
            | none ↦ response ResponseKind.null request_id
            | some value ↦ record (response bulk_string request_id) { value = some value }
          ],
        )
    execute_get s _ = (s, wrong_arity_response request 1)

    unfoldable pub execute_del : S → List Text → S × CommandResponse
    execute_del s (key ∷ []) =
        let (s', deleted) = store.delete s key in (s', integer_response (flag deleted) request_id)
    execute_del s _ = (s, wrong_arity_response request 1)

    -- EXPIRE once its seconds are read
    unfoldable pub expire_seconds : S → Text → Option ℤ → S × CommandResponse
    expire_seconds s key none =
        (s, error_response invalid_request (text "EXPIRE seconds must be an integer") request_id)
    expire_seconds s key (some seconds) =
        let (s', expired_set) = store.expire s key seconds in
        (s', integer_response (flag expired_set) request_id)

    unfoldable pub execute_expire : S → List Text → S × CommandResponse
    unfolding expire_seconds
    execute_expire s (key ∷ seconds_raw ∷ []) = expire_seconds s key (b.int_of seconds_raw)
    execute_expire s _ = (s, wrong_arity_response request 2)

    unfoldable pub execute_ttl : S → List Text → S × CommandResponse
    execute_ttl s (key ∷ []) =
        let (s', remaining) = store.ttl s key in (s', integer_response remaining request_id)
    execute_ttl s _ = (s, wrong_arity_response request 1)

    unfoldable pub execute_mget : S → List Text → S × CommandResponse
    execute_mget s [] =
        (s, error_response wrong_arity (text "MGET requires at least 1 key") request_id)
    execute_mget s (key ∷ ks) =
        let (s', values) = get_all s (key ∷ ks) in
        (s', record (response array request_id) { values = values })

    unfoldable pub execute_keys : S → List Text → S × CommandResponse
    execute_keys s (_ ∷ _ ∷ _) =
        (s, error_response wrong_arity (text "KEYS accepts 0 or 1 arguments") request_id)
    execute_keys s [] =
        let (s', matched) = store.keys s (text "*") in
        (s', record (response array request_id) { values = map some matched })
    execute_keys s (pattern ∷ []) =
        let (s', matched) = store.keys s pattern in
        (s', record (response array request_id) { values = map some matched })

    unfoldable pub execute_flushall : S → List Text → S × CommandResponse
    execute_flushall s [] =
        let (s', count) = store.flush s in (s', integer_response (pos count) request_id)
    execute_flushall s _ = (s, wrong_arity_response request 0)

    unfoldable pub execute_ping : S → List Text → S × CommandResponse
    execute_ping s [] =
        (s, record (response simple_string request_id) { message = some (text "PONG") })
    execute_ping s _ = (s, wrong_arity_response request 0)

    unfoldable pub dispatch : CommandName → S → List Text → S × CommandResponse
    unfolding execute_ping execute_set execute_get execute_del execute_expire execute_ttl
        execute_mget execute_keys execute_flushall wrong_arity_response get_all
    dispatch CommandName.ping = execute_ping
    dispatch CommandName.set = execute_set
    dispatch CommandName.get = execute_get
    dispatch CommandName.del = execute_del
    dispatch CommandName.expire = execute_expire
    dispatch CommandName.ttl = execute_ttl
    dispatch CommandName.mget = execute_mget
    dispatch CommandName.keys = execute_keys
    dispatch CommandName.flushall = execute_flushall

    -- the store that `execute_command` leaves when it raises an OverflowError, which only an EXPIRE does
    unfoldable pub expire_arguments_raised : S → List Text → Option S
    expire_arguments_raised s (key ∷ seconds_raw ∷ []) = elim (b.int_of seconds_raw) [
      | none ↦ none
      | some seconds ↦ store.expire_raised s key seconds
    ]
    expire_arguments_raised s _ = none

    unfoldable pub command_raised : CommandName → S → List Text → Option S
    unfolding expire_arguments_raised
    command_raised CommandName.expire = expire_arguments_raised
    command_raised _ = λ s args. none

    -- execute_command(request, store)
    unfoldable pub execute_command : S → S × CommandResponse
    unfolding dispatch
    execute_command s = dispatch request.command s request.args
