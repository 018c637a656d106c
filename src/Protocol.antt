-- ===== src/Protocol.antt =====
-- The text protocol of src/protocol.py.
pub mod Parsing
pub mod Exchange
use lite_store.Base.{
  or_else, ℕ, zero, suc, Bool, true, false, Option, none, some, List, [], ◌∷◌, ◌++◌, length,
  if◌then◌else◌, ◌==◌, ltb, ite, Result, ok, raised, ◌>>=◌, ◌>>◌, ℤ, leb,
}
use lite_store.Base.Text.{
  Text, text, Text-discrete, text_key, strip, split, split_max, decimal, decimal_ℤ,
}
use lite_store.Builtins.{Builtins}
use lite_store.Errors.{
  LiteStoreError, invalid_request_error, unknown_command_error, wrong_arity_error,
}
use lite_store.Types
use lite_store.Types.{
  CommandName, command_value, CommandRequest, CommandResponse, ErrorCode, ResponseKind, error_value,
  simple_string, bulk_string, integer, null, error, array,
}

-- A call that may raise a LiteStoreError.
abbrev pub Raises : Type 0 → Type 0
Raises A = Result LiteStoreError A

-- _ensure_arity
unfoldable pub ensure_arity : Text → List Text → ℕ → Raises (Unit {0})
unfolding wrong_arity_error
ensure_arity command args expected =
    if length args == expected
    then ok tt
    else raised (
        wrong_arity_error
          (command
            ++ text " expects "
            ++ decimal expected
            ++ text " argument(s), received "
            ++ decimal (length args))
          ((text "command", command)
            ∷ (text "expected", decimal expected)
            ∷ (text "received", decimal (length args))
            ∷ []))

-- the `SET` branch of `_split_command`: the value is all that follows the key
abbrev pub set_parts : List Text → List Text
set_parts (verb ∷ key ∷ value ∷ []) = key ∷ value ∷ []
set_parts (verb ∷ rest) = rest
set_parts [] = []

module _ (b : Builtins) where
  -- text.upper()
  unfoldable pub upper : Text → Text
  upper [] = []
  upper (c ∷ s) = b.upper c ++ upper s

  -- `_split_command` after its first `split`. An empty line has no first part, and is not split.
  unfoldable pub split_parts : Text → List Text → Text × List Text
  unfolding upper
  split_parts line [] = ([], [])
  split_parts line (verb ∷ []) = (upper verb, [])
  split_parts line (verb ∷ rest ∷ _) = (
    upper verb,
    ite (Text-discrete (upper verb) (command_value CommandName.set)) (set_parts (split_max 2 line))
        (split rest),
  )

  -- _split_command
  unfoldable pub split_command : Text → Text × List Text
  unfolding split_parts
  split_command line = split_parts line (split_max 1 line)

  module _ (request_id client_id : Option Text) where
    abbrev pub request : CommandName → List Text → CommandRequest
    request name args = record {
      command = name;
      args = args;
      request_id = request_id;
      client_id = client_id;
    }

    abbrev pub exactly : Text → CommandName → List Text → ℕ → Raises CommandRequest
    exactly verb name args expected = ensure_arity verb args expected >> ok (request name args)

    abbrev complaint : Text → Text → Raises CommandRequest
    complaint verb message = raised (wrong_arity_error message ((text "command", verb) ∷ []))

    abbrev is_verb :
        CommandName → Text → Raises CommandRequest → Raises CommandRequest → Raises CommandRequest
    is_verb name verb yes_branch no_branch =
        ite (Text-discrete verb (command_value name)) yes_branch no_branch

    -- the chain of tests of `parse_command` on the verb
    unfoldable pub parse_verb : Text → List Text → Raises CommandRequest
    unfolding ensure_arity unknown_command_error
    parse_verb verb args =
        is_verb CommandName.ping verb (ensure_arity verb args 0 >> ok (request CommandName.ping []))
          (is_verb CommandName.set verb (exactly verb CommandName.set args 2) (
            is_verb CommandName.get verb (exactly verb CommandName.get args 1) (
              is_verb CommandName.del verb (exactly verb CommandName.del args 1) (
                is_verb CommandName.expire verb (exactly verb CommandName.expire args 2) (
                  is_verb CommandName.ttl verb (exactly verb CommandName.ttl args 1) (
                    is_verb CommandName.mget verb
                      (if ltb (length args) 1
                        then complaint verb (text "MGET requires at least 1 key")
                        else ok (request CommandName.mget args))
                      (is_verb CommandName.keys verb
                        (if ltb 1 (length args)
                          then complaint verb (text "KEYS accepts 0 or 1 arguments")
                          else ok (request CommandName.keys args))
                        (is_verb CommandName.flushall verb
                          (ensure_arity verb args 0 >> ok (request CommandName.flushall []))
                          (raised (
                            unknown_command_error (text "Unsupported command: " ++ verb)
                              ((text "command", verb) ∷ [])))))))))))

    abbrev pub parse_line : Text → Raises CommandRequest
    parse_line [] = raised (invalid_request_error (text "Command cannot be empty") [])
    parse_line (c ∷ line) = let (verb, args) = split_command (c ∷ line) in parse_verb verb args

    -- parse_command(raw_command, request_id=…, client_id=…), for a text
    unfoldable pub parse_command : Text → Raises CommandRequest
    unfolding split_command parse_verb invalid_request_error
    parse_command raw_command = parse_line (strip raw_command)

abbrev pub crlf : Text
crlf = 13 ∷ 10 ∷ []

-- one element of an array
unfoldable pub item_line : Option Text → Text
item_line none = text "$-1" ++ crlf
item_line (some item) = text "$" ++ item ++ crlf

unfoldable pub item_lines : List (Option Text) → Text
unfolding item_line
item_lines [] = []
item_lines (item ∷ items) = item_line item ++ item_lines items

-- serialize_response, by the response's kind
unfoldable pub serialize_kind : ResponseKind → CommandResponse → Raises Text
unfolding item_lines invalid_request_error
serialize_kind simple_string r = ok (text "+" ++ or_else r.message [] ++ crlf)
serialize_kind bulk_string r = elim r.value [
  | none ↦ raised (invalid_request_error (text "Bulk string response requires a value") [])
  | some value ↦ ok (text "$" ++ value ++ crlf)
]
serialize_kind integer r = elim r.integer [
  | none ↦ raised (invalid_request_error (text "Integer response requires an integer value") [])
  | some n ↦ ok (text ":" ++ decimal_ℤ n ++ crlf)
]
serialize_kind null r = ok (text "$-1" ++ crlf)
serialize_kind array r = ok (text "*" ++ decimal (length r.values) ++ crlf ++ item_lines r.values)
serialize_kind error r = ok (
    text "-ERR "
    ++ error_value (or_else r.error_code ErrorCode.internal_error)
    ++ text " "
    ++ or_else r.message (text "Unknown error")
    ++ crlf)

unfoldable pub serialize_response : CommandResponse → Raises Text
unfolding serialize_kind
serialize_response r = serialize_kind r.kind r
