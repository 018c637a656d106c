-- ===== src/Commands/Responses.antt =====
-- What every response of `execute_command` has in common.
use lite_store.Base.{◌≡◌, ◌≢◌, ◌⊎◌, refl, Option, none, List, [], ◌∷◌, arith}
use lite_store.Base.Text.{Text}
use lite_store.Builtins.{Builtins}
use lite_store.Interfaces.{StoreInterface}
use lite_store.Types.{
  CommandName, ping, set, get, del, expire, ttl, mget, keys, flushall, CommandRequest,
  CommandResponse, bulk_string, integer, error, array,
}
use lite_store.Commands.{execute_command, dispatch}

-- The fields that the serializer reads are there for the response's kind, the other payload fields
-- are not, and the response carries the request's id.
pub record Answers (id : Option Text) (r : CommandResponse) : Type 0 where
  pub request_id : r.request_id ≡ id
  pub value_only_bulk : (r.value ≡ none) ⊎ (r.kind ≡ bulk_string)
  pub bulk_value : r.kind ≡ bulk_string → r.value ≢ none
  pub integer_only : (r.integer ≡ none) ⊎ (r.kind ≡ integer)
  pub integer_value : r.kind ≡ integer → r.integer ≢ none
  pub error_code_only : (r.error_code ≡ none) ⊎ (r.kind ≡ error)
  pub error_has_code : r.kind ≡ error → r.error_code ≢ none
  pub array_only : (r.values ≡ []) ⊎ (r.kind ≡ array)

module _ {S : Type 0} (store : StoreInterface S) (b : Builtins) (request : CommandRequest) where
  dispatch-Answers :
      (name : CommandName) (s : S) (args : List Text)
      → Answers request.request_id (dispatch store b request name s args).1
  unfolding dispatch
  dispatch-Answers ping s [] = ground arith
  dispatch-Answers ping s (_ ∷ _) = ground arith
  dispatch-Answers set s (_ ∷ _ ∷ []) = ground arith
  dispatch-Answers get s (k ∷ []) = ground arith
  dispatch-Answers del s (_ ∷ []) = ground arith
  dispatch-Answers expire s (_ ∷ _ ∷ []) = ground arith
  dispatch-Answers ttl s (_ ∷ []) = ground arith
  dispatch-Answers mget s [] = ground arith
  dispatch-Answers mget s (_ ∷ _) = ground arith
  dispatch-Answers keys s [] = ground arith
  dispatch-Answers keys s (_ ∷ []) = ground arith
  dispatch-Answers keys s (_ ∷ _ ∷ _) = ground arith
  dispatch-Answers flushall s [] = ground arith
  dispatch-Answers flushall s (_ ∷ _) = ground arith
  dispatch-Answers _ s _ = ground arith

  -- For every store and request, errors included: the response has the request's id, the value,
  -- integer, error code or array that its kind calls for, and none of those of another kind.
  pub execute_command-Answers :
      (s : S) → Answers request.request_id (execute_command store b request s).1
  unfolding execute_command
  execute_command-Answers s = dispatch-Answers request.command s request.args

  dispatch_error :
      (name : CommandName) (s : S) (args : List Text)
      → (dispatch store b request name s args).1.kind ≡ error
      → (dispatch store b request name s args).0 ≡ s
  unfolding dispatch
  dispatch_error ping s [] h = cc
  dispatch_error set s (_ ∷ _ ∷ []) h = cc
  dispatch_error get s (k ∷ []) h = ground arith
  dispatch_error del s (_ ∷ []) h = cc
  dispatch_error expire s (_ ∷ _ ∷ []) h = ground arith
  dispatch_error ttl s (_ ∷ []) h = cc
  dispatch_error mget s (_ ∷ _) h = cc
  dispatch_error keys s [] h = cc
  dispatch_error keys s (_ ∷ []) h = cc
  dispatch_error keys s (_ ∷ _ ∷ _) h = refl
  dispatch_error flushall s [] h = cc
  dispatch_error _ s _ h = refl

  -- For every store: a command that is answered with an error leaves the store as it was.
  pub execute_command_error :
      (s : S)
      → (execute_command store b request s).1.kind ≡ error
      → (execute_command store b request s).0 ≡ s
  unfolding execute_command
  execute_command_error s = dispatch_error request.command s request.args
