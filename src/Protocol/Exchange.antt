-- ===== src/Protocol/Exchange.antt =====
-- Parsing, execution and serialization together.
use mathlib.Core.List.{append_cancel_left, append_cancel_right}
use lite_store.Base.{
  ◌≡◌, ◌≢◌, ◌↔◌, refl, ap, Option, some, List, [], ◌∷◌, ◌++◌, arith, ok, raised, Option-cases, inl,
  inr,
}
use lite_store.Base.Text.{Text, text, decimal_ℤ}
use lite_store.Builtins.{Builtins}
use lite_store.Interfaces.{StoreInterface}
use lite_store.Types.{
  CommandName, CommandRequest, CommandResponse, ResponseKind, simple_string, bulk_string, integer,
  null, error, array, wrong_arity, response,
}
use lite_store.Commands.{execute_command, dispatch}
use lite_store.Commands.Responses.{Answers, execute_command-Answers}
use lite_store.Protocol.{Raises, parse_command, serialize_response, serialize_kind, crlf}
use lite_store.Protocol.Parsing.{HasArity, parse_command-Parses}

module _ {S : Type 0} (store : StoreInterface S) (b : Builtins) where
  module _ (request : CommandRequest) (s : S) where
    dispatch_arity :
        (name : CommandName) (args : List Text)
        → HasArity name args
        → (dispatch store b request name s args).1.error_code ≢ some wrong_arity
    unfolding dispatch
    dispatch_arity CommandName.ping [] h = cc
    dispatch_arity CommandName.set (_ ∷ _ ∷ []) h = cc
    dispatch_arity CommandName.get (_ ∷ []) h = ground arith
    dispatch_arity CommandName.del (_ ∷ []) h = cc
    dispatch_arity CommandName.expire (_ ∷ _ ∷ []) h = ground arith
    dispatch_arity CommandName.ttl (_ ∷ []) h = cc
    dispatch_arity CommandName.mget (_ ∷ _) h = cc
    dispatch_arity CommandName.keys [] h = cc
    dispatch_arity CommandName.keys (_ ∷ []) h = cc
    dispatch_arity CommandName.keys (_ ∷ _ ∷ _) h = absurd (omega arith)
    dispatch_arity CommandName.flushall [] h = cc
    dispatch_arity _ _ h = absurd (ground arith)

    -- For every store and request: `serialize_response` returns a line for the response of
    -- `execute_command`, and does not raise.
    pub execute_command_serializes :
        (line : Text) × (serialize_response (execute_command store b request s).1 ≡ ok line)
    execute_command_serializes = serialized (execute_command store b request s).1 answers
      where
        answers : Answers request.request_id (execute_command store b request s).1
        answers = execute_command-Answers store b request s

        kind_serialized :
            (kind : ResponseKind) (r : CommandResponse)
            → r.kind ≡ kind
            → Answers request.request_id r
            → (line : Text) × (serialize_kind kind r ≡ ok line)
        kind_serialized bulk_string r e a =
            unfold serialize_kind in
            elim (Option-cases r.value) [
              | inl absent ↦ absurd (a.bulk_value e absent)
              | inr (value, there) ↦ (text "$" ++ value ++ crlf, ground arith)
            ]
        kind_serialized integer r e a =
            unfold serialize_kind in
            elim (Option-cases r.integer) [
              | inl absent ↦ absurd (a.integer_value e absent)
              | inr (n, there) ↦ (text ":" ++ decimal_ℤ n ++ crlf, ground arith)
            ]
        kind_serialized simple_string r e a = unfold serialize_kind in (_, refl)
        kind_serialized null r e a = unfold serialize_kind in (_, refl)
        kind_serialized error r e a = unfold serialize_kind in (_, refl)
        kind_serialized array r e a = unfold serialize_kind in (_, refl)

        serialized :
            (r : CommandResponse)
            → Answers request.request_id r
            → (line : Text) × (serialize_response r ≡ ok line)
        serialized r a = unfold serialize_response in kind_serialized r.kind r refl a

    -- For every store: a request that `parse_command` returned is not answered with
    -- WRONG_ARITY.
    pub parsed-arity :
        (raw : Text) (request_id client_id : Option Text)
        → parse_command b request_id client_id raw ≡ ok request
        → (execute_command store b request s).1.error_code ≢ some wrong_arity
    unfolding execute_command
    parsed-arity raw request_id client_id parsed =
        dispatch_arity request.command request.args
          (parse_command-Parses b request_id client_id raw parsed).arity

value_line-injective : (v w : Text) → text "$" ++ v ++ crlf ≡ text "$" ++ w ++ crlf → v ≡ w
value_line-injective v w e =
    append_cancel_right v w crlf (append_cancel_left (text "$") (v ++ crlf) (w ++ crlf) e)

line_of : Raises Text → Text
line_of (ok line) = line
line_of (raised e) = []

-- The line of a bulk string and that of the null response are the same exactly when the string
-- is -1.
pub bulk_null_iff :
    (v : Text) (id : Option Text)
    → (serialize_response (record (response bulk_string id) { value = some v })
        ≡ serialize_response (response null id))
      ↔ (v ≡ text "-1")
unfolding serialize_response serialize_kind line_of
bulk_null_iff v id = (
  λ e. value_line-injective v (text "-1") (ap line_of e),
  λ e. ap (λ x. ok (text "$" ++ x ++ crlf)) e,
)
