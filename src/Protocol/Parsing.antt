-- ===== src/Protocol/Parsing.antt =====
-- What `parse_command` of src/protocol.py accepts, and how it refuses.
use lite_store.Base.{ℕ, ◌≡◌, ◌≤◌, subst, ite, Option, List, [], ◌∷◌, arith, length, ok}
use lite_store.Base.Text.{Text, Text-discrete, strip}
use lite_store.Builtins.{Builtins}
use lite_store.Types.{CommandName, CommandRequest, command_value}
use lite_store.Protocol.{
  Raises, request, exactly, parse_command, parse_verb, parse_line, split_command, ensure_arity,
}

-- The number of arguments that a command takes.
abbrev pub HasArity : CommandName → List Text → Type 0
HasArity CommandName.ping args = args ≡ []
HasArity CommandName.set args = length args ≡ 2
HasArity CommandName.get args = length args ≡ 1
HasArity CommandName.del args = length args ≡ 1
HasArity CommandName.expire args = length args ≡ 2
HasArity CommandName.ttl args = length args ≡ 1
HasArity CommandName.mget args = 1 ≤ length args
HasArity CommandName.keys args = length args ≤ 1
HasArity CommandName.flushall args = args ≡ []

-- A parsed request has the arguments that its command takes, and the ids of the call.
pub record Parses (id client : Option Text) (r : CommandRequest) : Type 0 where
  pub arity : HasArity r.command r.args
  pub request_id : r.request_id ≡ id
  pub client_id : r.client_id ≡ client

module _ (b : Builtins) (request_id client_id : Option Text) where
  -- What `m` returns, if it returns, is a parsed request.
  abbrev Gives : Raises CommandRequest → Type 0
  Gives m = (r : CommandRequest) → m ≡ ok r → Parses request_id client_id r

  ite-Gives :
      {P : Type 0} (d : Dec P) {m n : Raises CommandRequest} → Gives m → Gives n → Gives (ite d m n)
  ite-Gives (yes p) gm gn = gm
  ite-Gives (no p) gm gn = gn

  exactly-Gives :
      (verb : Text) (name : CommandName) (args : List Text) (n : ℕ)
      → (length args ≡ n → HasArity name args)
      → Gives (exactly b request_id client_id verb name args n)
  unfolding ensure_arity
  exactly-Gives verb name args n fits r h = record {
    arity = subst (λ (q : CommandRequest). HasArity q.command q.args) made (fits (ground arith));
    request_id = ground arith;
    client_id = ground arith;
  }
    where
      made : request b request_id client_id name args ≡ r
      made = ground arith

  verb-Gives :
      (verb : Text) (args : List Text) → Gives (parse_verb b request_id client_id verb args)
  unfolding parse_verb
  verb-Gives verb args =
      let is = λ (name : CommandName). Text-discrete verb (command_value name) in
      let exact = λ (name : CommandName) (n : ℕ). exactly-Gives verb name args n in
      ite-Gives (is CommandName.ping) (λ r h. ground arith)
        (ite-Gives (is CommandName.set) (exact CommandName.set 2 (λ e. e)) (
          ite-Gives (is CommandName.get) (exact CommandName.get 1 (λ e. e)) (
            ite-Gives (is CommandName.del) (exact CommandName.del 1 (λ e. e)) (
              ite-Gives (is CommandName.expire) (exact CommandName.expire 2 (λ e. e)) (
                ite-Gives (is CommandName.ttl) (exact CommandName.ttl 1 (λ e. e)) (
                  ite-Gives (is CommandName.mget) (λ r h. ground arith)
                    (ite-Gives (is CommandName.keys) (λ r h. ground arith)
                      (ite-Gives (is CommandName.flushall) (λ r h. ground arith) (λ r h. cc)))))))))

  -- A request that `parse_command` returns has as many arguments as its command takes, and the
  -- ids that were passed in.
  pub parse_command-Parses :
      (raw : Text) {r : CommandRequest}
      → parse_command b request_id client_id raw ≡ ok r
      → Parses request_id client_id r
  unfolding parse_command
  parse_command-Parses raw {r} h = go (strip raw) h
    where
      go :
          (line : Text)
          → parse_line b request_id client_id line ≡ ok r
          → Parses request_id client_id r
      go [] e = cc
      go (c ∷ line) e = verb-Gives (split_command b (c ∷ line)).0 (split_command b (c ∷ line)).1 r e
