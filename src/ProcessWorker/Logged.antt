-- ===== src/ProcessWorker/Logged.antt =====
-- The log of a worker process against its store, for a key that no EXPIRE is sent for: the log has
-- the requests that the value in the store comes from.
use mathlib.Core.List.{map-append}
use lite_store.Base.{
  ◌≡◌, ◌∙◌, sym, refl, ap, subst, arith, Bool, true, false, Option, none, some, List, [], ◌∷◌, ◌++◌,
  map, if◌then◌else◌, All, All-append,
}
use lite_store.Base.Text.{Text, text_key}
use lite_store.Clock.{Clock}
use lite_store.Builtins.{Builtins}
use lite_store.Interfaces.{memory_store}
use lite_store.Types.{
  CommandName, CommandRequest, CommandResponse, PersistRecord, FsyncPolicy, never, always, every_n,
}
use lite_store.Store.{MemoryStore}
use lite_store.Store.Holding.{Holds}
use lite_store.Commands.{execute_command, dispatch}
use lite_store.Commands.Contents.{wrote, written, Untimed}
use lite_store.Commands.Writes.{execute_command-Holds}
use lite_store.Persistence.{
  AofPersistence, JsonLib, append, apply_policy, append_request, replay, close,
}
use lite_store.Persistence.Durability.{IsLogged, append_request-IsLogged, close-IsLogged}
use lite_store.Persistence.Replay.{bare, IsPrinted, IsClosed, replay-append}
use lite_store.ProcessWorker.{is_error, writes, is_write, log_write, close_log}

-- the requests of a log
abbrev pub requests_of : List PersistRecord → List CommandRequest
requests_of = map (λ r. r.request)

written-append :
    (k : Text) (xs ys : List CommandRequest) (o : Option Text)
    → written k (xs ++ ys) o ≡ written k ys (written k xs o)
unfolding written
written-append k [] ys o = refl
written-append k (x ∷ xs) ys o = written-append k xs ys (wrote k x.command x.args o)

-- None of the records gives the key a deadline.
abbrev pub AreUntimed : Text → List PersistRecord → Type 0
AreUntimed k = All (λ r. Untimed k r.request.command r.request.args)

-- The worker keeps its log under this policy, and the store has for the key what the requests of the
-- log write.
pub record Agrees (json : JsonLib) (k : Text) (policy : FsyncPolicy) (p : AofPersistence)
    (s : MemoryStore) : Type 0 where
  pub closed : IsClosed p.content
  pub untimed : AreUntimed k (replay json p)
  pub holds : Holds k (written k (requests_of (replay json p)) none) s
  pub logged : IsLogged p
  pub kept : p.fsync_policy ≡ policy

-- A process that has a log, which agrees with its store.
abbrev pub HasAgreeing : JsonLib → Text → FsyncPolicy → Option AofPersistence → MemoryStore → Type 0
HasAgreeing json k policy o s = (p : AofPersistence) × (o ≡ some p) × Agrees json k policy p s

module _ (c : Clock) (b : Builtins) (json : JsonLib) (k : Text) where
  -- A request that is not logged has not written the key.
  unlogged_unwritten :
      (request : CommandRequest) (s : MemoryStore) (o : Option Text)
      → is_write request (execute_command (memory_store c b) b request s).1 ≡ false
      → wrote k request.command request.args o ≡ o
  unfolding is_write execute_command dispatch wrote
  unlogged_unwritten request s o = go request.command request.args
    where
      go :
          (name : CommandName) (args : List Text)
          → (if is_error (dispatch (memory_store c b) b request name s args).1.kind
              then false
              else writes name (dispatch (memory_store c b) b request name s args).1.integer)
            ≡ false
          → wrote k name args o ≡ o
      go CommandName.set (j ∷ w ∷ []) e = cc
      go CommandName.del (j ∷ []) e = cc
      go CommandName.set [] e = refl
      go CommandName.set (_ ∷ []) e = refl
      go CommandName.set (_ ∷ _ ∷ _ ∷ _) e = refl
      go CommandName.del [] e = refl
      go CommandName.del (_ ∷ _ ∷ _) e = refl
      go CommandName.ping args e = refl
      go CommandName.get args e = refl
      go CommandName.expire args e = refl
      go CommandName.ttl args e = refl
      go CommandName.mget args e = refl
      go CommandName.keys args e = refl
      go CommandName.flushall args e = refl

  append_request-policy :
      (p : AofPersistence) (request : CommandRequest)
      → (append_request json p request).0.fsync_policy ≡ p.fsync_policy
  unfolding append_request append
  append_request-policy p request = go p.fsync_policy _ refl
    where
      go :
          (policy : FsyncPolicy) (q : AofPersistence)
          → q.fsync_policy ≡ p.fsync_policy
          → (apply_policy json policy q).fsync_policy ≡ p.fsync_policy
      go never q e = unfold apply_policy in e
      go always q e = unfold apply_policy in e
      go every_n q e = unfold apply_policy in ground (arith, e)

  module _ (p : AofPersistence) (request : CommandRequest)
      (printed : IsPrinted json (record { sequence = p.next_sequence; request = request }))
      (closed : IsClosed p.content) where
    abbrev r : PersistRecord
    r = record { sequence = p.next_sequence; request = request }

    grown :
        (replay json (append json p r) ≡ replay json p ++ bare r ∷ [])
        × IsClosed (append json p r).content
    grown = replay-append json p r printed closed

    same_replay : replay json (append_request json p request).0 ≡ replay json p ++ bare r ∷ []
    same_replay = unfold append_request replay in grown.0

    pub append_request-IsClosed : IsClosed (append_request json p request).0.content
    append_request-IsClosed = unfold append_request in grown.1

    pub append_request-AreUntimed :
        Untimed k request.command request.args
        → AreUntimed k (replay json p)
        → AreUntimed k (replay json (append_request json p request).0)
    append_request-AreUntimed now before = subst (AreUntimed k) (sym same_replay) (
        All-append (λ x. Untimed k x.request.command x.request.args) (replay json p) _ before
          (now, tt))

    -- The log with one more request writes what that request writes after the others.
    pub written-append_request :
        written k (requests_of (replay json (append_request json p request).0)) none
        ≡ wrote k request.command request.args (written k (requests_of (replay json p)) none)
    written-append_request =
        ap (λ l. written k (requests_of l) none) same_replay
        ∙ ap (λ l. written k l none)
            (map-append (λ (x : PersistRecord). x.request) (replay json p) (bare r ∷ []))
        ∙ written-append k (requests_of (replay json p)) _ none
        ∙ unfold written in refl

  module _ (policy : FsyncPolicy) (p : AofPersistence) (s : MemoryStore)
      (agrees : Agrees json k policy p s) where
    appended-Agrees :
        (request : CommandRequest) (s' : MemoryStore)
        → IsPrinted json (record { sequence = p.next_sequence; request = request })
        → Untimed k request.command request.args
        → Holds k
            (wrote k request.command request.args (written k (requests_of (replay json p)) none))
            s'
        → Agrees json k policy (append_request json p request).0 s'
    appended-Agrees request s' printed untimed holds = record {
      closed = append_request-IsClosed p request printed agrees.closed;
      untimed = append_request-AreUntimed p request printed agrees.closed untimed agrees.untimed;
      holds =
          subst (λ o. Holds k o s') (sym (written-append_request p request printed agrees.closed))
            holds;
      logged = append_request-IsLogged json p request agrees.logged;
      kept = append_request-policy p request ∙ agrees.kept;
    }

    -- After a request that gives the key no deadline, the log agrees with the store again.
    pub executed-HasAgreeing :
        (request : CommandRequest) (o : Option AofPersistence)
        → o ≡ some p
        → Untimed k request.command request.args
        → ((r : CommandResponse)
            → is_write request r ≡ true
            → IsPrinted json (record { sequence = p.next_sequence; request = request }))
        → HasAgreeing json k policy
            (log_write json o request (execute_command (memory_store c b) b request s).1)
            (execute_command (memory_store c b) b request s).0
    executed-HasAgreeing request o has untimed printed =
        subst (λ x. HasAgreeing json k policy (log_write json x request r) s') (sym has)
          (unfold log_write in either (is_write request r) refl)
      where
        s' : MemoryStore
        s' = (execute_command (memory_store c b) b request s).0

        r : CommandResponse
        r = (execute_command (memory_store c b) b request s).1

        before : Option Text
        before = written k (requests_of (replay json p)) none

        held : Holds k (wrote k request.command request.args before) s'
        held = execute_command-Holds c b k before request s untimed agrees.holds

        either :
            (t : Bool)
            → is_write request r ≡ t
            → HasAgreeing json k policy
                (if t then some (append_request json p request).0 else some p)
                s'
        either true e = (_, refl, appended-Agrees request s' (printed r e) untimed held)
        either false e = (
          p,
          refl,
          record {
            closed = agrees.closed;
            untimed = agrees.untimed;
            holds = subst (λ x. Holds k x s') (unlogged_unwritten request s before e) held;
            logged = agrees.logged;
            kept = agrees.kept;
          },
        )

    pub closed-HasAgreeing :
        (o : Option AofPersistence)
        → o ≡ some p
        → HasAgreeing json k policy (close_log c b json o) s
    closed-HasAgreeing o has =
        subst (λ x. HasAgreeing json k policy (close_log c b json x) s) (sym has)
          (
            close json p,
            refl,
            record {
              closed = subst IsClosed (sym content) agrees.closed;
              untimed = subst (AreUntimed k) (sym same) agrees.untimed;
              holds =
                  subst (λ l. Holds k (written k (requests_of l) none) s) (sym same) agrees.holds;
              logged = close-IsLogged json p agrees.logged;
              kept = policy_kept ∙ agrees.kept;
            },
          )
      where
        content : (close json p).content ≡ p.content
        content = unfold close in ground arith

        policy_kept : (close json p).fsync_policy ≡ p.fsync_policy
        policy_kept = unfold close in ground arith

        same : replay json (close json p) ≡ replay json p
        same = unfold replay in ap (λ t. replay json (record p { content = t })) content
