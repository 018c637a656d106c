-- ===== src/ProcessWorker/Restart.antt =====
-- What a worker process finds in its log when it starts again.
--
-- The keys are those that no EXPIRE is sent for: the replay of an EXPIRE counts its seconds from the
-- time of the restart, and a FLUSHALL is not in the log.
use lite_store.Base.{
  ◌≡◌, ◌∙◌, sym, refl, ap, subst, true, Option, none, some, List, [], ◌∷◌, ite-elim, if-elim, ℤ, ℕ,
  All,
}
use lite_store.Base.Text.{Text, text, text_key, Text-discrete}
use lite_store.Base.Dict.{lookup}
use lite_store.Clock.{Clock}
use lite_store.Builtins.{Builtins}
use lite_store.Types.{
  CommandResponse, WorkerRequest, WorkerControl, PersistRecord, FsyncPolicy, always,
}
use lite_store.Store
use lite_store.Store.{MemoryStore, time_source, processed}
use lite_store.Store.Holding.{Holds, processed-Holds}
use lite_store.Store.Recovery.{apply_replay_request-Holds}
use lite_store.Commands.Contents.{wrote, written, Untimed}
use lite_store.Persistence.{AofPersistence, JsonLib, make_persistence, replay}
use lite_store.Persistence.Durability.{make_persistence-IsLogged, always_synced_lines}
use lite_store.Persistence.Replay.{IsPrinted, IsClosed}
use lite_store.ProcessWorker
use lite_store.ProcessWorker.{
  WorkerProcess, Event, nothing, controlled, requested, request_of, is_write, start, run_loop,
}
use lite_store.ProcessWorker.Logged.{
  requests_of, AreUntimed, HasAgreeing, executed-HasAgreeing, closed-HasAgreeing,
}

-- A message gives the key no deadline and does not flush, and JSON prints what the log gets of it.
abbrev pub IsPlain : JsonLib → Text → Event → Type 0
IsPlain json k nothing = Unit
IsPlain json k (controlled msg) = Unit
IsPlain json k (requested msg) =
    Untimed k msg.command msg.args
    × ((n : ℤ) (r : CommandResponse)
        → is_write (request_of msg) r ≡ true
        → IsPrinted json (record { sequence = n; request = request_of msg }))

module _ (c : Clock) (b : Builtins) (json : JsonLib) (k : Text) where
  replay_all-Holds :
      (records : List PersistRecord) (s : MemoryStore) (o : Option Text)
      → AreUntimed k records
      → Holds k o s
      → Holds k (written k (requests_of records) o) (ProcessWorker.replay_all c b json s records)
  unfolding ProcessWorker.replay_all written
  replay_all-Holds [] s o untimed h = h
  replay_all-Holds (r ∷ records) s o untimed h =
      replay_all-Holds records (Store.apply_replay_request c b s r.request)
        (wrote k r.request.command r.request.args o) untimed.1
        (apply_replay_request-Holds c b k o s r.request untimed.0 h)

  -- The store of a process that starts has for the key what the requests of its log write.
  pub start-Holds :
      (content : Text) (policy : FsyncPolicy) (n : ℕ)
      → AreUntimed k (replay json (make_persistence json content policy n))
      → Holds k
          (written k (requests_of (replay json (make_persistence json content policy n))) none)
          (start c b json (some content) policy n).store
  unfolding start ProcessWorker.recovered
  start-Holds content policy n untimed =
      replay_all-Holds (replay json (make_persistence json content policy n)) (Store.init c) none
        untimed (unfold lookup in (refl, refl))

module _ (c : Clock) (b : Builtins) (json : JsonLib) (k : Text) where
  module _ (policy : FsyncPolicy) where
    -- the worker has a log that agrees with its store
    abbrev pub Restores : WorkerProcess → Type 0
    Restores w = HasAgreeing json k policy w.persistence w.store

    start-Restores :
        (content : Text) (n : ℕ)
        → IsClosed content
        → AreUntimed k (replay json (make_persistence json content policy n))
        → Restores (start c b json (some content) policy n)
    start-Restores content n closed untimed = (
      make_persistence json content policy n,
      unfold start in refl,
      record {
        closed = unfold make_persistence in closed;
        untimed = untimed;
        holds = start-Holds c b json k content policy n untimed;
        logged = make_persistence-IsLogged json content policy n;
        kept = unfold make_persistence in refl;
      },
    )

    -- a change of the store that keeps what it has for the key
    passed-HasAgreeing :
        (o : Option AofPersistence) (s s' : MemoryStore)
        → ((x : Option Text) → Holds k x s → Holds k x s')
        → HasAgreeing json k policy o s
        → HasAgreeing json k policy o s'
    passed-HasAgreeing o s s' keeps (p, has, agrees) = (
      p,
      has,
      record {
        closed = agrees.closed;
        untimed = agrees.untimed;
        holds = keeps _ agrees.holds;
        logged = agrees.logged;
        kept = agrees.kept;
      },
    )

    expiration_cycle-Restores :
        (w : WorkerProcess) → Restores w → Restores (ProcessWorker.expiration_cycle c b json w)
    expiration_cycle-Restores w v =
        unfold ProcessWorker.expiration_cycle in
        if-elim Restores (c.overdue (time_source c w.store).1 w.last_expiration)
          (passed-HasAgreeing w.persistence w.store _
            (λ x h. processed-Holds c k x (time_source c w.store).0 h) v)
          (passed-HasAgreeing w.persistence w.store _ (λ x h. h) v)

    handle_control-Restores :
        (w : WorkerProcess) (msg : WorkerControl)
        → Restores w
        → Restores (ProcessWorker.handle_control c b json w msg)
    unfolding ProcessWorker.handle_control
    handle_control-Restores w msg v =
        ite-elim Restores (Text-discrete msg.action (text "shutdown"))
          (unfold ProcessWorker.shutdown in
            closed-HasAgreeing c b json k policy v.0 w.store v.2 w.persistence v.1)
          (ite-elim Restores (Text-discrete msg.action (text "snapshot"))
            (unfold ProcessWorker.answer_snapshot Store.snapshot in
              passed-HasAgreeing w.persistence w.store _ (λ x h. processed-Holds c k x w.store h) v)
            v)

    handle_request-Restores :
        (w : WorkerProcess) (msg : WorkerRequest)
        → IsPlain json k (requested msg)
        → Restores w
        → Restores (ProcessWorker.handle_request c b json w msg)
    handle_request-Restores w msg plain (p, has, agrees) =
        unfold ProcessWorker.handle_request in
        executed-HasAgreeing c b json k policy p w.store agrees (request_of msg) w.persistence has
          plain.0 (plain.1 p.next_sequence)

    round-Restores :
        (w : WorkerProcess) (e : Event)
        → IsPlain json k e
        → Restores w
        → Restores (ProcessWorker.round c b json w e)
    unfolding ProcessWorker.round
    round-Restores w nothing plain v = expiration_cycle-Restores w v
    round-Restores w (controlled msg) plain v =
        expiration_cycle-Restores (ProcessWorker.handle_control c b json w msg)
          (handle_control-Restores w msg v)
    round-Restores w (requested msg) plain v =
        expiration_cycle-Restores (ProcessWorker.handle_request c b json w msg)
          (handle_request-Restores w msg plain v)

    run_loop-Restores :
        (events : List Event) (w : WorkerProcess)
        → All (IsPlain json k) events
        → Restores w
        → Restores (run_loop c b json w events)
    unfolding run_loop
    run_loop-Restores [] w plain v = v
    run_loop-Restores (e ∷ events) w plain v =
        if-elim Restores w.running
          (if-elim Restores (ProcessWorker.overflows c b json w e) v (
            run_loop-Restores events (ProcessWorker.round c b json w e) plain.1
              (round-Restores w e plain.0 v)))
          v

  same_replay :
      (p : AofPersistence) (policy : FsyncPolicy) (n : ℕ)
      → replay json (make_persistence json p.content policy n) ≡ replay json p
  same_replay p policy n = unfold replay make_persistence in refl

  -- A worker process that starts from a log, whose lines are whole and which neither gives the key a
  -- deadline nor has a FLUSHALL, and then takes any messages and pauses, of which none gives the key a
  -- deadline or flushes: it has a log, and whenever the process ends, a process that starts from that
  -- log has for the key what this one had, whatever their policies and clocks are. With ALWAYS, all
  -- lines that it appended are on the disk. JSON is assumed to print what is logged on one line that
  -- it reads back.
  pub restart_restores :
      (content : Text) (policy : FsyncPolicy) (n : ℕ) (events : List Event)
      → IsClosed content
      → AreUntimed k (replay json (make_persistence json content policy n))
      → All (IsPlain json k) events
      → (p : AofPersistence) × ((run_loop c b json
            (start c b json (some content) policy n)
            events).persistence
          ≡ some p)
        × (policy ≡ always → p.unsynced ≡ [])
        × ((c' : Clock) (policy' : FsyncPolicy) (n' : ℕ)
            → lookup k (start c' b json (some p.content) policy' n').store.items
              ≡ lookup k
                  (run_loop c b json (start c b json (some content) policy n) events).store.items)
  restart_restores content policy n events closed untimed plain =
      let (p, has, agrees) =
        run_loop-Restores policy events (start c b json (some content) policy n) plain
          (start-Restores policy content n closed untimed) in
      let log = agrees.logged in
      (
        p,
        has,
        λ e. always_synced_lines p log (agrees.kept ∙ e),
        λ c' policy' n'.
            (start-Holds c' b json k p.content policy' n'
              (subst (AreUntimed k) (sym (same_replay p policy' n')) agrees.untimed)).0
            ∙ ap (λ l. written k (requests_of l) none) (same_replay p policy' n')
            ∙ sym agrees.holds.0,
      )
