-- ===== src/ProcessWorker/Answered.antt =====
-- What the worker process answers, and what it writes for a request that fails.
use mathlib.Core.List.{append-nil, append_assoc}
use lite_store.Base.{
  ◌≡◌, ◌∙◌, sym, refl, ap, true, false, Option, none, some, List, [], ◌∷◌, ◌++◌, map, arith, ite,
  Bool, if-elim, if_true, if_false, if◌then◌else◌,
}
use lite_store.Base.Text.{Text, text, Text-discrete}
use lite_store.Clock.{Clock}
use lite_store.Builtins.{Builtins}
use lite_store.Interfaces.{memory_store}
use lite_store.Types.{error, CommandResponse, WorkerRequest, WorkerResponse}
use lite_store.Commands.{execute_command}
use lite_store.Commands.Responses.{execute_command_error}
use lite_store.Persistence.{AofPersistence, JsonLib}
use lite_store.ProcessWorker
use lite_store.ProcessWorker.{WorkerProcess, Event, nothing, controlled, requested}

abbrev pub ids : List WorkerResponse → List Text
ids responses = map (λ (r : WorkerResponse). r.request_id) responses

module _ (c : Clock) (b : Builtins) (json : JsonLib) where
  -- the ids to answer, in order: one for each request and each snapshot before the shutdown
  unfoldable pub due_ids : List Event → List Text
  due_ids [] = []
  due_ids (nothing ∷ events) = due_ids events
  due_ids (requested msg ∷ events) = msg.request_id ∷ due_ids events
  due_ids (controlled msg ∷ events) =
      let rest = due_ids events in
      ite (Text-discrete msg.action (text "shutdown")) [] (
        ite (Text-discrete msg.action (text "snapshot"))
          (ProcessWorker.or_snapshot c b json msg.request_id ∷ rest) rest)

  -- the events that the process comes to: those before the first EXPIRE that overflows
  unfoldable pub reached : WorkerProcess → List Event → List Event
  reached w [] = []
  reached w (e ∷ events) =
      let later = reached (ProcessWorker.round c b json w e) events in
      if ProcessWorker.overflows c b json w e then [] else e ∷ later

  pub ids-append : (xs ys : List WorkerResponse) → ids (xs ++ ys) ≡ ids xs ++ ids ys
  ids-append [] ys = refl
  ids-append (x ∷ xs) ys = ap (λ l. x.request_id ∷ l) (ids-append xs ys)

  pub expiration_cycle_responses :
      (w : WorkerProcess)
      → ((ProcessWorker.expiration_cycle c b json w).responses ≡ w.responses)
        × ((ProcessWorker.expiration_cycle c b json w).running ≡ w.running)
  unfolding ProcessWorker.expiration_cycle
  expiration_cycle_responses w = ground arith

  module _ (w : WorkerProcess) where
    run_loop_step :
        (e : Event) (events : List Event)
        → w.running ≡ true
        → ProcessWorker.overflows c b json w e ≡ false
        → ProcessWorker.run_loop c b json w (e ∷ events)
          ≡ ProcessWorker.run_loop c b json (ProcessWorker.round c b json w e) events
    unfolding ProcessWorker.run_loop
    run_loop_step e events on fits = rw (on, fits) refl

    run_loop_overflowed :
        (e : Event) (events : List Event)
        → ProcessWorker.overflows c b json w e ≡ true
        → ProcessWorker.run_loop c b json w (e ∷ events) ≡ w
    unfolding ProcessWorker.run_loop
    run_loop_overflowed e events over = rw over (if-elim (λ v. v ≡ w) w.running refl refl)

    run_loop_stopped :
        (events : List Event) → w.running ≡ false → ProcessWorker.run_loop c b json w events ≡ w
    unfolding ProcessWorker.run_loop
    run_loop_stopped [] off = refl
    run_loop_stopped (e ∷ events) off = rw off refl

    -- A round that leaves the loop running and adds these responses.
    answers_next :
        (events : List Event) (w' : WorkerProcess) (added : List WorkerResponse)
        → ((v : WorkerProcess)
            → v.running ≡ true
            → ids (ProcessWorker.run_loop c b json v events).responses
              ≡ ids v.responses ++ due_ids (reached v events))
        → w'.running ≡ true
        → w'.responses ≡ w.responses ++ added
        → ids
            (ProcessWorker.run_loop c b json
              (ProcessWorker.expiration_cycle c b json w')
              events).responses
          ≡ ids w.responses
            ++ (ids added ++ due_ids (reached (ProcessWorker.expiration_cycle c b json w') events))
    answers_next events w' added later on grown =
        let cycle = expiration_cycle_responses w' in
        let due = due_ids (reached (ProcessWorker.expiration_cycle c b json w') events) in
        later (ProcessWorker.expiration_cycle c b json w') (cycle.1 ∙ on)
        ∙ ap (λ (l : List WorkerResponse). ids l ++ due) (cycle.0 ∙ grown)
        ∙ ap (λ (l : List Text). l ++ due) (ids-append w.responses added)
        ∙ append_assoc (ids w.responses) (ids added) due

  answers_stopped :
      (w : WorkerProcess) (events : List Event)
      → ids
          (ProcessWorker.run_loop c b json
            (ProcessWorker.expiration_cycle c b json (ProcessWorker.shutdown c b json w))
            events).responses
        ≡ ids w.responses ++ []
  unfolding ProcessWorker.shutdown
  answers_stopped w events =
      let cycle = expiration_cycle_responses (ProcessWorker.shutdown c b json w) in
      ap (λ (v : WorkerProcess). ids v.responses) (run_loop_stopped _ events cycle.1)
      ∙ ap ids cycle.0
      ∙ sym (append-nil (ids w.responses))

  module _ (w : WorkerProcess) (events : List Event) (on : w.running ≡ true)
      (next : (v : WorkerProcess)
        → v.running ≡ true
        → ids (ProcessWorker.run_loop c b json v events).responses
          ≡ ids v.responses ++ due_ids (reached v events)) where
    -- a round that the process takes to its end
    round_answers :
        (e : Event)
        → ids (ProcessWorker.run_loop c b json (ProcessWorker.round c b json w e) events).responses
          ≡ ids w.responses ++ due_ids (e ∷ reached (ProcessWorker.round c b json w e) events)
    unfolding due_ids ProcessWorker.round ProcessWorker.handle_request ProcessWorker.handle_control
        ProcessWorker.answer_snapshot
    round_answers nothing = answers_next w events w [] next on (sym (append-nil w.responses))
    round_answers (requested msg) =
        answers_next w events (ProcessWorker.handle_request c b json w msg) (_ ∷ []) next on refl
    round_answers (controlled msg) =
        go (Text-discrete msg.action (text "shutdown")) (Text-discrete msg.action (text "snapshot"))
      where
        snapshot : WorkerProcess
        snapshot = ProcessWorker.answer_snapshot c b json w msg.request_id

        left : WorkerProcess → List Text
        left v = due_ids (reached (ProcessWorker.expiration_cycle c b json v) events)

        go :
            (shut : Dec (msg.action ≡ text "shutdown")) (snap : Dec (msg.action ≡ text "snapshot"))
            → ids
                (ProcessWorker.run_loop c b json
                  (ProcessWorker.expiration_cycle c b json
                    (ite shut (ProcessWorker.shutdown c b json w) (ite snap snapshot w)))
                  events).responses
              ≡ ids w.responses
                ++ ite shut [] (
                    ite snap
                      (ProcessWorker.or_snapshot c b json msg.request_id
                        ∷ left (ite shut (ProcessWorker.shutdown c b json w) (ite snap snapshot w)))
                      (left (ite shut (ProcessWorker.shutdown c b json w) (ite snap snapshot w))))
        go (yes _) snap = answers_stopped w events
        go (no _) (yes _) = answers_next w events snapshot (_ ∷ []) next on refl
        go (no _) (no _) = answers_next w events w [] next on (sym (append-nil w.responses))

    step_answers :
        (e : Event)
        → ids (ProcessWorker.run_loop c b json w (e ∷ events)).responses
          ≡ ids w.responses ++ due_ids (reached w (e ∷ events))
    unfolding due_ids reached
    step_answers e = go (ProcessWorker.overflows c b json w e) refl
      where
        go :
            (t : Bool)
            → ProcessWorker.overflows c b json w e ≡ t
            → ids (ProcessWorker.run_loop c b json w (e ∷ events)).responses
              ≡ ids w.responses ++ due_ids (reached w (e ∷ events))
        go true over =
            ap (λ (v : WorkerProcess). ids v.responses) (run_loop_overflowed w e events over)
            ∙ sym (append-nil (ids w.responses))
            ∙ ap (λ l. ids w.responses ++ due_ids l) (sym (if_true _ [] _ over))
        go false fits =
            ap (λ (v : WorkerProcess). ids v.responses) (run_loop_step w e events on fits)
            ∙ round_answers e
            ∙ ap (λ l. ids w.responses ++ due_ids l) (sym (if_false _ [] _ fits))

  -- From a running worker, for every sequence of messages and pauses: the loop adds exactly one
  -- response for each request and each snapshot before the first shutdown and before the first EXPIRE
  -- that raises an OverflowError, in their order and with their ids, and none after it. What it appends
  -- to its log is written.
  pub run_loop_answers :
      (events : List Event) (w : WorkerProcess)
      → w.running ≡ true
      → ids (ProcessWorker.run_loop c b json w events).responses
        ≡ ids w.responses ++ due_ids (reached w events)
  run_loop_answers [] w on =
      unfold ProcessWorker.run_loop reached due_ids in sym (append-nil (ids w.responses))
  run_loop_answers (e ∷ events) w on = step_answers w events on (run_loop_answers events) e

  -- A request that is answered with an error changes neither the worker's store nor its log.
  handle_request_error :
      (w : WorkerProcess) (msg : WorkerRequest)
      → (execute_command (memory_store c b) b (ProcessWorker.request_of msg) w.store).1.kind ≡ error
      → ((ProcessWorker.handle_request c b json w msg).store ≡ w.store)
        × ((ProcessWorker.handle_request c b json w msg).persistence ≡ w.persistence)
  unfolding ProcessWorker.handle_request
  handle_request_error w msg failed = (
    execute_command_error (memory_store c b) b (ProcessWorker.request_of msg) w.store failed,
    unwritten w.persistence _ failed,
  )
    where
      unwritten :
          (o : Option AofPersistence) (r : CommandResponse)
          → r.kind ≡ error
          → ProcessWorker.log_write json o (ProcessWorker.request_of msg) r ≡ o
      unwritten none r e = unfold ProcessWorker.log_write in refl
      unwritten (some p) r e = unfold ProcessWorker.log_write ProcessWorker.is_write in rw e refl
