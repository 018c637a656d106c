-- ===== src/WorkerPool/Values.antt =====
-- What the responses of a worker process tell of a key, whenever requests are sent, the process runs,
-- and responses are taken.
use mathlib.Core.List.{append_assoc, map-append}
use lite_store.Base.{
  ◌≡◌, ◌∙◌, sym, refl, ap, subst, Option, none, some, List, [], ◌∷◌, ◌++◌, map, All, if_true,
  if-elim,
}
use lite_store.Base.Text.{Text}
use lite_store.Clock.{Clock}
use lite_store.Builtins.{Builtins}
use lite_store.Types.{CommandRequest, CommandResponse, WorkerRequest}
use lite_store.Store.{time_source}
use lite_store.Store.Holding.{Holds, processed-Holds}
use lite_store.Commands.Contents.{written, Untimed}
use lite_store.Commands.Writes.{found_response, execute_command-Holds, execute_get-answer}
use lite_store.Persistence.{JsonLib}
use lite_store.ProcessWorker
use lite_store.ProcessWorker.{WorkerProcess, worker_response, request_of}
use lite_store.WorkerPool.{
  WorkerHandle, Message, requested, controlled, send_request, command_response,
}
use lite_store.WorkerPool.Answers.{
  IsAnswered, AreAnswered, AreAnswered-nil, AreAnswered-more, AreAnswered-IsAnswered, written-more,
}
use lite_store.WorkerPool.Channels.{
  Channel, work, work_on, Exchanged, opened, sent, worked, received, after, answer, after_responses,
  seen,
}
use lite_store.WorkerPool.Order.{IsRequest, Exchanged-IsInOrder}

-- The answer to a GET is not changed on its way back.
command_response-found :
    (msg : WorkerRequest) (o : Option Text)
    → command_response (worker_response msg.request_id (found_response (request_of msg) o))
      ≡ found_response (request_of msg) o
unfolding found_response command_response
command_response-found msg none = refl
command_response-found msg (some v) = refl

-- the requests of a queue
abbrev queued : List Message → List CommandRequest
queued [] = []
queued (requested msg ∷ rest) = request_of msg ∷ queued rest
queued (controlled msg ∷ rest) = queued rest

queued-append :
    (l : List Message) (msg : WorkerRequest)
    → queued (l ++ requested msg ∷ []) ≡ queued l ++ request_of msg ∷ []
queued-append [] msg = refl
queued-append (requested m ∷ l) msg = ap (λ x. request_of m ∷ x) (queued-append l msg)
queued-append (controlled m ∷ l) msg = queued-append l msg

All-parts :
    (P : CommandRequest → Type 0) (xs ys : List CommandRequest)
    → All P (xs ++ ys)
    → All P xs × All P ys
All-parts P [] ys all = (tt, all)
All-parts P (x ∷ xs) ys all = let (left, right) = All-parts P xs ys all.1 in ((all.0, left), right)

module _ (c : Clock) (b : Builtins) (json : JsonLib) where
  module _ (k : Text) (o : Option Text) where
    cycle-Holds :
        (w : WorkerProcess)
        → Holds k o w.store
        → Holds k o (ProcessWorker.expiration_cycle c b json w).store
    cycle-Holds w h =
        unfold ProcessWorker.expiration_cycle in
        if-elim (λ (x : WorkerProcess). Holds k o x.store)
          (c.overdue (time_source c w.store).1 w.last_expiration)
          (processed-Holds c k o (time_source c w.store).0 h) h

module _ (c : Clock) (b : Builtins) (json : JsonLib) (k : Text) (o : Option Text) where
  -- The requests that the process has executed, which the store has the key's value of, and which its
  -- responses answer.
  record IsServed (ch : Channel) (out : List CommandRequest) (back : List CommandResponse)
      : Type 0 where
    done : List CommandRequest
    split : done ++ queued ch.handle.request_queue ≡ out
    held : Holds k (written k done o) ch.process.store
    answered : AreAnswered k o done (back ++ map command_response ch.handle.response_queue)

  abbrev AreUntimed : List CommandRequest → Type 0
  AreUntimed = All (λ request. Untimed k request.command request.args)

  -- One message that the process takes.
  after-IsServed :
      (handle : WorkerHandle) (process : WorkerProcess) (msg : WorkerRequest) (rest : List Message)
      (done : List CommandRequest) (back : List CommandResponse)
      → Untimed k msg.command msg.args
      → Holds k (written k done o) process.store
      → AreAnswered k o done (back ++ map command_response handle.response_queue)
      → IsServed
          (work_on c b json handle process (requested msg ∷ rest))
          (done ++ request_of msg ∷ queued rest)
          back
  unfolding work_on ProcessWorker.round ProcessWorker.handle_request
  after-IsServed handle process msg rest done back untimed held answered =
      let r = command_response (worker_response msg.request_id (answer c b json process msg)) in
      record {
        done = done ++ request_of msg ∷ [];
        split = append_assoc done (request_of msg ∷ []) (queued rest);
        held =
            subst (λ x. Holds k x (after c b json process msg).store)
              (sym (written-more k done (request_of msg) o))
              (cycle-Holds c b json k _ _ (
                execute_command-Holds c b k (written k done o) (request_of msg) process.store
                  untimed held));
        answered =
            subst (λ l. AreAnswered k o (done ++ request_of msg ∷ []) l)
              (append_assoc back (map command_response handle.response_queue) (r ∷ [])
                ∙ ap (λ l. back ++ l)
                    (sym (map-append command_response handle.response_queue _)
                      ∙ ap (λ l. map command_response (handle.response_queue ++ l))
                          (sym (after_responses c b json process msg))))
              (AreAnswered-more k done (back ++ map command_response handle.response_queue) o
                (request_of msg) r answered
                (λ name args.
                  ap (λ x. command_response (worker_response msg.request_id x))
                    (execute_get-answer c b k (written k done o) (request_of msg) process.store name
                      args held)
                  ∙ command_response-found msg (written k done o)));
      }

  work_on-IsServed :
      (handle : WorkerHandle) (process : WorkerProcess) (queue : List Message)
      (out : List CommandRequest) (back : List CommandResponse) (done : List CommandRequest)
      → All IsRequest queue
      → AreUntimed (queued queue)
      → done ++ queued queue ≡ out
      → Holds k (written k done o) process.store
      → AreAnswered k o done (back ++ map command_response handle.response_queue)
      → IsServed (work_on c b json handle process queue) out back
  work_on-IsServed handle process [] out back done all untimed split held answered =
      unfold work_on in
      record {
        done = done;
        split = split;
        held = unfold ProcessWorker.round in cycle-Holds c b json k _ process held;
        answered = answered;
      }
  work_on-IsServed handle process (requested msg ∷ rest) out back done all untimed split held
        answered =
      subst (λ l. IsServed (work_on c b json handle process (requested msg ∷ rest)) l back) split
        (after-IsServed handle process msg rest done back untimed.0 held answered)
  work_on-IsServed handle process (controlled msg ∷ rest) out back done all untimed split held
        answered =
      absurd all.0

  Exchanged-IsServed :
      {first : WorkerProcess} {ch : Channel} {out : List CommandRequest}
      {back : List CommandResponse}
      → Holds k o first.store
      → Exchanged c b json first ch out back
      → AreUntimed out
      → IsServed ch out back
  unfolding send_request written work
  Exchanged-IsServed holds (opened handle running no_request no_response) untimed = record {
    done = [];
    split = ap queued no_request;
    held = holds;
    answered =
        subst (λ l. AreAnswered k o [] (map command_response l)) (sym no_response)
          (AreAnswered-nil k o);
  }
  Exchanged-IsServed holds (sent {ch} {out} {back} request uuid l) untimed =
      let v = Exchanged-IsServed holds l (All-parts _ out _ untimed).0 in
      record {
        done = v.done;
        split =
            ap (λ l. v.done ++ l) (queued-append ch.handle.request_queue _)
            ∙ sym (append_assoc v.done (queued ch.handle.request_queue) _)
            ∙ ap (λ l. l ++ seen request uuid ∷ []) v.split;
        held = v.held;
        answered = v.answered;
      }
  Exchanged-IsServed holds (worked {ch} {out} {back} fits l) untimed =
      let v = Exchanged-IsServed holds l untimed in
      let order = Exchanged-IsInOrder c b json l in
      let here = work_on c b json ch.handle ch.process ch.handle.request_queue in
      subst (λ x. IsServed x out back) (sym (if_true ch.process.running here ch order.running))
        (work_on-IsServed ch.handle ch.process ch.handle.request_queue out back v.done
          order.requests (All-parts _ v.done _ (subst AreUntimed (sym v.split) untimed)).1 v.split
          v.held v.answered)
  Exchanged-IsServed holds (received {ch} {out} {back} response rest first l) untimed =
      let v = Exchanged-IsServed holds l untimed in
      record {
        done = v.done;
        split = v.split;
        held = v.held;
        answered =
            subst (λ l. AreAnswered k o v.done l)
              (ap (λ q. back ++ map command_response q) first
                ∙ sym (append_assoc back (command_response response ∷ []) _))
              v.answered;
      }

  -- A worker process whose store has this value for the key and no deadline, whatever requests are
  -- sent to it, of which none gives the key a deadline or flushes, whenever it works and whenever a
  -- response is taken: each response that was taken for a GET of the key has what the SETs and DELs
  -- that were sent before that GET write.
  pub Exchanged-IsAnswered :
      {first : WorkerProcess} {ch : Channel} {out : List CommandRequest}
      {back : List CommandResponse}
      → Holds k o first.store
      → Exchanged c b json first ch out back
      → AreUntimed out
      → IsAnswered k o out back
  Exchanged-IsAnswered {first} {ch} {out} {back} holds l untimed =
      let v = Exchanged-IsServed holds l untimed in
      subst (λ x. IsAnswered k o x back) v.split
        (AreAnswered-IsAnswered k v.done (queued ch.handle.request_queue) back
          (map command_response ch.handle.response_queue) o v.answered)
