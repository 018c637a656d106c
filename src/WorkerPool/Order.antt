-- ===== src/WorkerPool/Order.antt =====
-- The order in which a worker process answers what a handle sends it.
use mathlib.Core.List.{append_assoc, append-nil, map-append}
use lite_store.Base.{
  if◌then◌else◌, Bool, false, ◌-◌, ℕ, zero, suc, length, All-append, subst, arith, ◌≡◌, ◌∙◌, sym,
  refl, ap, true, List, [], ◌∷◌, ◌++◌, All, if_true, map, or_else,
}
use lite_store.Base.Text.{Text}
use lite_store.Clock.{Clock}
use lite_store.Builtins.{Builtins}
use lite_store.Persistence.{JsonLib}
use lite_store.Types.{CommandRequest, CommandResponse, WorkerRequest}
use lite_store.ProcessWorker.{WorkerProcess}
use lite_store.ProcessWorker.Answered.{ids, expiration_cycle_responses, ids-append}
use lite_store.WorkerPool.{
  WorkerHandle, Message, requested, controlled, id_or, send_request, command_response,
}
use lite_store.WorkerPool.Channels.{
  Channel, next_overflows, work, work_on, Exchanged, opened, sent, worked, received, after,
  after_responses, after_runs,
}

-- the ids of the requests of a queue
unfoldable pub request_ids : List Message → List Text
request_ids [] = []
request_ids (requested msg ∷ rest) = msg.request_id ∷ request_ids rest
request_ids (controlled msg ∷ rest) = request_ids rest

request_ids-append :
    (l : List Message) (msg : WorkerRequest)
    → request_ids (l ++ requested msg ∷ []) ≡ request_ids l ++ msg.request_id ∷ []
unfolding request_ids
request_ids-append [] msg = refl
request_ids-append (requested m ∷ l) msg = ap (λ x. m.request_id ∷ x) (request_ids-append l msg)
request_ids-append (controlled m ∷ l) msg = request_ids-append l msg

-- the ids of requests, and of responses
abbrev pub asked_ids : List CommandRequest → List Text
asked_ids = map (λ r. or_else r.request_id [])

abbrev pub answered_ids : List CommandResponse → List Text
answered_ids = map (λ r. or_else r.request_id [])

abbrev pub IsRequest : Message → Type 0
IsRequest (requested msg) = Unit
IsRequest (controlled msg) = ⊥

module _ (c : Clock) (b : Builtins) (json : JsonLib) where
  -- the ids that are still to be answered or to be taken, in order
  abbrev pending : Channel → List Text
  pending ch = ids ch.handle.response_queue ++ request_ids ch.handle.request_queue

  pub record IsInOrder (ch : Channel) (out : List CommandRequest) (back : List CommandResponse)
      : Type 0 where
    pub running : ch.process.running ≡ true
    pub requests : All IsRequest ch.handle.request_queue
    pub order : answered_ids back ++ pending ch ≡ asked_ids out

  work_on-pending :
      (handle : WorkerHandle) (process : WorkerProcess) (queue : List Message)
      → All IsRequest queue
      → process.running ≡ true
      → (pending (work_on c b json handle process queue)
          ≡ ids handle.response_queue ++ request_ids queue)
        × ((work_on c b json handle process queue).process.running ≡ true)
        × All IsRequest (work_on c b json handle process queue).handle.request_queue
  unfolding work_on request_ids
  work_on-pending handle process [] all on =
      (refl, (expiration_cycle_responses c b json process).1 ∙ on, tt)
  work_on-pending handle process (requested msg ∷ rest) all on = (
    ap (λ l. l ++ request_ids rest)
          (ids-append c b json handle.response_queue (after c b json process msg).responses
            ∙ ap (λ l. ids handle.response_queue ++ l)
                (ap ids (after_responses c b json process msg)))
        ∙ append_assoc (ids handle.response_queue) (msg.request_id ∷ []) (request_ids rest),
    after_runs c b json process msg on,
    all.1,
  )
  work_on-pending handle process (controlled msg ∷ rest) all on = absurd all.0

  work-IsInOrder :
      (ch : Channel) {out : List CommandRequest} {back : List CommandResponse}
      → IsInOrder ch out back
      → IsInOrder (work c b json ch) out back
  unfolding work
  work-IsInOrder ch {out} {back} v =
      let (same, runs, all) =
        work_on-pending ch.handle ch.process ch.handle.request_queue v.requests v.running in
      let here = work_on c b json ch.handle ch.process ch.handle.request_queue in
      subst (λ x. IsInOrder x out back) (sym (if_true ch.process.running here ch v.running))
        (record {
          running = runs;
          requests = all;
          order = ap (λ l. answered_ids back ++ l) same ∙ v.order;
        })

  -- Whatever requests are sent, whenever the process runs, and whenever a response is taken: what was
  -- taken answers the first requests that were sent, one for one in their order, and what the two
  -- queues have answers the later ones in theirs. No response is lost, doubled or overtaken.
  pub Exchanged-IsInOrder :
      {first : WorkerProcess} {ch : Channel} {out : List CommandRequest}
      {back : List CommandResponse}
      → Exchanged c b json first ch out back
      → IsInOrder ch out back
  unfolding send_request command_response
  Exchanged-IsInOrder (opened handle running no_request no_response) = record {
    running = running;
    requests = subst (All IsRequest) (sym no_request) tt;
    order =
        ap (λ l. ids l ++ request_ids handle.request_queue) no_response
        ∙ unfold request_ids in ap request_ids no_request;
  }
  Exchanged-IsInOrder (sent {ch} {out} {back} request uuid l) =
      let v = Exchanged-IsInOrder l in
      let queue = ch.handle.request_queue in
      record {
        running = v.running;
        requests = All-append IsRequest queue (_ ∷ []) v.requests (tt, tt);
        order =
            ap (λ l. answered_ids back ++ (ids ch.handle.response_queue ++ l))
              (request_ids-append queue _)
            ∙ ap (λ l. answered_ids back ++ l)
                (sym (append_assoc (ids ch.handle.response_queue) (request_ids queue) _))
            ∙ sym (append_assoc (answered_ids back) (pending ch) _)
            ∙ ap (λ l. l ++ id_or request.request_id uuid ∷ []) v.order
            ∙ sym (map-append (λ (r : CommandRequest). or_else r.request_id []) out _);
      }
  Exchanged-IsInOrder (worked {ch} fits l) = work-IsInOrder ch (Exchanged-IsInOrder l)
  Exchanged-IsInOrder (received {ch} {out} {back} response rest first l) =
      let v = Exchanged-IsInOrder l in
      record {
        running = v.running;
        requests = v.requests;
        order =
            ap (λ l. l ++ (ids rest ++ request_ids ch.handle.request_queue))
              (map-append (λ (r : CommandResponse). or_else r.request_id []) back _)
            ∙ append_assoc (answered_ids back) (response.request_id ∷ [])
                (ids rest ++ request_ids ch.handle.request_queue)
            ∙ ap (λ r. answered_ids back ++ (ids r ++ request_ids ch.handle.request_queue))
                (sym first)
            ∙ v.order;
      }

  -- so many rounds of the process, and whether one of them ends it: then it has the message that does
  unfoldable pub works : ℕ → Channel → Channel × Bool
  works zero ch = (ch, false)
  works (suc n) ch =
      let rest = works n (work c b json ch) in
      if next_overflows c b json ch then (ch, true) else rest

  work_on_shorter :
      (handle : WorkerHandle) (process : WorkerProcess) (queue : List Message)
      → length (work_on c b json handle process queue).handle.request_queue ≡ length queue - 1
  unfolding work_on
  work_on_shorter handle process [] = omega arith
  work_on_shorter handle process (msg ∷ rest) = omega arith

  no_request_ids : (queue : List Message) → length queue ≡ 0 → request_ids queue ≡ []
  unfolding request_ids
  no_request_ids [] e = refl
  no_request_ids (msg ∷ rest) e = absurd (omega arith)

  -- What these rounds come to: each request that was sent has its response, or the process ends with
  -- the request that is next, and those before it have theirs.
  pub WorksOut : Channel × Bool → List CommandRequest → List CommandResponse → Type 0
  WorksOut (ch, false) out back = answered_ids back ++ ids ch.handle.response_queue ≡ asked_ids out
  WorksOut (ch, true) out back =
      (next_overflows c b json ch ≡ true) × (answered_ids back ++ pending ch ≡ asked_ids out)

  works_all :
      (n : ℕ) (ch : Channel) {out : List CommandRequest} {back : List CommandResponse}
      → IsInOrder ch out back
      → length ch.handle.request_queue ≡ n
      → WorksOut (works n ch) out back
  unfolding works work WorksOut
  works_all zero ch {out} {back} v e =
      let responses = ids ch.handle.response_queue in
      ap (λ l. answered_ids back ++ l)
        (sym (append-nil responses)
          ∙ ap (λ l. responses ++ l) (sym (no_request_ids ch.handle.request_queue e)))
      ∙ v.order
  works_all (suc n) ch {out} {back} v e =
      let here = work_on c b json ch.handle ch.process ch.handle.request_queue in
      let shorter = work_on_shorter ch.handle ch.process ch.handle.request_queue in
      let same = if_true ch.process.running here ch v.running in
      let later =
        works_all n (work c b json ch) (work-IsInOrder ch v)
          (ap (λ (x : Channel). length x.handle.request_queue) same ∙ omega (arith, shorter)) in
      rounds ch v (works n (work c b json ch)) later
    where
      rounds :
          (ch : Channel) {out : List CommandRequest} {back : List CommandResponse}
          → IsInOrder ch out back
          → (rest : Channel × Bool) → WorksOut rest out back
          → WorksOut (if next_overflows c b json ch then (ch, true) else rest) out back
      rounds ch {out} {back} v rest later = go (next_overflows c b json ch) refl
        where
          go :
              (t : Bool)
              → next_overflows c b json ch ≡ t
              → WorksOut (if t then (ch, true) else rest) out back
          go true over = (over, v.order)
          go false fits = later

  -- A worker process that ran with empty queues when the first request was sent, whatever requests were
  -- sent since, and whenever the process worked and responses were taken, while no EXPIRE ended it
  -- with an OverflowError: after as many rounds of the process as there are requests waiting, each
  -- request that was sent has its response, in order, taken or on the response queue; or the process
  -- has come to an EXPIRE that ends it with an OverflowError, and each request before that one has
  -- its response, in order.
  pub works_answer :
      {first : WorkerProcess} {ch : Channel} {out : List CommandRequest}
      {back : List CommandResponse}
      → Exchanged c b json first ch out back
      → WorksOut (works (length ch.handle.request_queue) ch) out back
  works_answer {ch} l = works_all (length ch.handle.request_queue) ch (Exchanged-IsInOrder l) refl
