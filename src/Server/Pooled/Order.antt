-- ===== src/Server/Pooled/Order.antt =====
-- What the server with worker processes keeps through any interleaving of its connections and its
-- processes.
use mathlib.Core.Logic.{if_pos, if_neg}
use mathlib.Core.Option.{some-injective}
use lite_store.Base.{
  ℕ, ◌<◌, ◌≡◌, ◌≢◌, ◌∙◌, sym, refl, ap, subst, some, List, [], ◌∷◌, ◌++◌, length, get_or, ok,
  if-elim,
}
use lite_store.Base.Text.{Text, text_key}
use lite_store.Base.Dict.{lookup, IsIn, insert-IsIn, lookup-insert}
use lite_store.Clock.{Clock}
use lite_store.Builtins.{Builtins}
use lite_store.Config.{LiteStoreConfig}
use lite_store.Types.{CommandRequest, CommandResponse}
use lite_store.Persistence.{JsonLib}
use lite_store.ProcessWorker.{WorkerProcess}
use lite_store.ProcessWorker.Entry.{worker_entry, worker_entry-running}
use lite_store.Router.{Hashing, Router, make_router, route_request, route_request-IsRoute}
use lite_store.Metrics.{Floats}
use lite_store.WorkerPool.{
  Paths, WorkerPool, WorkerHandle, Process, Message, execute_send, send_request, send_at,
}
use lite_store.WorkerPool.Channels
use lite_store.WorkerPool.Channels.{Channel, work, work_on, seen, Exchanged}
use lite_store.WorkerPool.Order.{IsInOrder, Exchanged-IsInOrder}
use lite_store.Server.Pooled.{PooledRuntime, waiting, dispatch_send, put_on, next_connection_id}
use lite_store.Server.Pooled.System.{
  System, Reached, begun, connected, asked, worked, taken, extended, replaced, handles_of,
  with_handle, channel,
}
use lite_store.Server.Pooled.Begun.{init-IsStarted}
use lite_store.Server.Pooled.Steps.{asked_handle, taken_handle}

module _ (c : Clock) (b : Builtins) (json : JsonLib) (h : Hashing) (f : Floats) (paths : Paths)
    (files : Text → Text) (config : LiteStoreConfig) where
  -- A handle has a process, which started from its log, and its exchange with it is one by itself.
  pub record IsExchange (handle : WorkerHandle) (process : WorkerProcess)
      (out : List CommandRequest) (back : List CommandResponse) : Type 0 where
    pub child : Process
    pub first : WorkerProcess
    pub started : handle.process ≡ some child
    pub entry :
        worker_entry c b json files (some child.aof_path) child.fsync_policy child.fsync_every_n
        ≡ some first
    pub exchange : Exchanged c b json first (record { handle = handle; process = process }) out back

  work_on_process :
      (handle : WorkerHandle) (process : WorkerProcess) (queue : List Message)
      → (work_on c b json handle process queue).handle.process ≡ handle.process
  unfolding work_on
  work_on_process handle process [] = refl
  work_on_process handle process (msg ∷ rest) = refl

  work_process : (ch : Channel) → (work c b json ch).handle.process ≡ ch.handle.process
  unfolding work
  work_process ch =
      if-elim (λ (x : Channel). x.handle.process ≡ ch.handle.process) ch.process.running
        (work_on_process ch.handle ch.process ch.handle.request_queue) refl

  -- Every worker that the router knows has a handle, and each handle has its exchange.
  pub record IsConsistent (sys : System) (out : Text → List CommandRequest)
      (back : Text → List CommandResponse) : Type 0 where
    pub made : (ids : List Text) × (make_router ids ≡ ok sys.runtime.router)
    pub manned :
        (i : ℕ)
        → i < length sys.runtime.router.worker_ids
        → IsIn (get_or sys.runtime.router.worker_ids i []) (handles_of sys)
    pub exchanges :
        (id : Text) (handle : WorkerHandle)
        → lookup id (handles_of sys) ≡ some handle
        → IsExchange handle (sys.processes id) (out id) (back id)

  -- A step at one worker.
  step-IsConsistent :
      (sys : System) (out out' : Text → List CommandRequest)
      (back back' : Text → List CommandResponse) (processes : Text → WorkerProcess) (id : Text)
      (handle : WorkerHandle)
      → IsConsistent sys out back
      → ((j : Text) → id ≢ j → out j ≡ out' j)
      → ((j : Text) → id ≢ j → back j ≡ back' j)
      → ((j : Text) → id ≢ j → sys.processes j ≡ processes j)
      → IsExchange handle (processes id) (out' id) (back' id)
      → IsConsistent
          (record { runtime = with_handle sys.runtime id handle; processes = processes })
          out'
          back'
  step-IsConsistent sys out out' back back' processes id handle v outs backs procs now = record {
    made = v.made;
    manned = λ i lt.
        insert-IsIn id (get_or sys.runtime.router.worker_ids i []) handle (handles_of sys)
          (v.manned i lt);
    exchanges = λ j g found. elim (text_key.decide id j) [
      | yes e ↦
          let same : handle ≡ g = some-injective _ _ (
            sym (lookup-insert id j handle (handles_of sys) ∙ if_pos (text_key.decide id j) e _ _)
            ∙ found) in
          subst (λ i. IsExchange g (processes i) (out' i) (back' i)) e
            (subst (λ x. IsExchange x (processes id) (out' id) (back' id)) same now)
      | no e ↦
          let old = v.exchanges j g (
            sym (lookup-insert id j handle (handles_of sys) ∙ if_neg (text_key.decide id j) e _ _)
            ∙ found) in
          subst (λ l. IsExchange g (processes j) (out' j) l) (backs j e)
            (subst (λ l. IsExchange g (processes j) l (back j)) (outs j e)
              (subst (λ x. IsExchange g x (out j) (back j)) (procs j e) old))
    ];
  }

  renewed-IsConsistent :
      (sys : System) (rt : PooledRuntime) (out : Text → List CommandRequest)
      (back : Text → List CommandResponse)
      → IsConsistent sys out back
      → rt.router ≡ sys.runtime.router
      → rt.worker_pool ≡ sys.runtime.worker_pool
      → IsConsistent (record sys { runtime = rt }) out back
  renewed-IsConsistent sys rt out back v routers pools =
      subst
        (λ (x : Router × WorkerPool).
          IsConsistent (record sys { runtime = record rt { router = x.0; worker_pool = x.1 } }) out
            back)
        (λ i. (sym routers i, sym pools i))
        (record { made = v.made; manned = v.manned; exchanges = v.exchanges })

  elsewhere :
      {A : Type 0} (id : Text) (x : A) (l : Text → List A) (j : Text)
      → id ≢ j
      → l j ≡ extended id x l j
  elsewhere id x l j e = sym (if_neg (text_key.decide id j) e _ _)

  here : {A : Type 0} (id : Text) (x : A) (l : Text → List A) → l id ++ x ∷ [] ≡ extended id x l id
  here id x l = sym (if_pos (text_key.decide id id) refl _ _)

  pub Reached-IsConsistent :
      {sys : System} {out : Text → List CommandRequest} {back : Text → List CommandResponse}
      → Reached c b json h f paths files config sys out back
      → IsConsistent sys out back
  unfolding send_request
  Reached-IsConsistent (begun rt processes made spawned) =
      let v = init-IsStarted paths config rt made in
      record {
        made = v.made;
        manned = v.manned;
        exchanges = λ id handle found.
            let (no_request, no_response, (p, started)) = v.begun id handle found in
            let entry = spawned id handle p found started in
            record {
              child = p;
              first = processes id;
              started = started;
              entry = entry;
              exchange =
                  Channels.opened handle
                    (worker_entry-running c b json files (some p.aof_path) p.fsync_policy
                      p.fsync_every_n (processes id) entry)
                    no_request no_response;
            };
      }
  Reached-IsConsistent (connected {sys} {out} {back} peer l) =
      renewed-IsConsistent sys _ out back (Reached-IsConsistent l)
        (unfold next_connection_id in refl) (unfold next_connection_id in refl)
  Reached-IsConsistent (asked {sys} {out} {back} request uuid rt id sent l) =
      let v = Reached-IsConsistent l in
      let (handle, found, after) = asked_handle b h f sys.runtime rt request uuid id sent in
      let x = seen request uuid in
      let w = v.exchanges id handle found in
      subst (λ rt'. IsConsistent (record sys { runtime = rt' }) (extended id x out) back)
        (sym after)
        (step-IsConsistent sys out (extended id x out) back back sys.processes id _ v
          (elsewhere id x out) (λ j e. refl) (λ j e. refl)
          (subst (λ y. IsExchange (send_request handle request uuid) (sys.processes id) y (back id))
            (here id x out)
            (record {
              child = w.child;
              first = w.first;
              started = w.started;
              entry = w.entry;
              exchange = Channels.sent request uuid w.exchange;
            })))
  Reached-IsConsistent (worked {sys} {out} {back} id handle found fits l) =
      let v = Reached-IsConsistent l in
      let ch = work c b json (channel sys id handle) in
      let w = v.exchanges id handle found in
      step-IsConsistent sys out out back back (replaced id ch.process sys.processes) id ch.handle v
        (λ j e. refl) (λ j e. refl) (λ j e. sym (if_neg (text_key.decide id j) e _ _))
        (subst (λ y. IsExchange ch.handle y (out id) (back id))
          (sym (if_pos (text_key.decide id id) refl _ _))
          (record {
            child = w.child;
            first = w.first;
            started = work_process (channel sys id handle) ∙ w.started;
            entry = w.entry;
            exchange = Channels.worked fits w.exchange;
          }))
  Reached-IsConsistent (taken {sys} {out} {back} id request duration rt r got l) =
      let v = Reached-IsConsistent l in
      let (handle, response, rest, m, found, first, after, named) =
        taken_handle b h f sys.runtime rt id request duration r got in
      let left : WorkerHandle = record handle { response_queue = rest } in
      let next = with_handle sys.runtime id left in
      let w = v.exchanges id handle found in
      subst (λ rt'. IsConsistent (record sys { runtime = rt' }) out (extended id r back))
        (sym after)
        (renewed-IsConsistent (record sys { runtime = next }) (record next { metrics = m }) out
          (extended id r back)
          (step-IsConsistent sys out out back (extended id r back) sys.processes id left v
            (λ j e. refl) (elsewhere id r back) (λ j e. refl)
            (subst (λ y. IsExchange left (sys.processes id) (out id) y)
              (ap (λ o. back id ++ o ∷ []) (sym named) ∙ here id r back)
              (record {
                child = w.child;
                first = w.first;
                started = w.started;
                entry = w.entry;
                exchange = Channels.received response rest first w.exchange;
              })))
          refl refl)

  -- In the server with worker processes, from its start to its end, whichever connections send
  -- requests and wait, whenever the processes run and whichever thread takes a response first: for
  -- each worker, the responses that were taken from it answer the first requests that were sent to
  -- it, one for one in their order, and what its two queues have answers the later ones in theirs.
  pub Reached-IsInOrder :
      {sys : System} {out : Text → List CommandRequest} {back : Text → List CommandResponse}
      (id : Text) (handle : WorkerHandle)
      → Reached c b json h f paths files config sys out back
      → lookup id (handles_of sys) ≡ some handle
      → IsInOrder c b json (channel sys id handle) (out id) (back id)
  Reached-IsInOrder id handle l found =
      Exchanged-IsInOrder c b json ((Reached-IsConsistent l).exchanges id handle found).exchange

  -- In the server with worker processes, at any time from its start to its end, whichever connections
  -- have sent requests and wait: the next request is sent, to the worker that the router names for it,
  -- and no KeyError leaves the step.
  pub Reached_sends :
      {sys : System} {out : Text → List CommandRequest} {back : Text → List CommandResponse}
      (request : CommandRequest) (uuid : Text)
      → Reached c b json h f paths files config sys out back
      → (rt : PooledRuntime) × (dispatch_send b h f sys.runtime request uuid
          ≡ (rt, ok (waiting (route_request h sys.runtime.router request).worker_id request)))
  unfolding dispatch_send execute_send
  Reached_sends {sys} request uuid l =
      let v = Reached-IsConsistent l in
      let route = route_request h sys.runtime.router request in
      let (below, named) = route_request-IsRoute h v.made.0 request v.made.1 in
      let (handle, found) = v.manned route.partition_id below in
      let there : lookup route.worker_id (handles_of sys) ≡ some handle =
        ap (λ id. lookup id (handles_of sys)) named ∙ found in
      (
        _,
        ap
            (λ o.
              put_on b h f sys.runtime route.worker_id request
                (send_at sys.runtime.worker_pool route.worker_id request uuid o))
            there,
      )
