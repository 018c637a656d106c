-- ===== src/Server/Pooled/Steps.antt =====
-- What one step of the server with worker processes does to the handle of the worker that it is for.
use mathlib.Core.Option.{some-injective}
use lite_store.Base.{
  ◌≡◌, ◌∙◌, sym, refl, ap, subst, Option, none, some, List, [], ◌∷◌, Result, ok, ok_injective,
}
use lite_store.Base.Text.{Text, text_key}
use lite_store.Base.Dict.{lookup}
use lite_store.Clock.{Time}
use lite_store.Builtins.{Builtins}
use lite_store.Types.{CommandRequest, CommandResponse, WorkerResponse}
use lite_store.Router.{Hashing, route_request}
use lite_store.Metrics.{Floats, MetricsCollector, observe_command}
use lite_store.WorkerPool.{
  WorkerPool, WorkerHandle, execute_send, execute_receive, send_request, send_at, receive_from,
  put_back, receive_at, receive_response, command_response,
}
use lite_store.Server.{Crash}
use lite_store.Server.Pooled.{
  PooledRuntime, Progress, waiting, answered, dispatch_send, put_on, metered, received,
  process_receive,
}
use lite_store.Server.Pooled.System.{with_handle}

module _ (b : Builtins) (h : Hashing) (f : Floats) where
  pub asked_handle :
      (rt rt' : PooledRuntime) (request : CommandRequest) (uuid id : Text)
      → dispatch_send b h f rt request uuid ≡ (rt', ok (waiting id request))
      → (handle : WorkerHandle) × (lookup id rt.worker_pool.handles ≡ some handle)
        × (rt' ≡ with_handle rt id (send_request handle request uuid))
  unfolding dispatch_send execute_send
  asked_handle rt rt' request uuid id =
      go (route_request h rt.router request).worker_id
        (lookup (route_request h rt.router request).worker_id rt.worker_pool.handles) refl
    where
      go :
          (worker_id : Text) (o : Option WorkerHandle)
          → lookup worker_id rt.worker_pool.handles ≡ o
          → put_on b h f rt worker_id request (send_at rt.worker_pool worker_id request uuid o)
            ≡ (rt', ok (waiting id request))
          → (handle : WorkerHandle) × (lookup id rt.worker_pool.handles ≡ some handle)
            × (rt' ≡ with_handle rt id (send_request handle request uuid))
      go worker_id none found e = absurd (cc (ap (λ x. x.1) e))
      go worker_id (some handle) found e =
          let same : worker_id ≡ id =
            ap (λ (p : Progress). elim p [ answered _ ↦ id | waiting w _ ↦ w ])
              (ok_injective (ap (λ x. x.1) e)) in
          (
            handle,
            subst (λ w. lookup w rt.worker_pool.handles ≡ some handle) same found,
            sym (ap (λ x. x.0) e)
                ∙ ap (λ w. with_handle rt w (send_request handle request uuid)) same,
          )

  pub taken_handle :
      (rt rt' : PooledRuntime) (id : Text) (request : CommandRequest) (duration : Time)
      (r : CommandResponse)
      → process_receive b h f rt id request duration ≡ some (rt', ok r)
      → (handle : WorkerHandle) × (response : WorkerResponse) × (rest : List WorkerResponse)
        × (m : MetricsCollector) × (lookup id rt.worker_pool.handles ≡ some handle)
        × (handle.response_queue ≡ response ∷ rest)
        × (rt'
            ≡ record (with_handle rt id (record handle { response_queue = rest })) { metrics = m })
        × (r ≡ command_response response)
  unfolding process_receive execute_receive receive_response command_response
  taken_handle rt rt' id request duration r = found (lookup id rt.worker_pool.handles) refl
    where
      pool : WorkerPool
      pool = rt.worker_pool

      Taken : WorkerHandle → Type 0
      Taken handle =
          (response : WorkerResponse) × (rest : List WorkerResponse) × (m : MetricsCollector)
          × (handle.response_queue ≡ response ∷ rest)
          × (rt' ≡ record (with_handle rt id (record handle { response_queue = rest })) {
            metrics = m;
          })
          × (r ≡ command_response response)

      observed :
          (rt1 : PooledRuntime) (reply : CommandResponse) (o : Option MetricsCollector)
          → ◌≡◌ {A = Option (PooledRuntime × Result Crash CommandResponse)}
              (some (metered b h f rt1 reply o))
              (some (rt', ok r))
          → (m : MetricsCollector) × (rt' ≡ record rt1 { metrics = m }) × (r ≡ reply)
      observed rt1 reply none e = absurd (cc (ap (λ x. x.1) (some-injective _ _ e)))
      observed rt1 reply (some m) e =
          let same = some-injective _ _ e in
          (m, sym (ap (λ x. x.0) same), sym (ok_injective (ap (λ x. x.1) same)))

      queued :
          (handle : WorkerHandle) (queue : List WorkerResponse)
          → handle.response_queue ≡ queue
          → received b h f rt request duration (put_back pool id (receive_from handle queue))
            ≡ some (rt', ok r)
          → Taken handle
      queued handle [] first e = absurd cc
      queued handle (response ∷ rest) first e =
          let (m, after, reply) =
            observed _ _ (observe_command f h rt.metrics request duration) e in
          (response, rest, m, first, after, reply)

      found :
          (o : Option WorkerHandle)
          → lookup id pool.handles ≡ o
          → received b h f rt request duration (receive_at pool id o) ≡ some (rt', ok r)
          → (handle : WorkerHandle) × (response : WorkerResponse) × (rest : List WorkerResponse)
            × (m : MetricsCollector) × (lookup id pool.handles ≡ some handle)
            × (handle.response_queue ≡ response ∷ rest)
            × (rt' ≡ record (with_handle rt id (record handle { response_queue = rest })) {
              metrics = m;
            })
            × (r ≡ command_response response)
      found none here e = absurd cc
      found (some handle) here e =
          let (response, rest, m, first, after, reply) =
            queued handle handle.response_queue refl e in
          (handle, response, rest, m, here, first, after, reply)
