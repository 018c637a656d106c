-- ===== src/Server/Pooled/Begun.antt =====
-- The server with worker processes as its start leaves it: a handle for each worker, with empty queues and
-- a process.
use lite_store.Base.{
  ℕ, zero, suc, ◌<◌, ◌≡◌, ◌∙◌, sym, refl, ap, subst, arith, inl, inr, some, List, [], ◌++◌, length,
  get_or, ok, ok_injective, pos_part,
}
use lite_store.Base.Text.{Text, text, text_key, decimal}
use lite_store.Base.Dict.{
  Dict, lookup, IsIn, insert-IsIn, insert-cases, lookup-insert_self, lookup-nil, lookup-map_values,
  lookup-map_values_from,
}
use lite_store.Config.{LiteStoreConfig}
use lite_store.Types.{every_n}
use lite_store.Router.{make_router}
use lite_store.WorkerPool.{
  Paths, WorkerPool, WorkerHandle, Process, make_handle, make_handles, make_pool, start_all,
  start_handle,
}
use lite_store.Server.Start.{worker_ids}
use lite_store.Server.Pooled
use lite_store.Server.Pooled.{
  PooledRuntime, Progress, waiting, answered, dispatch_send, put_on, metered, received,
  process_receive, next_connection_id, make_pooled,
}

-- No request and no response waits, and the process is started.
abbrev pub IsBegun : WorkerHandle → Type 0
IsBegun handle =
    (handle.request_queue ≡ [])
    × (handle.response_queue ≡ [])
    × ((p : Process) × (handle.process ≡ some p))

abbrev HasEmptyQueues : WorkerHandle → Type 0
HasEmptyQueues handle = (handle.request_queue ≡ []) × (handle.response_queue ≡ [])

make_handles-kept :
    (i n : ℕ) (j : Text) (handles : Dict Text WorkerHandle)
    → IsIn j handles
    → IsIn j (make_handles i n handles)
unfolding make_handles
make_handles-kept i zero j handles t = t
make_handles-kept i (suc n) j handles t =
    make_handles-kept (suc i) n j _ (insert-IsIn (text "w" ++ decimal i) j _ handles t)

make_handles-IsIn :
    (i n : ℕ) (handles : Dict Text WorkerHandle) (m : ℕ)
    → m < length (worker_ids i n)
    → IsIn (get_or (worker_ids i n) m []) (make_handles i n handles)
unfolding make_handles worker_ids
make_handles-IsIn i zero handles m lt = absurd (omega arith)
make_handles-IsIn i (suc n) handles zero lt =
    make_handles-kept (suc i) n (text "w" ++ decimal i) _
      (_, lookup-insert_self (text "w" ++ decimal i) _ handles)
make_handles-IsIn i (suc n) handles (suc m) lt = make_handles-IsIn (suc i) n _ m (omega arith)

make_handles-HasEmptyQueues :
    (i n : ℕ) (handles : Dict Text WorkerHandle)
    → ((j : Text) (g : WorkerHandle) → lookup j handles ≡ some g → HasEmptyQueues g)
    → (j : Text) (g : WorkerHandle) → lookup j (make_handles i n handles) ≡ some g
    → HasEmptyQueues g
unfolding make_handles
make_handles-HasEmptyQueues i zero handles empty = empty
make_handles-HasEmptyQueues i (suc n) handles empty =
    make_handles-HasEmptyQueues (suc i) n _ λ j g found.
      elim (insert-cases (text "w" ++ decimal i) j (make_handle (text "w" ++ decimal i) i) g handles
        found) [ inl e ↦ subst HasEmptyQueues e (refl, refl) | inr old ↦ empty j g old ]

-- What the start leaves.
pub record IsStarted (rt : PooledRuntime) : Type 0 where
  pub made : (ids : List Text) × (make_router ids ≡ ok rt.router)
  pub manned :
      (i : ℕ)
      → i < length rt.router.worker_ids
      → IsIn (get_or rt.router.worker_ids i []) rt.worker_pool.handles
  pub begun :
      (id : Text) (handle : WorkerHandle)
      → lookup id rt.worker_pool.handles ≡ some handle
      → IsBegun handle

module _ (paths : Paths) (config : LiteStoreConfig) where
  abbrev pool : WorkerPool
  pool = make_pool config.worker_count config.aof_path every_n 100

  made-IsStarted :
      (n : ℕ) (rt : PooledRuntime)
      → n ≡ pos_part config.worker_count
      → make_pooled config (make_router (worker_ids 0 n)) ≡ ok rt
      → IsStarted (Pooled.start paths rt)
  unfolding make_pooled make_router worker_ids make_pool Pooled.start start_all
  made-IsStarted zero rt count made = absurd cc
  made-IsStarted (suc n) rt count made =
      subst (λ x. IsStarted (Pooled.start paths x)) (ok_injective made)
        (record {
          made = (worker_ids 0 (suc n), refl);
          manned = λ i lt.
              let (g, found) = make_handles-IsIn 0 (suc n) [] i lt in
              let there =
                ap (λ m. lookup (get_or (worker_ids 0 (suc n)) i []) (make_handles 0 m []))
                  (sym count)
                ∙ found in
              (
                start_handle paths pool g,
                lookup-map_values (start_handle paths pool) _ g pool.handles there,
              );
          begun = λ id handle found.
              let (g, old, e) =
                lookup-map_values_from (start_handle paths pool) id handle pool.handles found in
              let empty =
                make_handles-HasEmptyQueues 0 (pos_part config.worker_count) [] none_there id g
                  old in
              subst IsBegun e (unfold start_handle in (empty.0, empty.1, (_, refl)));
        })
    where
      none_there : (j : Text) (g : WorkerHandle) → lookup j [] ≡ some g → HasEmptyQueues g
      none_there j g found = absurd (cc (found, lookup-nil {V = WorkerHandle} j))

  pub init-IsStarted :
      (rt : PooledRuntime) → Pooled.init config ≡ ok rt → IsStarted (Pooled.start paths rt)
  unfolding Pooled.init
  init-IsStarted rt made = made-IsStarted (pos_part config.worker_count) rt refl made
