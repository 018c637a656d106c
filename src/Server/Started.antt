-- ===== src/Server/Started.antt =====
-- What the server with its workers in one process has for a key after its start.
use lite_store.Base.{
  ℕ, ◌≡◌, ◌∙◌, sym, refl, ap, subst, none, some, List, [], ◌∷◌, Result, ok, raised, ok_injective,
  pos_part,
}
use lite_store.Base.Text.{Text, text_key}
use lite_store.Base.Dict.{lookup, lookup-map_values_from, lookup-nil}
use lite_store.Clock.{Clock}
use lite_store.Builtins.{Builtins}
use lite_store.Interfaces.{memory_store}
use lite_store.Types.{CommandName, CommandRequest, every_n}
use lite_store.Config.{LiteStoreConfig}
use lite_store.Store
use lite_store.Store.{MemoryStore}
use lite_store.Store.Holding.{Holds}
use lite_store.Commands.Contents.{written}
use lite_store.Router.{
  Hashing, Router, make_router, route_key, route_request, route_request-IsRoute,
}
use lite_store.Persistence.{JsonLib, make_persistence, replay}
use lite_store.ProcessWorker.Logged.{requests_of, AreUntimed}
use lite_store.Worker.{StoreWorker, start_worker}
use lite_store.Metrics.{Floats}
use lite_store.Server.{LiteStoreRuntime, refresh_metrics_snapshot}
use lite_store.Server.Start.{
  make_workers, start_workers, make_runtime, worker_ids, init, replay_persistence, refresh_started,
  start,
}
use lite_store.Server.Begun.{IsMade, make_workers-IsMade, made-IsServing}
use lite_store.Server.Held.{get_routed}
use lite_store.Server.Replayed.{
  kept_somewhere, IsAt, Reaches, replay_records-Reaches, refreshed-IsAt,
}

-- the MemoryStore that a worker makes
abbrev pub fresh : Clock → ℕ → MemoryStore
fresh c i = Store.init c

module _ (c : Clock) (b : Builtins) (json : JsonLib) (h : Hashing) (f : Floats) (k : Text) where
  -- the server with its workers started, before the replay
  abbrev with_workers : LiteStoreRuntime MemoryStore → LiteStoreRuntime MemoryStore
  with_workers rt = record rt { workers = start_workers (memory_store c b) rt.workers }

  abbrev a_request : CommandRequest
  a_request = record {
    command = CommandName.get;
    args = k ∷ [];
    request_id = none;
    client_id = none;
  }

  made-Holds :
      (ids : List Text) (id : Text) (w : StoreWorker MemoryStore)
      → lookup id
          (start_workers (memory_store c b) (make_workers (memory_store c b) (fresh c) 0 ids []))
        ≡ some w
      → Holds k none w.store
  unfolding start_workers
  made-Holds ids id w found =
      let (w', old, e) = lookup-map_values_from (start_worker (memory_store c b)) id w _ found in
      let (_, holds) =
        make_workers-IsMade (memory_store c b) (fresh c) (Holds k none) clean 0 ids [] none_there id
          w' old in
      subst (λ (x : StoreWorker MemoryStore). Holds k none x.store) e holds
    where
      clean : (i : ℕ) → Holds k none (fresh c i)
      clean i = unfold lookup in (refl, refl)

      none_there :
          (j : Text) (x : StoreWorker MemoryStore) → lookup j [] ≡ some x → IsMade (Holds k none) x
      none_there j x found = absurd (cc (found, lookup-nil {V = StoreWorker MemoryStore} j))

  made-IsAt :
      (content : Text) (ids : List Text) (rt : LiteStoreRuntime MemoryStore)
      → make_runtime (memory_store c b) b json h f (fresh c) content ids (make_router ids) ≡ ok rt
      → IsAt c b json h f k none (make_persistence json content every_n 100) (with_workers rt)
  unfolding make_runtime
  made-IsAt content ids rt made =
      let serving =
        made-IsServing (memory_store c b) b json h f (kept_somewhere c b json h f k) (λ s now u. u)
          (λ s u. u) (fresh c) (λ i. tt) ids content rt made in
      let (ids', made') = serving.made in
      let (below, named) = route_request-IsRoute h ids' a_request made' in
      let (w, there) = serving.manned (route_request h rt.router a_request).partition_id below in
      let found =
        ap (λ id. lookup id (with_workers rt).workers)
          (sym (get_routed h rt.router a_request k refl refl) ∙ named)
        ∙ there in
      let (workers, log) = parts (make_router ids) made in
      record {
        serving = serving;
        has = record {
          w = w;
          found = found;
          holds = made-Holds ids (route_key h rt.router k).worker_id w (
              ap
                (λ x.
                  lookup (route_key h rt.router k).worker_id (start_workers (memory_store c b) x))
                (sym workers)
              ∙ found);
        };
        log = log;
      }
    where
      parts :
          (r : Result (Unit {0}) Router)
          → make_runtime (memory_store c b) b json h f (fresh c) content ids r ≡ ok rt
          → (rt.workers ≡ make_workers (memory_store c b) (fresh c) 0 ids [])
            × (rt.persistence ≡ make_persistence json content every_n 100)
      parts (raised e) made = absurd (cc made)
      parts (ok router) made =
          let same = ok_injective made in
          (sym (ap (λ x. x.workers) same), sym (ap (λ x. x.persistence) same))

  -- The start returns, with a server that has for the key what the requests of its log write.
  pub start-Reaches :
      (content : Text) (config : LiteStoreConfig) (rt : LiteStoreRuntime MemoryStore)
      → init (memory_store c b) b json h f (fresh c) content config ≡ ok rt
      → AreUntimed k (replay json (make_persistence json content every_n 100))
      → Reaches c b json h f k
          (written k (requests_of (replay json (make_persistence json content every_n 100))) none)
          (make_persistence json content every_n 100)
          (start (memory_store c b) b json h f rt)
  unfolding init start replay_persistence refresh_started
  start-Reaches content config rt made untimed =
      let p = make_persistence json content every_n 100 in
      let v = made-IsAt content (worker_ids 0 (pos_part config.worker_count)) rt made in
      let same : replay json rt.persistence ≡ replay json p = ap (replay json) v.log in
      let (rt', e, v') =
        replay_records-Reaches c b json h f k (replay json p) none p (with_workers rt, ok tt)
          untimed (with_workers rt, refl, v) in
      (
        refresh_metrics_snapshot (memory_store c b) b json h f rt',
        rw (same, e) refl,
        refreshed-IsAt c b json h f k _ p rt' v',
      )
