-- ===== src/Server/Replayed.antt =====
-- What the server has for a key that no EXPIRE is sent for, once it has replayed its log.
use lite_store.Base.{◌≡◌, ◌∙◌, sym, refl, ap, Option, some, List, [], ◌∷◌, Result, ok}
use lite_store.Base.Text.{Text, text_key}
use lite_store.Base.Dict.{Dict, lookup, insert, map_values, lookup-map_values}
use lite_store.Clock.{Clock}
use lite_store.Builtins.{Builtins}
use lite_store.Interfaces.{memory_store}
use lite_store.Types.{PersistRecord}
use lite_store.Store
use lite_store.Store.{MemoryStore}
use lite_store.Store.Holding.{processed-Holds}
use lite_store.Commands.Keeps.{Keeps}
use lite_store.Commands.Contents.{wrote, written}
use lite_store.Router.{Hashing, route_key, route_request, route_request-IsRoute}
use lite_store.Persistence.{AofPersistence, JsonLib}
use lite_store.ProcessWorker.Logged.{requests_of, AreUntimed}
use lite_store.Worker.{StoreWorker, execute_started, worker_snapshot}
use lite_store.Worker.Execution.{execute_running}
use lite_store.Metrics.{Floats}
use lite_store.Server.{LiteStoreRuntime, Crash, refresh_workers, refresh_metrics_snapshot}
use lite_store.Server.Start.{replay_worker, replayed, replay_record, replay_records}
use lite_store.Server.Serving.{IsServing, replaced-IsServing, executed-IsReady}
use lite_store.Server.Begun.{collect-map_values, refresh-IsServing}
use lite_store.Server.Held.{Has, executed-Has}

module _ (c : Clock) (b : Builtins) (json : JsonLib) (h : Hashing) (f : Floats) (k : Text) where
  -- Of the stores, nothing is asked but what they have for the key.
  abbrev pub Any : MemoryStore → Type 0
  Any s = Unit {0}

  pub kept_somewhere : Keeps (memory_store c b) Any
  kept_somewhere = record {
    set = λ s k v u. u;
    get = λ s k u. u;
    delete = λ s k u. u;
    expire = λ s k n u. u;
    ttl = λ s k u. u;
    keys = λ s pattern u. u;
    flush = λ s u. u;
  }

  -- the server serves, has this for the key, and has this log
  pub record IsAt (o : Option Text) (p : AofPersistence) (rt : LiteStoreRuntime MemoryStore)
      : Type 0 where
    pub serving : IsServing h Any rt
    pub has : Has h k o rt
    pub log : rt.persistence ≡ p

  -- the call returns, with such a server
  abbrev pub Reaches :
      Option Text → AofPersistence → LiteStoreRuntime MemoryStore × Result Crash (Unit {0}) → Type 0
  Reaches o p call = (rt : LiteStoreRuntime MemoryStore) × (call ≡ (rt, ok tt)) × IsAt o p rt

  replay_record-Reaches :
      (o : Option Text) (p : AofPersistence) (rt : LiteStoreRuntime MemoryStore) (r : PersistRecord)
      → AreUntimed k (r ∷ [])
      → IsAt o p rt
      → Reaches
          (wrote k r.request.command r.request.args o)
          p
          (replay_record (memory_store c b) b json h f rt r)
  unfolding replay_record replay_worker replayed
  replay_record-Reaches o p rt r untimed v =
      let (ids, made) = v.serving.made in
      let route = route_request h rt.router r.request in
      let (below, named) = route_request-IsRoute h ids r.request made in
      let (w, found) = v.serving.manned route.partition_id below in
      let here : lookup route.worker_id rt.workers ≡ some w =
        ap (λ id. lookup id rt.workers) named ∙ found in
      let ready = v.serving.ready route.worker_id w here in
      let done = (execute_started (memory_store c b) b w r.request).0 in
      (
        record rt { workers = insert route.worker_id done rt.workers },
        rw (here, execute_running (memory_store c b) b w r.request ready.running) refl,
        record {
          serving = replaced-IsServing h rt v.serving route.worker_id done (
              executed-IsReady (memory_store c b) b json h f kept_somewhere (λ s now u. u) w
                r.request ready);
          has = executed-Has c b h k o rt r.request w here untimed.0 v.has;
          log = v.log;
        },
      )

  pub replay_records-Reaches :
      (records : List PersistRecord) (o : Option Text) (p : AofPersistence)
      (call : LiteStoreRuntime MemoryStore × Result Crash (Unit {0}))
      → AreUntimed k records
      → Reaches o p call
      → Reaches
          (written k (requests_of records) o)
          p
          (replay_records (memory_store c b) b json h f call records)
  unfolding replay_records written
  replay_records-Reaches [] o p call untimed (rt, e, v) = (rt, rw e refl, v)
  replay_records-Reaches (r ∷ records) o p call untimed (rt, e, v) = rw e (
      replay_records-Reaches records (wrote k r.request.command r.request.args o) p _ untimed.1
        (replay_record-Reaches o p rt r (untimed.0, tt) v))

  abbrev looked : StoreWorker MemoryStore → StoreWorker MemoryStore
  looked w = (worker_snapshot (memory_store c b) w).0

  -- The refresh of the metrics takes snapshots, which process the expirations.
  pub refreshed-IsAt :
      (o : Option Text) (p : AofPersistence) (rt : LiteStoreRuntime MemoryStore)
      → IsAt o p rt
      → IsAt o p (refresh_metrics_snapshot (memory_store c b) b json h f rt)
  unfolding refresh_metrics_snapshot
  refreshed-IsAt o p rt v = record {
    serving =
        refresh-IsServing (memory_store c b) b json h f kept_somewhere (λ s now u. u) (λ s u. u) rt
          v.serving;
    has = (workers_refreshed rt.workers refl).0;
    log = (workers_refreshed rt.workers refl).1;
  }
    where
      workers_refreshed :
          (workers : Dict Text (StoreWorker MemoryStore))
          → rt.workers ≡ workers
          → Has h k o (refresh_workers (memory_store c b) b json h f rt workers)
            × ((refresh_workers (memory_store c b) b json h f rt workers).persistence ≡ p)
      workers_refreshed [] e = unfold refresh_workers in (v.has, v.log)
      workers_refreshed (x ∷ workers) e =
          unfold refresh_workers worker_snapshot Store.snapshot in
          (
            record {
              w = looked v.has.w;
              found =
                  ap (lookup (route_key h rt.router k).worker_id) (
                    collect-map_values (memory_store c b) b json h f kept_somewhere (λ s now u. u)
                      (λ s u. u) (x ∷ workers) []
                    ∙ ap (map_values looked) (sym e))
                  ∙ lookup-map_values looked _ v.has.w rt.workers v.has.found;
              holds = processed-Holds c k o v.has.w.store v.has.holds;
            },
            v.log,
          )
