-- ===== src/Server/Begun.antt =====
-- How the server comes to serve: its construction, its start, and the refresh of its metrics.
use lite_store.Base.{
  ℕ, zero, suc, ◌<◌, ◌≡◌, ◌∙◌, sym, refl, ap, subst, arith, Option, some, inl, inr, List, [], ◌∷◌,
  length, get_or, Result, ok, ok_injective,
}
use lite_store.Base.Text.{Text, text_key}
use lite_store.Base.Dict.{
  Dict, lookup, IsIn, insert-IsIn, insert-cases, lookup-insert_self, lookup-nil, map_values,
  lookup-map_values, lookup-map_values_from,
}
use lite_store.Clock.{Time}
use lite_store.Builtins.{Builtins}
use lite_store.Interfaces.{StoreInterface}
use lite_store.Types.{PersistRecord}
use lite_store.Config.{LiteStoreConfig}
use lite_store.Commands.Keeps.{Keeps}
use lite_store.Router.{Hashing, make_router, route_request, route_request-IsRoute}
use lite_store.Persistence.{JsonLib, replay}
use lite_store.Worker.{StoreWorker, make_worker, start_worker, execute_started, worker_snapshot}
use lite_store.Worker.Execution.{execute_running}
use lite_store.CountMin.TopK.Counts.{Tracks, made-Tracks}
use lite_store.Metrics.{Floats, MetricsCollector, observe_store_snapshot}
use lite_store.Server.{
  LiteStoreRuntime, Crash, collect_snapshots, refresh_workers, refresh_metrics_snapshot, update,
}
use lite_store.Server.Start.{
  make_workers, start_workers, make_runtime, init, replay_worker, replayed, replay_record,
  replay_records, replay_persistence, refresh_started, start,
}
use lite_store.Server.Serving.{IsReady, IsServing, replaced-IsServing, executed-IsReady}

-- A worker that is not started yet.
abbrev pub IsMade : {S : Type 0} (P : S → Type 0) → StoreWorker S → Type 0
IsMade P w = (w.in_flight ≡ 0) × P w.store

module _ {S : Type 0} (store : StoreInterface S) (fresh : ℕ → S) where
  make_workers-kept :
      (index : ℕ) (ids : List Text) (j : Text) (workers : Dict Text (StoreWorker S))
      → IsIn j workers
      → IsIn j (make_workers store fresh index ids workers)
  unfolding make_workers
  make_workers-kept index [] j workers t = t
  make_workers-kept index (id ∷ ids) j workers t =
      make_workers-kept (suc index) ids j _
        (insert-IsIn id j (make_worker store id index (fresh index)) workers t)

  make_workers-IsIn :
      (index : ℕ) (ids : List Text) (workers : Dict Text (StoreWorker S)) (i : ℕ)
      → i < length ids
      → IsIn (get_or ids i []) (make_workers store fresh index ids workers)
  unfolding make_workers
  make_workers-IsIn index [] workers i lt = absurd (omega arith)
  make_workers-IsIn index (id ∷ ids) workers zero lt =
      make_workers-kept (suc index) ids id _ (_, lookup-insert_self id _ workers)
  make_workers-IsIn index (id ∷ ids) workers (suc i) lt =
      make_workers-IsIn (suc index) ids _ i (omega arith)

  pub make_workers-IsMade :
      (P : S → Type 0)
      → ((i : ℕ) → P (fresh i))
      → (index : ℕ) (ids : List Text) (workers : Dict Text (StoreWorker S))
      → ((j : Text) (w : StoreWorker S) → lookup j workers ≡ some w → IsMade P w)
      → (j : Text) (w : StoreWorker S)
      → lookup j (make_workers store fresh index ids workers) ≡ some w
      → IsMade P w
  unfolding make_workers
  make_workers-IsMade P clean index [] workers made = made
  make_workers-IsMade P clean index (id ∷ ids) workers made =
      make_workers-IsMade P clean (suc index) ids _ λ j w found.
        elim (insert-cases id j (make_worker store id index (fresh index)) w workers found) [
          | inl e ↦ subst (IsMade P) e (refl, clean index)
          | inr old ↦ made j w old
        ]

module _ {S : Type 0} (store : StoreInterface S) (b : Builtins) (json : JsonLib) (h : Hashing)
    (f : Floats) {P : S → Type 0} (k : Keeps store P)
    (expires : (s : S) (now : Option Time) → P s → P (store.process_expirations s now).0)
    (looks : (s : S) → P s → P (store.snapshot s).0) where
  abbrev pub StartsIn : LiteStoreRuntime S × Result Crash (Unit {0}) → Type 0
  StartsIn c = (rt : LiteStoreRuntime S) × (c ≡ (rt, ok tt)) × IsServing h P rt

  replay_record-StartsIn :
      (rt : LiteStoreRuntime S) (r : PersistRecord)
      → IsServing h P rt
      → StartsIn (replay_record store b json h f rt r)
  unfolding replay_record
  replay_record-StartsIn rt r v =
      let (ids, made) = v.made in
      let route = route_request h rt.router r.request in
      let (below, named) = route_request-IsRoute h ids r.request made in
      let (w, found) = v.manned route.partition_id below in
      let here : lookup route.worker_id rt.workers ≡ some w =
        ap (λ id. lookup id rt.workers) named ∙ found in
      rw here (replayed-StartsIn route.worker_id w (v.ready route.worker_id w here))
    where
      replayed-StartsIn :
          (id : Text) (w : StoreWorker S)
          → IsReady P w
          → StartsIn (replay_worker store b json h f rt r id (some w))
      replayed-StartsIn id w ready =
          unfold replay_worker replayed in
          rw (execute_running store b w r.request ready.running) (
            _,
            refl,
            replaced-IsServing h rt v id (execute_started store b w r.request).0
                (executed-IsReady store b json h f k expires w r.request ready),
          )

  replay_records-StartsIn :
      (records : List PersistRecord) (c : LiteStoreRuntime S × Result Crash (Unit {0}))
      → StartsIn c
      → StartsIn (replay_records store b json h f c records)
  unfolding replay_records
  replay_records-StartsIn [] c (rt, e, v) = (rt, rw e refl, v)
  replay_records-StartsIn (r ∷ records) c (rt, e, v) =
      rw e (replay_records-StartsIn records _ (replay_record-StartsIn rt r v))

  abbrev pub looked : StoreWorker S → StoreWorker S
  looked w = (worker_snapshot store w).0

  pub collect-map_values :
      (workers : Dict Text (StoreWorker S)) (aggregated : Dict Text Text)
      → (collect_snapshots store workers aggregated).0 ≡ map_values looked workers
  unfolding collect_snapshots map_values
  collect-map_values [] aggregated = refl
  collect-map_values ((id, w) ∷ workers) aggregated =
      ap (λ l. (id, looked w) ∷ l)
        (collect-map_values workers (update aggregated (worker_snapshot store w).1))

  looked-IsReady : (w : StoreWorker S) → IsReady P w → IsReady P (looked w)
  unfolding worker_snapshot
  looked-IsReady w r = record { running = r.running; idle = r.idle; kept = looks w.store r.kept }

  mapped-IsServing :
      (rt : LiteStoreRuntime S)
      → IsServing h P rt
      → IsServing h P (record rt { workers = map_values looked rt.workers })
  mapped-IsServing rt v = record {
    made = v.made;
    manned = λ i lt.
        let (w, found) = v.manned i lt in (looked w, lookup-map_values looked _ w rt.workers found);
    ready = λ j w' found.
        let (w, old, e) = lookup-map_values_from looked j w' rt.workers found in
        subst (IsReady P) e (looked-IsReady w (v.ready j w old));
    counted = v.counted;
  }

  refreshed-IsServing :
      (rt : LiteStoreRuntime S) (workers : Dict Text (StoreWorker S)) (m : MetricsCollector)
      → IsServing h P rt
      → workers ≡ map_values looked rt.workers
      → m.hot_key_tracker ≡ rt.metrics.hot_key_tracker
      → IsServing h P (record rt { workers = workers; metrics = m })
  refreshed-IsServing rt workers m v e tracker =
      let mapped = mapped-IsServing rt v in
      record {
        made = v.made;
        manned = λ i lt. let (w, found) = mapped.manned i lt in (w, ap (lookup _) e ∙ found);
        ready = λ j w found. mapped.ready j w (ap (lookup j) (sym e) ∙ found);
        counted = (v.counted.0, subst (Tracks h 100 2048 4 v.counted.0) (sym tracker) v.counted.1);
      }

  pub refresh-IsServing :
      (rt : LiteStoreRuntime S)
      → IsServing h P rt
      → IsServing h P (refresh_metrics_snapshot store b json h f rt)
  unfolding refresh_metrics_snapshot
  refresh-IsServing rt v = workers_refreshed rt.workers refl
    where
      workers_refreshed :
          (workers : Dict Text (StoreWorker S))
          → rt.workers ≡ workers
          → IsServing h P (refresh_workers store b json h f rt workers)
      workers_refreshed [] e = unfold refresh_workers in v
      workers_refreshed (x ∷ workers) e =
          unfold refresh_workers in
          refreshed-IsServing rt (collect_snapshots store (x ∷ workers) []).0
            (observe_store_snapshot h rt.metrics (collect_snapshots store (x ∷ workers) []).1) v
            (collect-map_values (x ∷ workers) [] ∙ ap (map_values looked) (sym e))
            (unfold observe_store_snapshot in refl)

  pub made-IsServing :
      (fresh : ℕ → S)
      → ((i : ℕ) → P (fresh i))
      → (ids : List Text) (content : Text) (rt : LiteStoreRuntime S)
      → make_runtime store b json h f fresh content ids (make_router ids) ≡ ok rt
      → IsServing h P (record rt { workers = start_workers store rt.workers })
  unfolding make_runtime make_router
  made-IsServing fresh clean [] content rt made = absurd cc
  made-IsServing fresh clean (id ∷ ids) content rt made =
      subst (λ rt'. IsServing h P (record rt' { workers = start_workers store rt'.workers }))
        (ok_injective made)
        (unfold start_workers in
          record {
            made = (id ∷ ids, refl);
            manned = λ i lt.
                let (w, found) = make_workers-IsIn store fresh 0 (id ∷ ids) [] i lt in
                (start_worker store w, lookup-map_values (start_worker store) _ w _ found);
            ready = λ j w' found.
                let (w, old, e) = lookup-map_values_from (start_worker store) j w' _ found in
                let (idle, kept) =
                  make_workers-IsMade store fresh P clean 0 (id ∷ ids) [] none_there j w old in
                subst (IsReady P) e (record { running = refl; idle = idle; kept = kept });
            counted = ([], made-Tracks h 100 2048 4);
          })
    where
      none_there : (j : Text) (w : StoreWorker S) → lookup j [] ≡ some w → IsMade P w
      none_there j w found = absurd (cc (found, lookup-nil {V = StoreWorker S} j))

  pub start-StartsIn :
      (fresh : ℕ → S)
      → ((i : ℕ) → P (fresh i))
      → (content : Text) (config : LiteStoreConfig) (rt : LiteStoreRuntime S)
      → init store b json h f fresh content config ≡ ok rt
      → StartsIn (start store b json h f rt)
  unfolding init start replay_persistence refresh_started
  start-StartsIn fresh clean content config rt made =
      let begun : LiteStoreRuntime S = record rt { workers = start_workers store rt.workers } in
      let v = made-IsServing fresh clean _ content rt made in
      let (rt', e, v') =
        replay_records-StartsIn (replay json rt.persistence) (begun, ok tt) (begun, refl, v) in
      (refresh_metrics_snapshot store b json h f rt', rw e refl, refresh-IsServing rt' v')
