-- ===== src/Server/Life.antt =====
-- The life of the server: from its construction through any lines of any connections.
use lite_store.Base.{ℕ, ◌≡◌, sym, subst, Option, ok}
use lite_store.Base.Text.{Text, text_key}
use lite_store.Clock.{Time}
use lite_store.Builtins.{Builtins}
use lite_store.Interfaces.{StoreInterface}
use lite_store.Config.{LiteStoreConfig}
use lite_store.Commands.Keeps.{Keeps}
use lite_store.Router.{Hashing}
use lite_store.Persistence.{JsonLib}
use lite_store.Metrics.{Floats}
use lite_store.Server.{
  LiteStoreRuntime, Outcome, next_connection_id, answer_line, refresh_metrics_snapshot,
}
use lite_store.Server.Start.{init, start}
use lite_store.Server.Serving.{IsServing, answer_line-Answers}
use lite_store.Server.Begun.{start-StartsIn, refresh-IsServing}

module _ {S : Type 0} (store : StoreInterface S) (b : Builtins) (json : JsonLib) (h : Hashing)
    (f : Floats) where
  -- What the server has become since it was made from a log and a configuration.
  pub data Lived (fresh : ℕ → S) (content : Text) (config : LiteStoreConfig)
      : LiteStoreRuntime S → Type 0 where
    started :
        {rt : LiteStoreRuntime S}
        → init store b json h f fresh content config ≡ ok rt
        → Lived fresh content config (start store b json h f rt).0
    connected :
        {rt : LiteStoreRuntime S}
        → (peer : Option (Text × ℕ)) → Lived fresh content config rt
        → Lived fresh content config (next_connection_id rt peer).0
    answered :
        {rt : LiteStoreRuntime S}
        → (id : Text) (n : ℕ) (decoded : Text) (outcome : Outcome) (duration : Time)
        → Lived fresh content config rt
        → Lived fresh content config
            (answer_line store b json h f rt id n decoded outcome duration).0
    refreshed :
        {rt : LiteStoreRuntime S}
        → Lived fresh content config rt
        → Lived fresh content config (refresh_metrics_snapshot store b json h f rt)

module _ {S : Type 0} (store : StoreInterface S) (b : Builtins) (json : JsonLib) (h : Hashing)
    (f : Floats) {P : S → Type 0} (k : Keeps store P)
    (expires : (s : S) (now : Option Time) → P s → P (store.process_expirations s now).0)
    (looks : (s : S) → P s → P (store.snapshot s).0) where
  -- If every method of the store keeps an invariant that fresh stores have: from the start of the
  -- server on, through any connections, any lines of them in any order, any refused writes to the log
  -- and any refreshes of the metrics, each worker that a request can be routed to is there, runs, has
  -- no request in flight, and its store has the invariant.
  pub Lived-IsServing :
      (fresh : ℕ → S)
      → ((i : ℕ) → P (fresh i))
      → (content : Text) (config : LiteStoreConfig) {rt : LiteStoreRuntime S}
      → Lived store b json h f fresh content config rt
      → IsServing h P rt
  unfolding next_connection_id
  Lived-IsServing fresh clean content config (started {rt} made) =
      let (rt', e, v) =
        start-StartsIn store b json h f k expires looks fresh clean content config rt made in
      subst (λ c. IsServing h P c.0) (sym e) v
  Lived-IsServing fresh clean content config (connected peer l) =
      let v = Lived-IsServing fresh clean content config l in
      record { made = v.made; manned = v.manned; ready = v.ready; counted = v.counted }
  Lived-IsServing fresh clean content config (answered {rt} id n decoded outcome duration l) =
      let v = Lived-IsServing fresh clean content config l in
      let (rt', line, e, v') =
        answer_line-Answers store b json h f k expires rt id n decoded outcome duration v in
      subst (λ c. IsServing h P c.0) (sym e) v'
  Lived-IsServing fresh clean content config (refreshed {rt} l) =
      refresh-IsServing store b json h f k expires looks rt
        (Lived-IsServing fresh clean content config l)
