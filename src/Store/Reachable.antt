-- ===== src/Store/Reachable.antt =====
-- The stores that the program can reach: `MemoryStore()` and every call of a method after it.
use lite_store.Base.{Option, none, some, List, [], ◌∷◌, ℤ}
use lite_store.Base.Text.{Text, text}
use lite_store.Clock.{Time, Clock, IsRegular}
use lite_store.Builtins.{Builtins}
use lite_store.Types.{CommandName, CommandRequest}
use lite_store.Store
use lite_store.Store.{MemoryStore, init, processed}
use lite_store.Store.Synced.{IsSynced}
use lite_store.Store.Methods.{
  init-IsSynced, process_expirations-IsSynced, set-IsSynced, delete-IsSynced, expire-IsSynced,
  ttl-IsSynced, flush-IsSynced,
}

pub data Reachable (c : Clock) (b : Builtins) : MemoryStore → Type 0 where
  created : Reachable c b (init c)
  processed_expirations :
      {s : MemoryStore}
      → (now : Option Time) → Reachable c b s
      → Reachable c b (Store.process_expirations c s now).0
  did_set :
      {s : MemoryStore}
      → (key value : Text) → Reachable c b s
      → Reachable c b (Store.set c s key value)
  did_get : {s : MemoryStore} → (key : Text) → Reachable c b s → Reachable c b (Store.get c s key).0
  did_delete :
      {s : MemoryStore} → (key : Text) → Reachable c b s → Reachable c b (Store.delete c s key).0
  did_expire :
      {s : MemoryStore}
      → (key : Text) → (seconds : ℤ) → Reachable c b s
      → Reachable c b (Store.expire c s key seconds).0
  did_ttl : {s : MemoryStore} → (key : Text) → Reachable c b s → Reachable c b (Store.ttl c s key).0
  did_keys :
      {s : MemoryStore}
      → (pattern : Text) → Reachable c b s
      → Reachable c b (Store.keys c b s pattern).0
  did_snapshot : {s : MemoryStore} → Reachable c b s → Reachable c b (Store.snapshot c s).0
  did_flush : {s : MemoryStore} → Reachable c b s → Reachable c b (Store.flush c s).0
  replayed :
      {s : MemoryStore}
      → (request : CommandRequest) → Reachable c b s
      → Reachable c b (Store.apply_replay_request c b s request)

module _ (c : Clock) (b : Builtins) (regular : IsRegular c) where
  replay_expire-IsSynced :
      (s : MemoryStore) (key : Text) (o : Option ℤ)
      → IsSynced c s
      → IsSynced c (Store.replay_expire c b s key o)
  unfolding Store.replay_expire
  replay_expire-IsSynced s key none v = v
  replay_expire-IsSynced s key (some n) v = expire-IsSynced c regular s key v n

  replay_request-IsSynced :
      (s : MemoryStore) (name : CommandName) (args : List Text)
      → IsSynced c s
      → IsSynced c (Store.replay_request c b s name args)
  unfolding Store.replay_request
  replay_request-IsSynced s CommandName.set (key ∷ value ∷ []) v =
      set-IsSynced c regular s key v value
  replay_request-IsSynced s CommandName.del (key ∷ []) v = delete-IsSynced c regular s key v
  replay_request-IsSynced s CommandName.expire (key ∷ raw ∷ []) v =
      replay_expire-IsSynced s key (b.int_of raw) v
  replay_request-IsSynced s CommandName.flushall [] v = flush-IsSynced c regular s (text "") v
  replay_request-IsSynced s _ _ v = v

  pub replayed-IsSynced :
      (s : MemoryStore) (request : CommandRequest)
      → IsSynced c s
      → IsSynced c (Store.apply_replay_request c b s request)
  unfolding Store.apply_replay_request
  replayed-IsSynced s request v =
      replay_request-IsSynced (processed c s) request.command request.args
        (process_expirations-IsSynced c regular s none v)

  -- On a regular clock, in every store that `MemoryStore()` and any sequence of method calls
  -- and replayed requests lead to: the wheel is sound, it has each key at the deadline that
  -- `_expires_at` has for it, a key without a value has no deadline, and no key is twice in the
  -- data.
  pub Reachable-IsSynced : {s : MemoryStore} → Reachable c b s → IsSynced c s
  unfolding Store.get Store.keys Store.snapshot
  Reachable-IsSynced created = init-IsSynced c regular
  Reachable-IsSynced (processed_expirations {s} now r) =
      process_expirations-IsSynced c regular s now (Reachable-IsSynced r)
  Reachable-IsSynced (did_set {s} key value r) =
      set-IsSynced c regular s key (Reachable-IsSynced r) value
  Reachable-IsSynced (did_get {s} key r) =
      process_expirations-IsSynced c regular s none (Reachable-IsSynced r)
  Reachable-IsSynced (did_delete {s} key r) = delete-IsSynced c regular s key (Reachable-IsSynced r)
  Reachable-IsSynced (did_expire {s} key seconds r) =
      expire-IsSynced c regular s key (Reachable-IsSynced r) seconds
  Reachable-IsSynced (did_ttl {s} key r) = ttl-IsSynced c regular s key (Reachable-IsSynced r)
  Reachable-IsSynced (did_keys {s} pattern r) =
      process_expirations-IsSynced c regular s none (Reachable-IsSynced r)
  Reachable-IsSynced (did_snapshot {s} r) =
      process_expirations-IsSynced c regular s none (Reachable-IsSynced r)
  Reachable-IsSynced (did_flush {s} r) = flush-IsSynced c regular s (text "") (Reachable-IsSynced r)
  Reachable-IsSynced (replayed {s} request r) = replayed-IsSynced s request (Reachable-IsSynced r)
