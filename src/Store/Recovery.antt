-- ===== src/Store/Recovery.antt =====
-- What the replay of a request does to a key, in a store that recovers.
use lite_store.Base.{Option, none, some, List, [], ◌∷◌, ℤ, ◌≢◌}
use lite_store.Base.Text.{Text, text_key}
use lite_store.Clock.{Clock}
use lite_store.Builtins.{Builtins}
use lite_store.Types.{CommandName, CommandRequest}
use lite_store.Commands.Contents.{wrote, Untimed}
use lite_store.Store.{MemoryStore, processed, replay_request, replay_expire, apply_replay_request}
use lite_store.Store.Holding.{Holds, processed-Holds, set-Holds, deleted-Holds, expire-Holds}

module _ (c : Clock) (b : Builtins) (k : Text) (o : Option Text) where
  replay_expire-Holds :
      (s : MemoryStore) (j : Text) (seconds : Option ℤ)
      → j ≢ k
      → Holds k o s
      → Holds k o (replay_expire c b s j seconds)
  unfolding replay_expire
  replay_expire-Holds s j none other h = h
  replay_expire-Holds s j (some n) other h = expire-Holds c k o s j n other h

  replay_request-Holds :
      (s : MemoryStore) (name : CommandName) (args : List Text)
      → Untimed k name args
      → Holds k o s
      → Holds k (wrote k name args o) (replay_request c b s name args)
  unfolding replay_request wrote
  replay_request-Holds s CommandName.set (j ∷ w ∷ []) untimed h = set-Holds c k o s j w h
  replay_request-Holds s CommandName.set [] untimed h = h
  replay_request-Holds s CommandName.set (_ ∷ []) untimed h = h
  replay_request-Holds s CommandName.set (_ ∷ _ ∷ _ ∷ _) untimed h = h
  replay_request-Holds s CommandName.del [] untimed h = h
  replay_request-Holds s CommandName.del (j ∷ []) untimed h = deleted-Holds c k o s j h
  replay_request-Holds s CommandName.del (_ ∷ _ ∷ _) untimed h = h
  replay_request-Holds s CommandName.expire [] untimed h = h
  replay_request-Holds s CommandName.expire (_ ∷ []) untimed h = h
  replay_request-Holds s CommandName.expire (j ∷ n ∷ []) untimed h =
      replay_expire-Holds s j (b.int_of n) untimed h
  replay_request-Holds s CommandName.expire (_ ∷ _ ∷ _ ∷ _) untimed h = h
  replay_request-Holds s CommandName.flushall args untimed h = absurd untimed
  replay_request-Holds s CommandName.ping args untimed h = h
  replay_request-Holds s CommandName.get args untimed h = h
  replay_request-Holds s CommandName.ttl args untimed h = h
  replay_request-Holds s CommandName.mget args untimed h = h
  replay_request-Holds s CommandName.keys args untimed h = h

  -- A replayed request changes what the store has for a key as the specification says.
  pub apply_replay_request-Holds :
      (s : MemoryStore) (request : CommandRequest)
      → Untimed k request.command request.args
      → Holds k o s
      → Holds k (wrote k request.command request.args o) (apply_replay_request c b s request)
  unfolding apply_replay_request
  apply_replay_request-Holds s request untimed h =
      replay_request-Holds (processed c s) request.command request.args untimed
        (processed-Holds c k o s h)
