-- ===== src/Commands/Writes.antt =====
-- The commands change what a store has for a key as the specification says, and GET answers it.
use lite_store.Base.{◌≡◌, ◌≢◌, ap, Option, none, some, List, [], ◌∷◌, ℤ}
use lite_store.Base.Text.{Text, text_key}
use lite_store.Clock.{Clock}
use lite_store.Builtins.{Builtins}
use lite_store.Interfaces.{memory_store}
use lite_store.Types.{CommandName, CommandRequest, CommandResponse, bulk_string, null, response}
use lite_store.Store.{MemoryStore, get, keys}
use lite_store.Store.Holding.{
  Holds, processed-Holds, set-Holds, deleted-Holds, set_self-Holds, expire-Holds, ttl-Holds,
}
use lite_store.Commands.Contents.{wrote, Untimed}
use lite_store.Commands.{execute_command, dispatch, get_all, expire_seconds}

-- the answer to a GET of a key that has this
unfoldable pub found_response : CommandRequest → Option Text → CommandResponse
found_response request none = response null request.request_id
found_response request (some value) = record (response bulk_string request.request_id) {
  value = some value;
}

module _ (c : Clock) (b : Builtins) (k : Text) (o : Option Text) where
  get_all-Holds :
      (l : List Text) (s : MemoryStore) → Holds k o s → Holds k o (get_all (memory_store c b) s l).0
  unfolding get_all get
  get_all-Holds [] s h = h
  get_all-Holds (j ∷ l) s h = get_all-Holds l (get c s j).0 (processed-Holds c k o s h)

  module _ (request : CommandRequest) where
    seconds-Holds :
        (s : MemoryStore) (j : Text) (seconds : Option ℤ)
        → j ≢ k
        → Holds k o s
        → Holds k o (expire_seconds (memory_store c b) b request s j seconds).0
    unfolding expire_seconds
    seconds-Holds s j none other h = h
    seconds-Holds s j (some n) other h = expire-Holds c k o s j n other h

    dispatch-Holds :
        (name : CommandName) (s : MemoryStore) (args : List Text)
        → Untimed k name args
        → Holds k o s
        → Holds k (wrote k name args o) (dispatch (memory_store c b) b request name s args).0
    unfolding dispatch get keys wrote
    dispatch-Holds CommandName.ping s [] untimed h = h
    dispatch-Holds CommandName.ping s (_ ∷ _) untimed h = h
    dispatch-Holds CommandName.set s (j ∷ w ∷ []) untimed h = set-Holds c k o s j w h
    dispatch-Holds CommandName.set s [] untimed h = h
    dispatch-Holds CommandName.set s (_ ∷ []) untimed h = h
    dispatch-Holds CommandName.set s (_ ∷ _ ∷ _ ∷ _) untimed h = h
    dispatch-Holds CommandName.get s [] untimed h = h
    dispatch-Holds CommandName.get s (j ∷ []) untimed h = processed-Holds c k o s h
    dispatch-Holds CommandName.get s (_ ∷ _ ∷ _) untimed h = h
    dispatch-Holds CommandName.del s [] untimed h = h
    dispatch-Holds CommandName.del s (j ∷ []) untimed h = deleted-Holds c k o s j h
    dispatch-Holds CommandName.del s (_ ∷ _ ∷ _) untimed h = h
    dispatch-Holds CommandName.expire s [] untimed h = h
    dispatch-Holds CommandName.expire s (_ ∷ []) untimed h = h
    dispatch-Holds CommandName.expire s (j ∷ n ∷ []) untimed h =
        seconds-Holds s j (b.int_of n) untimed h
    dispatch-Holds CommandName.expire s (_ ∷ _ ∷ _ ∷ _) untimed h = h
    dispatch-Holds CommandName.ttl s [] untimed h = h
    dispatch-Holds CommandName.ttl s (j ∷ []) untimed h = ttl-Holds c k o s j h
    dispatch-Holds CommandName.ttl s (_ ∷ _ ∷ _) untimed h = h
    dispatch-Holds CommandName.mget s [] untimed h = h
    dispatch-Holds CommandName.mget s (j ∷ l) untimed h = get_all-Holds (j ∷ l) s h
    dispatch-Holds CommandName.keys s [] untimed h = processed-Holds c k o s h
    dispatch-Holds CommandName.keys s (_ ∷ []) untimed h = processed-Holds c k o s h
    dispatch-Holds CommandName.keys s (_ ∷ _ ∷ _) untimed h = h
    dispatch-Holds CommandName.flushall s args untimed h = absurd untimed

    -- A key that a command gives no deadline has in the store, after the command, what the
    -- specification says, and no deadline.
    pub execute_command-Holds :
        (s : MemoryStore)
        → Untimed k request.command request.args
        → Holds k o s
        → Holds k
            (wrote k request.command request.args o)
            (execute_command (memory_store c b) b request s).0
    unfolding execute_command
    execute_command-Holds s untimed h = dispatch-Holds request.command s request.args untimed h

    -- the SET of the key, whatever was there before
    pub execute_set-Holds :
        (s : MemoryStore) (v : Text)
        → request.command ≡ CommandName.set
        → request.args ≡ k ∷ v ∷ []
        → Holds k (some v) (execute_command (memory_store c b) b request s).0
    unfolding execute_command dispatch
    execute_set-Holds s v name args = rw (name, args) (set_self-Holds c k v s)

    -- the GET of the key
    pub execute_get-answer :
        (s : MemoryStore)
        → request.command ≡ CommandName.get
        → request.args ≡ k ∷ []
        → Holds k o s
        → (execute_command (memory_store c b) b request s).1 ≡ found_response request o
    unfolding execute_command dispatch get found_response
    execute_get-answer s name args h =
        rw (name, args) (ap (found_response request) (processed-Holds c k o s h).0)
