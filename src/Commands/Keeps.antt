-- ===== src/Commands/Keeps.antt =====
-- An invariant that every method of a store keeps is kept by every command.
use lite_store.Base.{Option, none, some, List, [], ◌∷◌, ℤ}
use lite_store.Base.Text.{Text, text}
use lite_store.Clock.{Clock, IsRegular}
use lite_store.Builtins.{Builtins}
use lite_store.Interfaces.{StoreInterface, memory_store}
use lite_store.Types.{CommandName, CommandRequest}
use lite_store.Store.{get, keys}
use lite_store.Store.Synced.{IsSynced}
use lite_store.Store.Methods.{
  process_expirations-IsSynced, set-IsSynced, delete-IsSynced, expire-IsSynced, ttl-IsSynced,
  flush-IsSynced,
}
use lite_store.Commands.{execute_command, dispatch, get_all, expire_seconds}

-- The methods that commands call keep `P`.
pub record Keeps {S : Type 0} (store : StoreInterface S) (P : S → Type 0) : Type 0 where
  pub set : (s : S) (k v : Text) → P s → P (store.set s k v)
  pub get : (s : S) (k : Text) → P s → P (store.get s k).0
  pub delete : (s : S) (k : Text) → P s → P (store.delete s k).0
  pub expire : (s : S) (k : Text) (n : ℤ) → P s → P (store.expire s k n).0
  pub ttl : (s : S) (k : Text) → P s → P (store.ttl s k).0
  pub keys : (s : S) (pattern : Text) → P s → P (store.keys s pattern).0
  pub flush : (s : S) → P s → P (store.flush s).0

module _ {S : Type 0} (store : StoreInterface S) (b : Builtins) {P : S → Type 0}
    (k : Keeps store P) where
  get_all-keeps : (keys : List Text) (s : S) → P s → P (get_all store s keys).0
  unfolding get_all
  get_all-keeps [] s h = h
  get_all-keeps (key ∷ keys) s h = get_all-keeps keys (store.get s key).0 (k.get s key h)

  module _ (request : CommandRequest) where
    expire-keeps :
        (s : S) (key : Text) (o : Option ℤ) → P s → P (expire_seconds store b request s key o).0
    unfolding expire_seconds
    expire-keeps s key none h = h
    expire-keeps s key (some n) h = k.expire s key n h

    dispatch-keeps :
        (name : CommandName) (s : S) (args : List Text)
        → P s
        → P (dispatch store b request name s args).0
    unfolding dispatch
    dispatch-keeps CommandName.set s (key ∷ value ∷ []) h = k.set s key value h
    dispatch-keeps CommandName.get s (key ∷ []) h = k.get s key h
    dispatch-keeps CommandName.del s (key ∷ []) h = k.delete s key h
    dispatch-keeps CommandName.expire s (key ∷ raw ∷ []) h = expire-keeps s key (b.int_of raw) h
    dispatch-keeps CommandName.ttl s (key ∷ []) h = k.ttl s key h
    dispatch-keeps CommandName.mget s (key ∷ ks) h = get_all-keeps (key ∷ ks) s h
    dispatch-keeps CommandName.keys s [] h = k.keys s (text "*") h
    dispatch-keeps CommandName.keys s (pattern ∷ []) h = k.keys s pattern h
    dispatch-keeps CommandName.keys s (_ ∷ _ ∷ _) h = h
    dispatch-keeps CommandName.flushall s [] h = k.flush s h
    dispatch-keeps CommandName.ping s [] h = h
    dispatch-keeps _ s _ h = h

    -- An invariant that each method of a store keeps is kept by the execution of every request.
    pub execute_command-keeps : (s : S) → P s → P (execute_command store b request s).0
    unfolding execute_command
    execute_command-keeps s h = dispatch-keeps request.command s request.args h

-- The in-memory store keeps its invariant.
pub memory_store-Keeps :
    (c : Clock) (b : Builtins) → IsRegular c → Keeps (memory_store c b) (IsSynced c)
unfolding get keys
memory_store-Keeps c b regular = record {
  set = λ s k v h. set-IsSynced c regular s k h v;
  get = λ s k h. process_expirations-IsSynced c regular s none h;
  delete = λ s k h. delete-IsSynced c regular s k h;
  expire = λ s k n h. expire-IsSynced c regular s k h n;
  ttl = λ s k h. ttl-IsSynced c regular s k h;
  keys = λ s pattern h. process_expirations-IsSynced c regular s none h;
  flush = λ s h. flush-IsSynced c regular s (text "") h;
}
