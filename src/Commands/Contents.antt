-- ===== src/Commands/Contents.antt =====
-- What a client counts on: a function from keys to values, which SET and DEL change.
--
-- The specification of the store, of the worker process and of the server, for the keys that no
-- EXPIRE is sent for.
use lite_store.Base.{◌≡◌, ◌≢◌, refl, ite, Option, none, some, List, [], ◌∷◌}
use mathlib.Core.Logic.{if_neg}
use lite_store.Base.Text.{Text, text_key}
use lite_store.Types.{CommandName, CommandRequest}

-- What the key has after a command, by what it had before.
unfoldable pub wrote : Text → CommandName → List Text → Option Text → Option Text
wrote k CommandName.set (j ∷ w ∷ []) o = ite (text_key.decide j k) (some w) o
wrote k CommandName.del (j ∷ []) o = ite (text_key.decide j k) none o
wrote k _ _ o = o

-- What the key has after these requests.
unfoldable pub written : Text → List CommandRequest → Option Text → Option Text
unfolding wrote
written k [] o = o
written k (request ∷ requests) o = written k requests (wrote k request.command request.args o)

-- A command that gives the key no deadline and does not flush the store.
abbrev pub Untimed : Text → CommandName → List Text → Type 0
Untimed k CommandName.expire (j ∷ _) = j ≢ k
Untimed k CommandName.flushall _ = ⊥
Untimed k _ _ = Unit

-- A command that neither writes the key nor flushes the store.
abbrev pub Spares : Text → CommandName → List Text → Type 0
Spares k CommandName.set (j ∷ _) = j ≢ k
Spares k CommandName.del (j ∷ _) = j ≢ k
Spares k CommandName.expire (j ∷ _) = j ≢ k
Spares k CommandName.flushall _ = ⊥
Spares k _ _ = Unit

pub Spares-Untimed :
    (k : Text) (name : CommandName) (args : List Text) → Spares k name args → Untimed k name args
Spares-Untimed k CommandName.set args h = tt
Spares-Untimed k CommandName.del args h = tt
Spares-Untimed k CommandName.expire [] h = tt
Spares-Untimed k CommandName.expire (j ∷ args) h = h
Spares-Untimed k CommandName.flushall args h = h
Spares-Untimed k CommandName.ping args h = tt
Spares-Untimed k CommandName.get args h = tt
Spares-Untimed k CommandName.ttl args h = tt
Spares-Untimed k CommandName.mget args h = tt
Spares-Untimed k CommandName.keys args h = tt

pub wrote_spared :
    (k : Text) (name : CommandName) (args : List Text) (o : Option Text)
    → Spares k name args
    → wrote k name args o ≡ o
unfolding wrote
wrote_spared k CommandName.set (j ∷ w ∷ []) o h = if_neg (text_key.decide j k) h _ _
wrote_spared k CommandName.del (j ∷ []) o h = if_neg (text_key.decide j k) h _ _
wrote_spared k CommandName.set [] o h = refl
wrote_spared k CommandName.set (_ ∷ []) o h = refl
wrote_spared k CommandName.set (_ ∷ _ ∷ _ ∷ _) o h = refl
wrote_spared k CommandName.del [] o h = refl
wrote_spared k CommandName.del (_ ∷ _ ∷ _) o h = refl
wrote_spared k CommandName.ping args o h = refl
wrote_spared k CommandName.get args o h = refl
wrote_spared k CommandName.expire args o h = refl
wrote_spared k CommandName.ttl args o h = refl
wrote_spared k CommandName.mget args o h = refl
wrote_spared k CommandName.keys args o h = refl
wrote_spared k CommandName.flushall args o h = refl
