-- ===== src/Store/Shed.antt =====
-- What `process_expirations` of src/store.py does to one key: it drops the value and the deadline
-- together, and only when the deadline is not after the time.
use lite_store.Base.{
  ℕ, ◌≡◌, ◌∙◌, refl, Bool, true, false, ◌||◌, ◌&&◌, Option, none, some, List, [], ◌∷◌, arith, ite,
  leb,
}
use lite_store.Base.Text.{Text, text_key}
use lite_store.Base.Dict.{lookup, lookup-erase, IsDistinct, erase-IsDistinct}
use lite_store.Clock.{Time, Clock}
use lite_store.Wheel
use lite_store.Wheel.{TimerEntry}
use lite_store.Store.{MemoryStore, expire_entry, expire_entries, expire_until}

-- Is the key named in the list?
unfoldable pub named : Text → List TimerEntry → Bool
named k [] = false
named k (e ∷ due) = (ite (text_key.decide e.key k) true false) || named k due

-- Is there a deadline that is not after the time?
abbrev pub over : Time → Option Time → Bool
over now none = false
over now (some x) = leb x now

-- What is left of a value or of a deadline.
abbrev pub spared {ℓ} : {A : Type ℓ} → Bool → Option A → Option A
spared true o = none
spared false o = o

-- From `s` to `s'` each key for which `out` holds lost its value and its deadline, and no other key
-- lost or gained anything.
pub record Sheds (out : Text → Bool) (s s' : MemoryStore) : Type 0 where
  pub items : (k : Text) → lookup k s'.items ≡ spared (out k) (lookup k s.items)
  pub deadlines : (k : Text) → lookup k s'.expires_at ≡ spared (out k) (lookup k s.expires_at)
  pub distinct : IsDistinct s.items → IsDistinct s'.items
  pub wheel : s'.timing_wheel ≡ s.timing_wheel

entry-Sheds :
    (now : Time) (s : MemoryStore) (count : ℕ) (e : TimerEntry)
    → Sheds
        (λ k. ite (text_key.decide e.key k) (over now (lookup k s.expires_at)) false)
        s
        (expire_entry now (s, count) e).0
unfolding expire_entry
entry-Sheds now s count e = record {
  items = λ k. ground (arith, lookup-erase e.key k s.items);
  deadlines = λ k. ground (arith, lookup-erase e.key k s.expires_at);
  distinct = λ u. ground (arith, erase-IsDistinct e.key s.items u);
  wheel = ground arith;
}

Sheds-trans :
    {o p q : Text → Bool} (s t u : MemoryStore)
    → Sheds o s t
    → Sheds p t u
    → ((k : Text) → (o k || p k) ≡ q k)
    → Sheds q s u
Sheds-trans {o} {p} {q} s t u a b e = record {
  items = λ k. ground (arith, a.items k, b.items k, e k);
  deadlines = λ k. ground (arith, a.deadlines k, b.deadlines k, e k);
  distinct = λ d. b.distinct (a.distinct d);
  wheel = b.wheel ∙ a.wheel;
}

-- The loop drops exactly the named keys whose deadline is over.
pub entries-Sheds :
    (now : Time) (due : List TimerEntry) (s : MemoryStore) (count : ℕ)
    → Sheds
        (λ k. named k due && over now (lookup k s.expires_at))
        s
        (expire_entries now (s, count) due).0
unfolding expire_entries
entries-Sheds now [] s count = record {
  items = λ k. unfold named in refl;
  deadlines = λ k. unfold named in refl;
  distinct = λ d. d;
  wheel = refl;
}
entries-Sheds now (e ∷ due) s count =
    let p = expire_entry now (s, count) e in
    let a = entry-Sheds now s count e in
    let b = entries-Sheds now due p.0 p.1 in
    Sheds-trans s p.0 (expire_entries now p due).0 a b
      (λ k. unfold named in ground (arith, a.deadlines k))

module _ (c : Clock) (s : MemoryStore) (now : Time) where
  -- the entries that the wheel returns
  abbrev pub due_entries : List TimerEntry
  due_entries = (Wheel.pop_due c s.timing_wheel now).1

  -- the keys that `process_expirations` drops
  abbrev pub dropped : Text → Bool
  dropped k = named k due_entries && over now (lookup k s.expires_at)

  -- the store with the wheel that `pop_due` left
  abbrev pub popped : MemoryStore
  popped = record s { timing_wheel = (Wheel.pop_due c s.timing_wheel now).0 }

  -- Processing drops the value and the deadline of exactly the keys that the wheel returns and
  -- whose deadline is over, and keeps all other keys as they are.
  pub expire_until-Sheds : Sheds dropped popped (expire_until c s now).0
  unfolding expire_until
  expire_until-Sheds = entries-Sheds now due_entries popped 0
