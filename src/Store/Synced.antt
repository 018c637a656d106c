-- ===== src/Store/Synced.antt =====
-- The invariant of the store: the wheel is sound and holds exactly the deadlines of `_expires_at`,
-- and only present keys have a deadline.
use lite_store.Base.{
  ◌≡◌, ◌∙◌, sym, inl, inr, true, none, List, [], ◌∷◌, arith, Option-cases, Bool-cases,
}
use lite_store.Base.Text.{Text, text_key}
use lite_store.Base.Dict.{lookup, IsDistinct}
use lite_store.Clock.{Time, Clock, IsRegular}
use lite_store.Wheel.{TimerEntry}
use lite_store.Wheel.Sweep.{listed}
use lite_store.Wheel.PopDue.{pop_due-Pops}
use lite_store.Wheel.Timed.{expiry}
use lite_store.Wheel.Delivery.{pop_due_sound, entries-started}
use lite_store.Wheel.Lifetime.{IsSound, pop_due-IsSound}
use lite_store.Store.{MemoryStore, expire_until}
use lite_store.Store.Shed.{named, spared, dropped, due_entries, popped, expire_until-Sheds}

pub record IsSynced (c : Clock) (s : MemoryStore) : Type 0 where
  pub wheel : IsSound c 512 s.timing_wheel
  pub expiries :
      (k : Text) → expiry (lookup k s.timing_wheel.entries_by_key) ≡ lookup k s.expires_at
  pub owned : (k : Text) → lookup k s.items ≡ none → lookup k s.expires_at ≡ none
  pub distinct : IsDistinct s.items

-- A named key is listed with some time.
pub listed_of_named :
    (k : Text) (due : List TimerEntry) → named k due ≡ true → (x : Time) × (listed k x due ≡ true)
unfolding named listed
listed_of_named k [] h = cc
listed_of_named k (e ∷ due) h = elim (text_key.decide e.key k) [
  | yes here ↦ (e.expires_at, ground arith)
  | no other ↦ let (x, there) = listed_of_named k due (ground arith) in (x, ground (arith, there))
]

pub named_of_listed :
    (k : Text) (x : Time) (due : List TimerEntry) → listed k x due ≡ true → named k due ≡ true
unfolding named listed
named_of_listed k x [] h = cc
named_of_listed k x (e ∷ due) h = ground (arith, named_of_listed k x due)

module _ (c : Clock) (regular : IsRegular c) (s : MemoryStore) (now : Time) (v : IsSynced c s) where
  -- The wheel and the deadlines drop the same keys.
  pub expiries-popped :
      (k : Text)
      → expiry (lookup k (popped c s now).timing_wheel.entries_by_key)
        ≡ spared (dropped c s now k) (lookup k s.expires_at)
  expiries-popped k =
      let w = s.timing_wheel in
      let due = due_entries c s now in
      let p = pop_due-Pops c w now v.wheel.filed in
      elim (Bool-cases (named k due)) [
        | inl out ↦
            let (x, there) = listed_of_named k due out in
            let sound = pop_due_sound c regular w now v.wheel.filed v.wheel.timed k x there in
            ground (arith, out, sound, v.expiries k)
        | inr stays ↦
            let before = entries-started c regular w now v.wheel.filed v.wheel.timed k in
            elim (Option-cases (lookup k w.entries_by_key)) [
              | inl absent ↦ ground (arith, stays, p.kept k, before, v.expiries k)
              | inr (e, there) ↦ ground (
                arith,
                stays,
                p.kept k,
                p.returned k e.expires_at,
                named_of_listed k e.expires_at due,
                before,
                v.expiries k,
              )
            ]
      ]

  pub expire_until-IsSynced : IsSynced c (expire_until c s now).0
  expire_until-IsSynced =
      let a = expire_until-Sheds c s now in
      record {
        wheel = rw a.wheel (pop_due-IsSound c 512 s.timing_wheel v.wheel now);
        expiries = λ k. rw a.wheel (expiries-popped k ∙ sym (a.deadlines k));
        owned = λ k. ground (arith, a.items k, a.deadlines k, v.owned k);
        distinct = a.distinct v.distinct;
      }
