-- ===== src/Store/Reads.antt =====
-- What a client reads from the store of src/store.py, with the time of the reading.
use lite_store.Base.{
  ◌+◌, ◌≡◌, ◌≤◌, ◌<◌, true, false, none, some, arith, ◌≤ℤ◌, ◌<ℤ◌, pos_part, neg_part, distance,
}
use lite_store.Base.Text.{Text, text_key}
use lite_store.Base.Dict.{lookup}
use lite_store.Clock.{Time, Clock, IsRegular}
use lite_store.Wheel
use lite_store.Wheel.{ScheduledEntry}
use lite_store.Wheel.Sweep.{listed}
use lite_store.Wheel.PopDue.{current_tick}
use lite_store.Wheel.Delivery.{pop_due_complete, pop_due_round, pop_due_passed}
use lite_store.Store.{MemoryStore, process_expirations, get, time_source}
use lite_store.Store.Shed.{over, spared, dropped, expire_until-Sheds}
use lite_store.Store.Synced.{IsSynced, named_of_listed, expiries-popped}

module _ (c : Clock) (s : MemoryStore) (k : Text) where
  -- the time that `get` reads first
  abbrev pub now : Time
  now = c.reading s.reads

  abbrev read : MemoryStore
  read = (time_source c s).0

  get_of_spared : (get c s k).1 ≡ spared (dropped c read now k) (lookup k s.items)
  unfolding get process_expirations
  get_of_spared = (expire_until-Sheds c read now).items k

  -- No key is lost early: a key without a deadline, or whose deadline is after the reading of
  -- `get`, is answered with what the store holds for it.
  pub get_live : over now (lookup k s.expires_at) ≡ false → (get c s k).1 ≡ lookup k s.items
  get_live live = ground (arith, get_of_spared)

  module _ (regular : IsRegular c) (v : IsSynced c s) (e : ScheduledEntry)
      (found : lookup k s.timing_wheel.entries_by_key ≡ some e) where
    read_synced : IsSynced c read
    read_synced = record {
      wheel = v.wheel;
      expiries = v.expiries;
      owned = v.owned;
      distinct = v.distinct;
    }

    get_of_popped :
        e.expires_at ≤ now
        → listed k e.expires_at (Wheel.pop_due c s.timing_wheel now).1 ≡ true
        → (get c s k).1 ≡ none
    get_of_popped due popped = ground (
      arith,
      get_of_spared,
      v.expiries k,
      named_of_listed k e.expires_at (Wheel.pop_due c s.timing_wheel now).1 popped,
    )

    -- In a synced store on a regular clock: a key whose deadline is not after the reading of
    -- `get` is answered with none, if the wheel has not yet processed the tick of the deadline.
    pub get_due :
        s.timing_wheel.last_processed_tick <ℤ e.scheduled_tick
        → e.expires_at ≤ now
        → (get c s k).1 ≡ none
    get_due fresh due =
        get_of_popped due
          (pop_due_complete c regular s.timing_wheel now v.wheel.filed v.wheel.timed k e found fresh
            due).1

    -- In a synced store on a regular clock: a key whose deadline is not after the reading of
    -- `get` is answered with none, if the wheel has at least 512 ticks to process.
    pub get_round :
        512 ≤ distance s.timing_wheel.last_processed_tick (current_tick c s.timing_wheel now)
        → e.expires_at ≤ now
        → (get c s k).1 ≡ none
    get_round round due =
        get_of_popped due
          (pop_due_round c regular s.timing_wheel now v.wheel.filed v.wheel.timed k e found round
            due).1

    -- In a synced store on a regular clock: a key whose tick the wheel has already processed is
    -- answered with its value, even after its deadline, while the current tick is less than 512
    -- ticks after that of the key.
    pub get_stale :
        e.scheduled_tick ≤ℤ s.timing_wheel.last_processed_tick
        → pos_part (current_tick c s.timing_wheel now) + neg_part e.scheduled_tick
          < pos_part e.scheduled_tick + neg_part (current_tick c s.timing_wheel now) + 512
        → (get c s k).1 ≡ lookup k s.items
    get_stale passed near =
        let kept =
          pop_due_passed c regular s.timing_wheel now v.wheel.filed v.wheel.timed k e found passed
            near in
        ground (
          arith,
          get_of_spared,
          expiries-popped c regular read now read_synced k,
          kept,
          v.expiries k,
        )
