-- ===== src/Store/Methods.antt =====
-- The methods of src/store.py keep the invariant, and each changes at most its own key, beside what
-- the processing of expirations drops.
use lite_store.Base.{
  ℕ, ◌≡◌, ◌⊎◌, refl, inl, inr, true, false, Option, none, some, arith, ite, Option-cases,
  Bool-cases, pos, ℤ, leb_ℤ, pos_part, ◌<ℤ◌, ◌≤ℤ◌,
}
use lite_store.Base.Text.{Text, text_key}
use lite_store.Base.Dict.{
  Dict, lookup, lookup-erase, lookup-insert, insert, erase, IsDistinct, insert-IsDistinct,
  erase-IsDistinct,
}
use lite_store.Clock.{Time, Clock, IsRegular}
use lite_store.Wheel
use lite_store.Wheel.Lifetime.{
  new-IsSound, cancel-IsSound, expiry-cancel, schedule-IsSound, expiry-schedule,
}
use lite_store.Store.{
  snapshot, MemoryStore, init, process_expirations, processed, clear_expiry, set, delete, expire,
  ttl, flush, time_source,
}
use lite_store.Store.Synced.{IsSynced, expire_until-IsSynced}

-- From `s` to `s'` the key got this value and this deadline, and nothing else changed.
pub record Writes (key : Text) (value : Option Text) (deadline : Option Time) (s s' : MemoryStore)
    : Type 0 where
  pub items : (k : Text) → lookup k s'.items ≡ ite (text_key.decide key k) value (lookup k s.items)
  pub deadlines :
      (k : Text)
      → lookup k s'.expires_at ≡ ite (text_key.decide key k) deadline (lookup k s.expires_at)

module _ (c : Clock) (regular : IsRegular c) where
  empty-IsSynced : (n : ℕ) → IsSynced c (record (init c) { reads = n })
  empty-IsSynced n = record {
    wheel = new-IsSound c c.default_tick_seconds 512 (omega arith);
    expiries = λ k. unfold lookup in refl;
    owned = λ k gone. unfold lookup in refl;
    distinct = tt;
  }

  pub init-IsSynced : IsSynced c (init c)
  init-IsSynced = empty-IsSynced 0

  -- Reading the time source changes only the count of readings.
  pub read-IsSynced : (s : MemoryStore) → IsSynced c s → IsSynced c (time_source c s).0
  read-IsSynced s v = record {
    wheel = v.wheel;
    expiries = v.expiries;
    owned = v.owned;
    distinct = v.distinct;
  }

  pub process_expirations-IsSynced :
      (s : MemoryStore) (now : Option Time)
      → IsSynced c s
      → IsSynced c (process_expirations c s now).0
  unfolding process_expirations
  process_expirations-IsSynced s none v =
      expire_until-IsSynced c regular (time_source c s).0 (c.reading s.reads) (read-IsSynced s v)
  process_expirations-IsSynced s (some now) v = expire_until-IsSynced c regular s now v

  pub snapshot-IsSynced : (s : MemoryStore) → IsSynced c s → IsSynced c (snapshot c s).0
  unfolding snapshot
  snapshot-IsSynced s v = process_expirations-IsSynced s none v

  module _ (s : MemoryStore) (key : Text) (v : IsSynced c s) where
    -- the last line of `set` and of `delete`
    assign-IsSynced :
        (items : Dict Text Text)
        → IsDistinct items
        → ((k : Text) → lookup k items ≡ none → (key ≡ k) ⊎ (lookup k s.items ≡ none))
        → IsSynced c (clear_expiry (record s { items = items }) key)
    unfolding clear_expiry
    assign-IsSynced items u absent = record {
      wheel = cancel-IsSound c 512 s.timing_wheel v.wheel key;
      expiries = λ k. ground (
        arith,
        expiry-cancel c 512 s.timing_wheel v.wheel key k,
        lookup-erase key k s.expires_at,
        v.expiries k,
      );
      owned = λ k gone. ground (arith, lookup-erase key k s.expires_at, absent k gone, v.owned k);
      distinct = u;
    }

    -- the last lines of `expire`
    schedule-IsSynced :
        (x : Time) (value : Text)
        → lookup key s.items ≡ some value
        → IsSynced c (record s {
          expires_at = insert key x s.expires_at;
          timing_wheel = Wheel.schedule c s.timing_wheel key x;
        })
    schedule-IsSynced x value there = record {
      wheel = schedule-IsSound c 512 s.timing_wheel v.wheel regular key x;
      expiries = λ k. ground (
        arith,
        expiry-schedule c 512 s.timing_wheel v.wheel regular key k x,
        lookup-insert key k x s.expires_at,
        v.expiries k,
      );
      owned = λ k gone. ground (arith, lookup-insert key k x s.expires_at, v.owned k);
      distinct = v.distinct;
    }

  module _ (s : MemoryStore) (key : Text) (v : IsSynced c s) where
    abbrev after : MemoryStore
    after = processed c s

    synced : IsSynced c after
    synced = process_expirations-IsSynced s none v

    pub set-IsSynced : (value : Text) → IsSynced c (set c s key value)
    unfolding set
    set-IsSynced value =
        assign-IsSynced after key synced (insert key value after.items)
          (insert-IsDistinct key value after.items synced.distinct)
          (λ k gone. ground (arith, lookup-insert key k value after.items))

    -- After `set` the key has the value and no deadline, and every other key is as the
    -- processing of expirations left it.
    set-Writes : (value : Text) → Writes key (some value) none after (set c s key value)
    unfolding set clear_expiry
    set-Writes value = record {
      items = λ k. lookup-insert key k value after.items;
      deadlines = λ k. lookup-erase key k after.expires_at;
    }

    erased-IsSynced : IsSynced c (clear_expiry (record after { items = erase key after.items }) key)
    erased-IsSynced =
        assign-IsSynced after key synced (erase key after.items)
          (erase-IsDistinct key after.items synced.distinct)
          (λ k gone. ground (arith, lookup-erase key k after.items))

    pub delete-IsSynced : IsSynced c (delete c s key).0
    unfolding delete
    delete-IsSynced = ground (arith, erased-IsSynced, synced)

    -- In a synced store on a regular clock: after `delete` the key has neither value nor
    -- deadline, whether it was there or not, and every other key is as the processing of
    -- expirations left it.
    delete-Writes : Writes key none none after (delete c s key).0
    unfolding delete clear_expiry
    delete-Writes = record {
      items = λ k. ground (arith, lookup-erase key k after.items);
      deadlines = λ k. ground (arith, lookup-erase key k after.expires_at, synced.owned k);
    }

  module _ (s : MemoryStore) (key : Text) (seconds : ℤ) where
    -- the store after the second reading of the time source
    abbrev second : MemoryStore
    second = (time_source c (processed c s)).0

    abbrev deadline : Time
    deadline = c.after (c.reading (processed c s).reads) (pos_part seconds)

    abbrev scheduled : MemoryStore
    scheduled = record second {
      expires_at = insert key deadline second.expires_at;
      timing_wheel = Wheel.schedule c second.timing_wheel key deadline;
    }

    pub expire_absent :
        lookup key (processed c s).items ≡ none → expire c s key seconds ≡ (processed c s, false)
    unfolding expire
    expire_absent absent = ground arith

    module _ (value : Text) (there : lookup key (processed c s).items ≡ some value) where
      pub expire_over :
          seconds ≤ℤ pos 0 → expire c s key seconds ≡ ((delete c (processed c s) key).0, true)
      unfolding expire
      expire_over before = ground arith

      pub expire_ahead : pos 0 <ℤ seconds → expire c s key seconds ≡ (scheduled, true)
      unfolding expire
      expire_ahead after = ground arith

  module _ (s : MemoryStore) (key : Text) (v : IsSynced c s) where
    abbrev now_synced : IsSynced c (processed c s)
    now_synced = process_expirations-IsSynced s none v

    pub expire-IsSynced : (seconds : ℤ) → IsSynced c (expire c s key seconds).0
    expire-IsSynced seconds =
        let p = processed c s in
        elim (Option-cases (lookup key p.items)) [
          | inl absent ↦ rw (expire_absent s key seconds absent) now_synced
          | inr (value, there) ↦ elim (Bool-cases (leb_ℤ seconds (pos 0))) [
            | inl over ↦
                rw (expire_over s key seconds value there (ground arith))
                  (delete-IsSynced p key now_synced)
            | inr ahead ↦ rw (expire_ahead s key seconds value there (ground arith)) (
                schedule-IsSynced (second s key seconds) key (read-IsSynced p now_synced)
                  (deadline s key seconds) value there)
          ]
        ]

    pub ttl-IsSynced : IsSynced c (ttl c s key).0
    unfolding ttl
    ttl-IsSynced =
        let p = processed c s in
        let read = (time_source c p).0 in
        let read_synced = read-IsSynced p now_synced in
        ground (arith, now_synced, read_synced, delete-IsSynced read key read_synced)

    pub flush-IsSynced : IsSynced c (flush c s).0
    unfolding flush
    flush-IsSynced = empty-IsSynced (processed c s).reads

  module _ (s : MemoryStore) (key : Text) (v : IsSynced c s) (value : Text)
      (there : lookup key (processed c s).items ≡ some value) (seconds : ℤ) where
    -- In a synced store on a regular clock: a positive EXPIRE of a key that has a value, once
    -- expirations are processed, returns true, gives the key the deadline that many seconds
    -- after the second reading of the time source, keeps its value, and changes no other key.
    pub expire-Writes :
        pos 0 <ℤ seconds
        → Writes key
            (some value)
            (some (deadline s key seconds))
            (processed c s)
            (expire c s key seconds).0
          × ((expire c s key seconds).1 ≡ true)
    expire-Writes ahead = rw (expire_ahead s key seconds value there ahead) (
      record {
        items = λ k. ground arith;
        deadlines = λ k. lookup-insert key k (deadline s key seconds) (processed c s).expires_at;
      },
      refl,
    )

    -- In a synced store on a regular clock: an EXPIRE that is not positive, of a key that has a
    -- value once expirations are processed, returns true, deletes the key with its deadline,
    -- and changes no other key beside the expirations.
    pub expire_over-Writes :
        seconds ≤ℤ pos 0
        → Writes key none none (processed c (processed c s)) (expire c s key seconds).0
          × ((expire c s key seconds).1 ≡ true)
    expire_over-Writes before =
        rw (expire_over s key seconds value there before)
          (delete-Writes (processed c s) key (process_expirations-IsSynced s none v), refl)
