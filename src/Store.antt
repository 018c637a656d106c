-- ===== src/Store.antt =====
-- The in-memory store of src/store.py. A method returns the store after it and its result; `reads`
-- counts the readings of the time source, so each call of `self._time_source()` is a step of its
-- own.
pub mod Shed
pub mod Synced
pub mod Reads
pub mod Holding
pub mod Methods
pub mod Recovery
pub mod Reachable
use lite_store.Base.{
  ◌&&◌, ltb, ℕ, suc, ◌+◌, Bool, true, false, Option, none, some, List, [], ◌∷◌, map, foldl, ltb,
  if◌then◌else◌, length, ℤ, pos, negsuc, ltb_ℤ, leb_ℤ, pos_part,
}
use lite_store.Base.Text.{Text, text_key}
use lite_store.Base.Dict.{Dict, lookup, insert, erase}
use lite_store.Clock.{Time, Clock}
use lite_store.Builtins.{Builtins}
use lite_store.Types.{CommandName, CommandRequest}
use lite_store.Wheel
use lite_store.Wheel.{TimingWheel, TimerEntry}

pub record MemoryStore : Type 0 where
  pub reads : ℕ
  pub items : Dict Text Text
  pub expires_at : Dict Text Time
  pub timing_wheel : TimingWheel

-- key in self._data
abbrev pub contains : MemoryStore → Text → Bool
contains s key = elim (lookup key s.items) [ none ↦ false | some _ ↦ true ]

-- _clear_expiry
unfoldable pub clear_expiry : MemoryStore → Text → MemoryStore
clear_expiry s key = record s {
  expires_at = erase key s.expires_at;
  timing_wheel = Wheel.cancel s.timing_wheel key;
}

-- The body of the loop of `process_expirations`, over the store and `expired_count`.
unfoldable pub expire_entry : Time → MemoryStore × ℕ → TimerEntry → MemoryStore × ℕ
expire_entry now (s, count) entry = elim (lookup entry.key s.expires_at) [
  | none ↦ (s, count)
  | some x ↦ if ltb now x then (s, count) else (
    record s { items = erase entry.key s.items; expires_at = erase entry.key s.expires_at },
    if contains s entry.key then count + 1 else count,
  )
]

unfoldable pub expire_entries : Time → MemoryStore × ℕ → List TimerEntry → MemoryStore × ℕ
unfolding expire_entry
expire_entries now p [] = p
expire_entries now p (entry ∷ due) = expire_entries now (expire_entry now p entry) due

module _ (c : Clock) where
  -- TimingWheel(), whose defaults pass the tests of the constructor
  abbrev pub default_wheel : TimingWheel
  default_wheel = Wheel.new c.default_tick_seconds 512

  -- MemoryStore()
  abbrev pub init : MemoryStore
  init = record { reads = 0; items = []; expires_at = []; timing_wheel = default_wheel }

  -- self._time_source()
  abbrev pub time_source : MemoryStore → MemoryStore × Time
  time_source s = (record s { reads = s.reads + 1 }, c.reading s.reads)

  -- process_expirations(now), for a time that was given
  unfoldable pub expire_until : MemoryStore → Time → MemoryStore × ℕ
  unfolding expire_entries
  expire_until s now =
      let (wheel, due) = Wheel.pop_due c s.timing_wheel now in
      expire_entries now (record s { timing_wheel = wheel }, 0) due

  unfoldable pub process_expirations : MemoryStore → Option Time → MemoryStore × ℕ
  unfolding expire_until
  process_expirations s none = let (s', now) = time_source s in expire_until s' now
  process_expirations s (some now) = expire_until s now

  -- the store after `self.process_expirations()`, which begins every method
  abbrev pub processed : MemoryStore → MemoryStore
  processed s = (process_expirations s none).0

  unfoldable pub set : MemoryStore → Text → Text → MemoryStore
  unfolding clear_expiry
  set s key value =
      let s' = processed s in clear_expiry (record s' { items = insert key value s'.items }) key

  unfoldable pub get : MemoryStore → Text → MemoryStore × Option Text
  get s key = let s' = processed s in (s', lookup key s'.items)

  unfoldable pub delete : MemoryStore → Text → MemoryStore × Bool
  unfolding clear_expiry
  delete s key =
      let s' = processed s in
      if contains s' key
      then (clear_expiry (record s' { items = erase key s'.items }) key, true)
      else (s', false)

  -- for seconds and a tick that do not overflow; `expire_raised` is the other case
  unfoldable pub expire : MemoryStore → Text → ℤ → MemoryStore × Bool
  expire s key ttl_seconds =
      let s' = processed s in
      if contains s' key
      then (if leb_ℤ ttl_seconds (pos 0)
          then ((delete s' key).0, true)
          else (let (s'', now) = time_source s' in
              let x = c.after now (pos_part ttl_seconds) in
              (
                record s'' {
                  expires_at = insert key x s''.expires_at;
                  timing_wheel = Wheel.schedule c s''.timing_wheel key x;
                },
                true,
              )))
      else (s', false)

  -- the test of the tick of `schedule` on a time, for a wheel that has this origin
  abbrev tick_overflows : Time → Option Time → Time → Bool
  tick_overflows tick_seconds none x = false
  tick_overflows tick_seconds (some origin) x = c.tick_overflows tick_seconds origin x

  -- what `expire` leaves of the store when it raises an OverflowError, for its sum or for the tick of
  -- `schedule`: then the deadline is already in `_expires_at`; `none` when it raises none
  unfoldable pub expire_raised : MemoryStore → Text → ℤ → Option MemoryStore
  expire_raised s key ttl_seconds =
      let s' = processed s in
      let n = pos_part ttl_seconds in
      if contains s' key && ltb 0 n
      then (let (s'', now) = time_source s' in
          let x = c.after now n in
          if c.sum_overflows now n
          then some s''
          else (if tick_overflows s''.timing_wheel.tick_seconds s''.timing_wheel.origin_timestamp x
              then some (record s'' { expires_at = insert key x s''.expires_at })
              else none))
      else none

  unfoldable pub ttl : MemoryStore → Text → MemoryStore × ℤ
  ttl s key =
      let s' = processed s in
      if contains s' key
      then elim (lookup key s'.expires_at) [
        | none ↦ (s', negsuc 0)
        | some x ↦
            let (s'', now) = time_source s' in
            let remaining = c.whole_seconds x now in
            if ltb_ℤ remaining (pos 0) then ((delete s'' key).0, negsuc 1) else (s'', remaining)
      ]
      else (s', negsuc 1)

  unfoldable pub snapshot : MemoryStore → MemoryStore × Dict Text Text
  snapshot s = let s' = processed s in (s', s'.items)

  unfoldable pub flush : MemoryStore → MemoryStore × ℕ
  flush s =
      let s' = processed s in
      (record s' { items = []; expires_at = []; timing_wheel = default_wheel }, length s'.items)

  module _ (b : Builtins) where
    -- [k for k in self._data if fnmatch.fnmatch(k, pattern)]
    unfoldable pub matching : Text → Dict Text Text → List Text
    matching pattern [] = []
    matching pattern ((k, _) ∷ d) =
        let rest = matching pattern d in if b.fnmatch k pattern then k ∷ rest else rest

    unfoldable pub keys : MemoryStore → Text → MemoryStore × List Text
    unfolding matching
    keys s pattern = let s' = processed s in (s', matching pattern s'.items)

    -- the EXPIRE of `apply_replay_request`, once `int(seconds_raw)` has returned or raised
    unfoldable pub replay_expire : MemoryStore → Text → Option ℤ → MemoryStore
    replay_expire s key none = s
    replay_expire s key (some seconds) = (expire s key seconds).0

    -- the part of `apply_replay_request` after its `process_expirations`
    unfoldable pub replay_request : MemoryStore → CommandName → List Text → MemoryStore
    unfolding replay_expire
    replay_request s CommandName.set (key ∷ value ∷ []) = set s key value
    replay_request s CommandName.del (key ∷ []) = (delete s key).0
    replay_request s CommandName.expire (key ∷ seconds_raw ∷ []) =
        replay_expire s key (b.int_of seconds_raw)
    replay_request s CommandName.flushall [] = (flush s).0
    replay_request s _ _ = s

    unfoldable pub apply_replay_request : MemoryStore → CommandRequest → MemoryStore
    unfolding replay_request
    apply_replay_request s request = replay_request (processed s) request.command request.args
