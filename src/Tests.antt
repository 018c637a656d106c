-- ===== src/Tests.antt =====
-- Concrete parameters, in milliseconds, for the tests and the examples of the theorems.
mod Wheels
mod Stores
mod Servers
mod HotKeys
mod Network
mod Pools
mod Pooled
mod Interleaved
mod Programs
mod Restarts
use native.Mathlib.Nat.{div-zero, zero-div, div-mul-le_self, le-div_iff_mul-le}
use lite_store.Base.{
  ap, ◌&&◌, ℕ, ◌+◌, ◌-◌, ◌*◌, ◌/◌, ◌≡◌, ◌≤◌, ◌<◌, refl, arith, Bool, true, false, List, [], ◌∷◌,
  leb, ltb, if◌then◌else◌, Option, none, some, ℤ, pos, negsuc, sub_ℕ, ◌≤ℤ◌, zero, suc,
}
use lite_store.Clock.{Time, Clock, IsRegular}
use lite_store.Builtins.{Builtins, upper_ascii}

-- floor(d / s) for an integer d
abbrev pub floor_div : ℤ → ℕ → ℤ
floor_div (pos n) s = pos (n / s)
floor_div (negsuc n) s = negsuc (n / s)

abbrev pub clock : (ℕ → Time) → Clock
clock reading = record {
  reading = reading;
  default_tick_seconds = 100;
  tick = λ tick_seconds origin timestamp. floor_div (sub_ℕ timestamp origin) tick_seconds;
  tick_start = λ tick_seconds origin n. origin + n * tick_seconds;
  after = λ t n. t + 1000 * n;
  sum_overflows = λ t n. ltb 1000000 n;
  tick_overflows = λ tick_seconds origin timestamp. ltb 1000000000 timestamp;
  overdue = λ now last. ltb 100 (now - last);
  whole_seconds = λ deadline t.
      if leb t deadline
      then pos ((deadline - t) / 1000)
      else (elim ((t - deadline) / 1000) [ zero ↦ pos 0 | suc n ↦ negsuc n ]);
}

-- The SET of a key, an EXPIRE, a pass within the tick of the deadline, and then one per tick.
abbrev pub readings : ℕ → Time
readings zero = 0
readings (suc zero) = 10
readings (suc (suc zero)) = 20
readings (suc (suc (suc zero))) = 1010
readings (suc (suc (suc (suc n)))) = 1100 + 100 * n

-- Readings that are far apart.
abbrev pub late : ℕ → Time
late n = 100000 * n

abbrev pub tick_times : ℕ → Time
tick_times n = 500 * n

div_mono : (s a b : ℕ) → a ≤ b → a / s ≤ b / s
div_mono zero a b le = rw (div-zero a) (omega arith)
div_mono (suc s) a b le =
    let below = div-mul-le_self a (suc s) in
    (le-div_iff_mul-le {x = a / suc s} {y = b} (omega arith)).1 (omega (arith, below))

floor_div_mono : (s : ℕ) (a b : ℤ) → a ≤ℤ b → floor_div a s ≤ℤ floor_div b s
floor_div_mono s (pos a) (pos b) le = omega (arith, div_mono s a b (omega arith))
floor_div_mono s (pos a) (negsuc b) le = absurd (omega arith)
floor_div_mono s (negsuc a) (pos b) le = omega arith
floor_div_mono s (negsuc a) (negsuc b) le = omega (arith, div_mono s b a (omega arith))

none_between : (o : ℕ) → sub_ℕ o o ≡ pos 0
none_between o = ground arith

pub clock-IsRegular : (reading : ℕ → Time) → IsRegular (clock reading)
clock-IsRegular reading = record {
  default_tick_seconds_pos = omega arith;
  tick_mono = λ s o a b le. floor_div_mono s (sub_ℕ a o) (sub_ℕ b o) (ground arith);
  tick_origin = λ s o. same s o;
  tick_start_mono = λ s o n. omega arith;
  after_mono = λ t n. omega arith;
}
  where
    same : (s o : ℕ) → floor_div (sub_ℕ o o) s ≡ pos 0
    same s o = rw (none_between o) (ap pos (zero-div s))

-- Functions in place of Python's, for the texts of the tests.
abbrev pub builtins : Builtins
builtins = record {
  upper = λ c. upper_ascii c ∷ [];
  int_of = digit;
  fnmatch = λ name pattern. true;
  str_of_dict = λ d. [];
}
  where
    digit : List ℕ → Option ℤ
    digit (d ∷ []) = if leb 48 d && leb d 57 then some (pos (d - 48)) else none
    digit _ = none
