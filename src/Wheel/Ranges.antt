-- ===== src/Wheel/Ranges.antt =====
-- Sweeping a range of ticks that are not negative: which entries leave the wheel, and which stay
-- although they are due.
use native.Mathlib.Nat.{mod-lt, div-add-mod, add-mul-mod_self_left}
use lite_store.Base.{
  ℕ, zero, suc, ◌+◌, ◌-◌, ◌*◌, ◌/◌, ◌%◌, ◌≤◌, ◌<◌, ◌≡◌, ◌≢◌, ◌∙◌, refl, ap, some, none, List, [],
  ◌∷◌, arith, ℤ, pos, next,
}
use lite_store.Clock.{Time}
use lite_store.Wheel.{ScheduledEntry, ticks_from}
use lite_store.Wheel.Sweep.{takes, sweep}

next-pos : (a : ℕ) → next (pos a) ≡ pos (suc a)
next-pos a = ground arith

pub sweep-none : (n : ℕ) (now : Time) (ticks : List ℤ) → sweep n now ticks none ≡ none
unfolding sweep
sweep-none n now [] = refl
sweep-none n now (t ∷ ticks) = sweep-none n now ticks

-- The next multiple of `n` after `b` that is at least `a`.
catch_up : ℕ → ℕ → ℕ → ℕ
catch_up n b a = n - 1 - (a - b - 1) % n

catch_up-lt : (n b a : ℕ) → 0 < n → catch_up n b a < n
unfolding catch_up
catch_up-lt n b a h = omega arith

catch_up-mod : (n b a : ℕ) → 0 < n → b < a → (a + catch_up n b a) % n ≡ b % n
unfolding catch_up
catch_up-mod n b a h lt =
    let x = a - b - 1 in
    let e : a + (n - 1 - x % n) ≡ b + n * (x / n + 1) =
      omega (arith, div-add-mod x n, mod-lt x h) in
    rw e (add-mul-mod_self_left b n (x / n + 1))

-- Two numbers less than `n` apart differ modulo `n`.
mod-ne : (n b r : ℕ) → 0 < r → r < n → (b + r) % n ≢ b % n
mod-ne n b r h k e = grind (arith, div-add-mod b n, div-add-mod (b + r) n)

module _ (n : ℕ) (now : Time) (e : ScheduledEntry) where
  -- An entry that is not due stays.
  pub sweep_early : (ticks : List ℤ) → now < e.expires_at → sweep n now ticks (some e) ≡ some e
  unfolding sweep takes
  sweep_early [] h = refl
  sweep_early (t ∷ ticks) h = ground (arith, sweep_early ticks h)

  module _ (b : ℕ) (at : e.scheduled_tick ≡ pos b) where
    -- A due entry leaves with the tick `a + d` of the range, if that is in its bucket and not
    -- before its own tick.
    sweep_hit :
        (m a d : ℕ)
        → d < m
        → (a + d) % n ≡ b % n
        → b ≤ a + d
        → e.expires_at ≤ now
        → sweep n now (ticks_from (pos a) m) (some e) ≡ none
    unfolding sweep ticks_from takes
    sweep_hit zero a d lt same le due = elim lt [ ]
    sweep_hit (suc m) a zero lt same le due =
        let here : a + 0 ≡ a = omega arith in
        ground (arith, ap (λ x. x % n) here, sweep-none n now (ticks_from (next (pos a)) m))
    sweep_hit (suc m) a (suc d) lt same le due =
        let there : suc a + d ≡ a + suc d = omega arith in
        let rest =
          sweep_hit m (suc a) d (omega arith) (ap (λ x. x % n) there ∙ same) (omega arith) due in
        ground (arith, next-pos a, rest, sweep-none n now (ticks_from (pos (suc a)) m))

    -- Every due entry whose tick is in the range leaves.
    pub sweep_range :
        (m a : ℕ)
        → a ≤ b
        → b < a + m
        → e.expires_at ≤ now
        → sweep n now (ticks_from (pos a) m) (some e) ≡ none
    sweep_range m a le lt due =
        let same : a + (b - a) ≡ b = omega arith in
        sweep_hit m a (b - a) (omega arith) (ap (λ x. x % n) same) (omega arith) due

    -- A range of at least `n` ticks takes every due entry with a tick before it.
    pub sweep_full :
        (m a : ℕ)
        → 0 < n
        → n ≤ m
        → b < a
        → e.expires_at ≤ now
        → sweep n now (ticks_from (pos a) m) (some e) ≡ none
    sweep_full m a h le lt due =
        sweep_hit m a (catch_up n b a) (omega (arith, catch_up-lt n b a h))
          (catch_up-mod n b a h lt) (omega arith) due

    -- An entry whose tick is passed stays, due or not, until the range comes round to its bucket.
    pub sweep_passed :
        (m a : ℕ) → b < a → a + m ≤ b + n → sweep n now (ticks_from (pos a) m) (some e) ≡ some e
    unfolding sweep ticks_from
    sweep_passed zero a lt le = refl
    sweep_passed (suc m) a lt le =
        let there : b + (a - b) ≡ a = omega arith in
        let other = mod-ne n b (a - b) (omega arith) (omega arith) in
        let rest = sweep_passed m (suc a) (omega arith) (omega arith) in
        ground (arith, ap (λ x. x % n) there, other, next-pos a, rest)
