-- ===== src/Wheel/Lifetime.antt =====
-- The invariant of the timing wheel through its life: construction, `schedule`, `cancel`, `pop_due`.
use lite_store.Base.{
  ℕ, ◌≡◌, ◌∙◌, sym, ◌<◌, refl, ap, none, some, [], arith, ite, length-replicate, get_or-replicate,
}
use lite_store.Base.Text.{Text, text_key}
use lite_store.Base.Dict.{lookup, has, has-nil, lookup-nil}
use lite_store.Clock.{Time, Clock, IsRegular}
use lite_store.Wheel.{TimingWheel, new, schedule, cancel, pop_due, tick_for_timestamp}
use lite_store.Wheel.Filed.{IsFiled, filed, cancel-IsFiled, lookup-cancel}
use lite_store.Wheel.PopDue.{pop_due-Pops}
use lite_store.Wheel.Timed.{expiry, IsTimed, cancel-IsTimed}
use lite_store.Wheel.Schedule.{schedule-Schedules}

-- `n` buckets hold exactly the scheduled keys, and each entry has the tick of its time.
pub record IsSound (c : Clock) (n : ℕ) (w : TimingWheel) : Type 0 where
  pub filed : IsFiled n w
  pub timed : IsTimed c w

pub new-IsSound : (c : Clock) (s : Time) (n : ℕ) → 0 < n → IsSound c n (new s n)
new-IsSound c s n some_bucket = record {
  filed = record {
    sizes = record { count = refl; positive = some_bucket; sized = length-replicate n [] };
    exact = λ k i.
        ap (has k) (get_or-replicate n i [])
        ∙ has-nil k
        ∙ ap (λ o. filed n o i) (sym (lookup-nil k));
    distinct = tt;
    named = λ k. unfold lookup in tt;
  };
  timed = record { last = omega arith; timed = λ k. unfold lookup in tt };
}

module _ (c : Clock) (n : ℕ) (w : TimingWheel) (v : IsSound c n w) where
  pub cancel-IsSound : (key : Text) → IsSound c n (cancel w key)
  cancel-IsSound key = record {
    filed = cancel-IsFiled v.filed key;
    timed = cancel-IsTimed c n w key v.filed v.timed;
  }

  -- Cancelling forgets the time of its key and no other.
  pub expiry-cancel :
      (key k : Text)
      → expiry (lookup k (cancel w key).entries_by_key)
        ≡ ite (text_key.decide key k) none (expiry (lookup k w.entries_by_key))
  expiry-cancel key k = ground (arith, lookup-cancel v.filed key k)

  pub pop_due-IsSound : (now : Time) → IsSound c n (pop_due c w now).0
  unfolding tick_for_timestamp
  pop_due-IsSound now =
      let p = pop_due-Pops c w now v.filed in
      record {
        filed = p.filed;
        timed = record {
          last = ground (arith, p.last, v.timed.last);
          timed = λ k. ground (arith, p.kept k, p.tick_seconds, p.origin, v.timed.timed k);
        };
      }

  module _ (regular : IsRegular c) where
    pub schedule-IsSound : (key : Text) (x : Time) → IsSound c n (schedule c w key x)
    schedule-IsSound key x =
        let s = schedule-Schedules c regular w x v.filed v.timed key in
        record { filed = s.filed; timed = s.timed }

    pub expiry-schedule :
        (key k : Text) (x : Time)
        → expiry (lookup k (schedule c w key x).entries_by_key)
          ≡ ite (text_key.decide key k) (some x) (expiry (lookup k w.entries_by_key))
    expiry-schedule key k x = (schedule-Schedules c regular w x v.filed v.timed key).expiries k
