-- ===== src/Store/Holding.antt =====
-- What the store has for a key without a deadline stays until the key is written.
use lite_store.Base.{
  ◌≡◌, ◌≢◌, refl, arith, Bool, if-elim, Option, none, some, if◌then◌else◌, ℤ, pos, negsuc, ap,
  leb_ℤ, ltb_ℤ, ite, sym, subst,
}
use mathlib.Core.Logic.{if_pos, if_neg}
use lite_store.Base.Text.{Text, text_key}
use lite_store.Base.Dict.{Dict, lookup, insert, lookup-erase, lookup-insert}
use lite_store.Clock.{Time, Clock}
use lite_store.Store.{
  MemoryStore, process_expirations, processed, expire_until, clear_expiry, time_source, set, delete,
  expire, ttl, contains,
}
use lite_store.Store.Shed.{expire_until-Sheds}

-- The key has this value, or none, and no deadline.
abbrev pub Holds : Text → Option Text → MemoryStore → Type 0
Holds k o s = (lookup k s.items ≡ o) × (lookup k s.expires_at ≡ none)

-- What SET writes, whatever was there before.
pub set_self-Holds : (c : Clock) (k v : Text) (s : MemoryStore) → Holds k (some v) (set c s k v)
unfolding set clear_expiry
set_self-Holds c k v s = (
  ground (arith, lookup-insert k k v (processed c s).items),
  ground (arith, lookup-erase k k (processed c s).expires_at),
)

module _ (c : Clock) (k : Text) (o : Option Text) where
  expire_until-Holds :
      (s : MemoryStore) (now : Time) → Holds k o s → Holds k o (expire_until c s now).0
  expire_until-Holds s now h =
      let shed = expire_until-Sheds c s now in
      (ground (arith, shed.items k, h.0, h.1), ground (arith, shed.deadlines k, h.1))

  pub processed-Holds : (s : MemoryStore) → Holds k o s → Holds k o (processed c s)
  unfolding process_expirations
  processed-Holds s h = expire_until-Holds (time_source c s).0 (c.reading s.reads) h

  pub set-Holds :
      (s : MemoryStore) (j w : Text)
      → Holds k o s
      → Holds k (ite (text_key.decide j k) (some w) o) (set c s j w)
  unfolding set clear_expiry
  set-Holds s j w h =
      let p = processed-Holds s h in
      (
        ground (arith, lookup-insert j k w (processed c s).items, p.0),
        ground (arith, lookup-erase j k (processed c s).expires_at, p.1),
      )

  pub delete-Holds : (s : MemoryStore) (j : Text) → j ≢ k → Holds k o s → Holds k o (delete c s j).0
  unfolding delete clear_expiry
  delete-Holds s j other h =
      let p = processed-Holds s h in
      let items = lookup-erase j k (processed c s).items in
      let deadlines = lookup-erase j k (processed c s).expires_at in
      (ground (arith, items, p.0), ground (arith, deadlines, p.1))

  -- The deletion of the key itself, whether it is there or not.
  pub delete_self-Holds : (s : MemoryStore) → Holds k o s → Holds k none (delete c s k).0
  unfolding delete clear_expiry
  delete_self-Holds s h =
      let p = processed-Holds s h in
      let items = lookup-erase k k (processed c s).items in
      let deadlines = lookup-erase k k (processed c s).expires_at in
      (ground (arith, items, p.0), ground (arith, deadlines, p.1))

  pub deleted-Holds :
      (s : MemoryStore) (j : Text)
      → Holds k o s
      → Holds k (ite (text_key.decide j k) none o) (delete c s j).0
  deleted-Holds s j h = elim (text_key.decide j k) [
    | yes e ↦
        rw (if_pos (text_key.decide j k) e)
          (subst (λ i. Holds k none (delete c s i).0) (sym e) (delete_self-Holds s h))
    | no e ↦ rw (if_neg (text_key.decide j k) e) (delete-Holds s j e h)
  ]

  pub expire-Holds :
      (s : MemoryStore) (j : Text) (n : ℤ) → j ≢ k → Holds k o s → Holds k o (expire c s j n).0
  unfolding expire
  expire-Holds s j n other h =
      let p = processed-Holds s h in
      let s' = processed c s in
      if-elim (λ (r : MemoryStore × Bool). Holds k o r.0) (contains s' j)
        (if-elim (λ (r : MemoryStore × Bool). Holds k o r.0) (leb_ℤ n (pos 0))
          (delete-Holds s' j other p) (p.0, later s'.expires_at _ p.1))
        p
    where
      later : (d : Dict Text Time) (x : Time) → lookup k d ≡ none → lookup k (insert j x d) ≡ none
      later d x absent = ground (arith, lookup-insert j k x d)

  pub ttl-Holds : (s : MemoryStore) (j : Text) → Holds k o s → Holds k o (ttl c s j).0
  unfolding ttl
  ttl-Holds s j h =
      let p = processed-Holds s h in
      if-elim (λ (r : MemoryStore × ℤ). Holds k o r.0) (contains (processed c s) j)
        (found (lookup j (processed c s).expires_at) refl) p
    where
      -- by what the deadline is
      answered : Option Time → MemoryStore × ℤ
      answered none = (processed c s, negsuc 0)
      answered (some x) =
          let (s', now) = time_source c (processed c s) in
          let remaining = c.whole_seconds x now in
          if ltb_ℤ remaining (pos 0) then ((delete c s' j).0, negsuc 1) else (s', remaining)

      found : (d : Option Time) → lookup j (processed c s).expires_at ≡ d → Holds k o (answered d).0
      found none e = processed-Holds s h
      found (some x) e =
          let (s', now) = time_source c (processed c s) in
          let p = processed-Holds s h in
          if-elim (λ (r : MemoryStore × ℤ). Holds k o r.0) (ltb_ℤ (c.whole_seconds x now) (pos 0))
            (delete-Holds s' j
              (λ same. cc (e, p.1, ap (λ i. lookup i (processed c s).expires_at) same)) p)
            p
