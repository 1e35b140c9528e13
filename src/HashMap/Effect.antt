-- ===== src/HashMap/Effect.antt =====
-- What a write to one slot does to the entries of the map.
use corecommon.Common.{
  length, ℕ, ◌<◌, ◌≡◌, ◌≢◌, ◌↔◌, sym, ap, ◌∙◌, Option, none, some, inl, inr, ◌⊎◌,
}
use corecommon.HashMap.Table.{Key, Value, HashMap}
use corecommon.HashMap.Matching.{key_at, value_at}
use corecommon.HashMap.Change.{Changes, slot-cases, IsLive-before, IsLive-after, key_kept}
use corecommon.HashMap.Valid.{IsLive, Holds}

module _ {ℓ} {K V : Type ℓ} ⦃key : Key K⦄ ⦃value : Value V⦄ where
  -- What a write has left at the slot, for the value that the key has afterwards.
  pub data Written (m' : HashMap K V) (i c : ℕ) (k : K) : Option V → Type ℓ where
    cleared : ¬ (IsLive m' i c) → Written m' i c k none
    stored :
        (v : V)
        → IsLive m' i c
        → key_at m' i c ≡ k
        → value_at m' i c ≡ v
        → Written m' i c k (some v)

  -- The map `m'` has the entries of `m` under the other keys, and under `k` the value `new`, if
  -- there is one.
  abbrev pub Writes : HashMap K V → HashMap K V → K → Option V → Type ℓ
  Writes m m' k new =
      (q : K) (w : V) → Holds m' q w ↔ ((q ≡ k) × (new ≡ some w)) ⊎ ((q ≢ k) × Holds m q w)

  module _ (m m' : HashMap K V) (i c : ℕ) (k : K) (ch : Changes m m' i c) where
    value_kept :
        (i' c' : ℕ)
        → i' < length m.control_bytes
        → c' < 16
        → (i ≢ i') ⊎ (c ≢ c')
        → value_at m' i' c' ≡ value_at m i' c'
    value_kept i' c' hi hc other = ap (λ e. e.1) (ch.entries i' c' hi hc other)

    Holds_before : (q : K) (w : V) (h : Holds m' q w) → (i ≢ h.i) ⊎ (c ≢ h.c) → Holds m q w
    Holds_before q w h other = record {
      i = h.i;
      c = h.c;
      live = IsLive-before m m' i c ch h.i h.c other h.live;
      same_key =
          sym (
            key_kept m m' i c ch h.i h.c (IsLive-before m m' i c ch h.i h.c other h.live).group
              h.live.slot other)
          ∙ h.same_key;
      same_value =
          sym (
            value_kept h.i h.c (IsLive-before m m' i c ch h.i h.c other h.live).group h.live.slot
              other)
          ∙ h.same_value;
    }

    Holds_after : (q : K) (w : V) (h : Holds m q w) → (i ≢ h.i) ⊎ (c ≢ h.c) → Holds m' q w
    Holds_after q w h other = record {
      i = h.i;
      c = h.c;
      live = IsLive-after m m' i c ch h.i h.c other h.live;
      same_key = key_kept m m' i c ch h.i h.c h.live.group h.live.slot other ∙ h.same_key;
      same_value = value_kept h.i h.c h.live.group h.live.slot other ∙ h.same_value;
    }

    Written-from :
        {new : Option V}
        → Written m' i c k new
        → (q : K) (w : V) → IsLive m' i c
        → key_at m' i c ≡ q
        → value_at m' i c ≡ w
        → (q ≡ k) × (new ≡ some w)
    Written-from (cleared dead) q w l sk sv = absurd (dead l)
    Written-from (stored v l' k' v') q w l sk sv = (sym sk ∙ k', ap some (sym v' ∙ sv))

    Written-to :
        {new : Option V}
        → Written m' i c k new
        → (q : K) (w : V) → q ≡ k
        → new ≡ some w
        → Holds m' q w
    Written-to (cleared dead) q w e n = absurd (cc)
    Written-to (stored v l sk sv) q w e n = record {
      i = i;
      c = c;
      live = l;
      same_key = sk ∙ sym e;
      same_value = sv ∙ cc;
    }

    -- A write at the slot of a key, or at a free slot for a key that is nowhere, changes the
    -- entries of that key alone.
    pub Changes-Writes :
        (new : Option V)
        → ((i' c' : ℕ) → (i ≢ i') ⊎ (c ≢ c') → IsLive m i' c' → key_at m i' c' ≢ k)
        → (IsLive m i c → key_at m i c ≡ k)
        → Written m' i c k new
        → Writes m m' k new
    unfolding Holds_before
    Changes-Writes new others here written q w = (forth, back)
      where
        forth : Holds m' q w → ((q ≡ k) × (new ≡ some w)) ⊎ ((q ≢ k) × Holds m q w)
        forth h = elim (slot-cases i c h.i h.c) [
          | inl (e, f) ↦ inl (
              Written-from written q w (rw (e, f) h.live) (rw (e, f) h.same_key)
                (rw (e, f) h.same_value))
          | inr other ↦
              let b = Holds_before q w h other in
              inr (λ e. others h.i h.c other b.live (b.same_key ∙ e), b)
        ]

        back : ((q ≡ k) × (new ≡ some w)) ⊎ ((q ≢ k) × Holds m q w) → Holds m' q w
        back (inl (e, n)) = Written-to written q w e n
        back (inr (ne, h)) = elim (slot-cases i c h.i h.c) [
          | inl (e, f) ↦ absurd (ne (sym h.same_key ∙ rw (← e, ← f) (here (rw (e, f) h.live))))
          | inr other ↦ Holds_after q w h other
        ]
