-- ===== src/HashMap/Change.antt =====
-- A write to one slot: what is left of the other slots and of the invariant.
use corecommon.Common.{
  ℕ, ◌/◌, ◌%◌, ◌^◌, ◌<◌, ◌≡◌, ◌≢◌, sym, ap, ◌∙◌, [], length, get_or, inl, inr, ◌⊎◌, ℕ_discrete,
}
use corecommon.HashMap.Table.{Key, Value, HashMap, byte, do_hash}
use corecommon.HashMap.Probing.{slot_index, bucket}
use corecommon.HashMap.Matching.{walk, key_at, IsFull}
use corecommon.HashMap.Locate.{on_walk}
use corecommon.HashMap.Valid.{IsLive, IsPlaced, IsValid}

-- Either a slot is the one that was written, or it is another.
pub slot-cases : (i c i' c' : ℕ) → ((i ≡ i') × (c ≡ c')) ⊎ ((i ≢ i') ⊎ (c ≢ c'))
slot-cases i c i' c' = elim (ℕ_discrete i i') [
  | no far ↦ inr (inl far)
  | yes e ↦ elim (ℕ_discrete c c') [ yes f ↦ inl (e, f) | no near ↦ inr (inr near) ]
]

module _ {ℓ} {K V : Type ℓ} ⦃key : Key K⦄ ⦃value : Value V⦄ where
  -- `m'` differs from `m` at most at slot `c` of group `i`, whose byte is not 0 any more.
  pub record Changes (m m' : HashMap K V) (i c : ℕ) : Type ℓ where
    pub groups : length m'.control_bytes ≡ length m.control_bytes
    pub buckets : length m'.buckets ≡ length m.buckets
    pub widths :
        (g : ℕ) → length (get_or m'.control_bytes g []) ≡ length (get_or m.control_bytes g [])
    pub bytes :
        (i' c' : ℕ) → (i ≢ i') ⊎ (c ≢ c') → byte m'.control_bytes i' c' ≡ byte m.control_bytes i' c'
    pub entries :
        (i' c' : ℕ)
        → i' < length m.control_bytes
        → c' < 16
        → (i ≢ i') ⊎ (c ≢ c')
        → bucket m' (slot_index i' c') ≡ bucket m (slot_index i' c')
    pub used : byte m'.control_bytes i c ≢ 0

  module _ (m m' : HashMap K V) (i c : ℕ) (ch : Changes m m' i c) where
    IsFull_kept : (g : ℕ) → IsFull m g → IsFull m' g
    IsFull_kept g full s hs z = elim (slot-cases i c g s) [
      | inl (e, f) ↦
          ch.used
            (ap (λ x. byte m'.control_bytes x c) e ∙ (ap (λ x. byte m'.control_bytes g x) f ∙ z))
      | inr other ↦ full s hs (sym (ch.bytes g s other) ∙ z)
    ]

    on_walk_kept : (h s : ℕ) → on_walk m' h s ≡ on_walk m h s
    on_walk_kept h s = ap (λ n. walk n (h / 2 ^ 8 % n) s) ch.groups

    pub IsLive-before : (i' c' : ℕ) → (i ≢ i') ⊎ (c ≢ c') → IsLive m' i' c' → IsLive m i' c'
    IsLive-before i' c' other l = record {
      group = rw ch.groups at (l.group);
      slot = l.slot;
      used = λ z. l.used (ch.bytes i' c' other ∙ z);
      kept = λ z. l.kept (ch.bytes i' c' other ∙ z);
    }

    pub IsLive-after : (i' c' : ℕ) → (i ≢ i') ⊎ (c ≢ c') → IsLive m i' c' → IsLive m' i' c'
    IsLive-after i' c' other l = record {
      group = rw ch.groups (l.group);
      slot = l.slot;
      used = λ z. l.used (sym (ch.bytes i' c' other) ∙ z);
      kept = λ z. l.kept (sym (ch.bytes i' c' other) ∙ z);
    }

    pub key_kept :
        (i' c' : ℕ)
        → i' < length m.control_bytes
        → c' < 16
        → (i ≢ i') ⊎ (c ≢ c')
        → key_at m' i' c' ≡ key_at m i' c'
    key_kept i' c' hi hc other = ap (λ e. e.0) (ch.entries i' c' hi hc other)

    -- A walk over full groups of `m` is one over full groups of `m'`.
    pub full_kept :
        (h step : ℕ)
        → ((s : ℕ) → s < step → IsFull m (on_walk m h s))
        → (s : ℕ) → s < step
        → IsFull m' (on_walk m' h s)
    full_kept h step full s hs = rw (on_walk_kept h s) (IsFull_kept (on_walk m h s) (full s hs))

    IsPlaced-kept :
        (i' c' : ℕ)
        → i' < length m.control_bytes
        → c' < 16
        → (i ≢ i') ⊎ (c ≢ c')
        → IsPlaced m i' c'
        → IsPlaced m' i' c'
    IsPlaced-kept i' c' hi hc other w =
        let k = key_kept i' c' hi hc other in
        record {
          tag = ch.bytes i' c' other ∙ (w.tag ∙ ap (λ x. do_hash x % 2 ^ 8) (sym k));
          step = w.step;
          on = rw k (on_walk_kept (do_hash (key_at m i' c')) w.step ∙ w.on);
          full = rw k (full_kept (do_hash (key_at m i' c')) w.step w.full);
        }

    -- The invariant is kept when the written slot, if it holds an entry, is in place and its key
    -- is nowhere else.
    pub Changes-IsValid :
        IsValid m
        → (IsLive m' i c → IsPlaced m' i c)
        → (IsLive m' i c
            → (i' c' : ℕ) → (i ≢ i') ⊎ (c ≢ c')
            → IsLive m i' c'
            → key_at m i' c' ≢ key_at m' i c)
        → IsValid m'
    Changes-IsValid v placed alone = record {
      groups = rw ch.groups (v.groups);
      bound = rw ch.groups (v.bound);
      widths = λ g hg. ch.widths g ∙ v.widths g (rw ch.groups at hg);
      slots = rw (ch.groups, ch.buckets) (v.slots);
      placed = λ i' c' l. elim (slot-cases i c i' c') [
        | inl (e, f) ↦ rw (← e, ← f) (placed (rw (← e, ← f) at l))
        | inr other ↦
            IsPlaced-kept i' c' (IsLive-before i' c' other l).group l.slot other
              (v.placed i' c' (IsLive-before i' c' other l))
      ];
      unique = λ a s a' s' l l' same. elim (slot-cases i c a s) [
        | inl (e, f) ↦ elim (slot-cases i c a' s') [
          | inl (e', f') ↦ (sym e ∙ e', sym f ∙ f')
          | inr other ↦ absurd (
              alone (rw (← e, ← f) at l) a' s' other (IsLive-before a' s' other l') (
                sym (key_kept a' s' (IsLive-before a' s' other l').group l'.slot other)
                ∙ (sym same ∙ rw (← e, ← f))))
        ]
        | inr here ↦ elim (slot-cases i c a' s') [
          | inl (e, f) ↦ absurd (
              alone (rw (← e, ← f) at l') a s here (IsLive-before a s here l) (
                sym (key_kept a s (IsLive-before a s here l).group l.slot here)
                ∙ (same ∙ rw (← e, ← f))))
          | inr other ↦
              v.unique a s a' s' (IsLive-before a s here l) (IsLive-before a' s' other l') (
                sym (key_kept a s (IsLive-before a s here l).group l.slot here)
                ∙ (same ∙ key_kept a' s' (IsLive-before a' s' other l').group l'.slot other))
        ]
      ];
    }
