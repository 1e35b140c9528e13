-- ===== src/HashMap/Entry.antt =====
-- A write of a bucket and its byte: the entry of one key changes and the invariant is kept.
use corecommon.Common.{
  ℕ, ◌+◌, ◌-◌, ◌/◌, ◌%◌, ◌^◌, ◌<◌, ◌≤◌, ◌≡◌, ◌≢◌, refl, sym, ap, ◌∙◌, none, some, length, set,
  arith, inl, inr, ◌⊎◌, get_or-set_self, get_or-set_ne, length-set,
}
use corecommon.HashMap.Table.{Key, Value, HashMap, Probe, sentinel, byte, set_byte, do_hash}
use corecommon.HashMap.Probing.{slot_index, bucket}
use corecommon.HashMap.Methods.{assign}
use corecommon.HashMap.Groups.{byte-set_byte_self, byte-set_byte_ne, length-set_byte}
use corecommon.HashMap.Matching.{walk, key_at}
use corecommon.HashMap.Locate.{FoundAt, AbsentFrom}
use corecommon.HashMap.Change.{Changes, Changes-IsValid, full_kept}
use corecommon.HashMap.Effect.{cleared, stored, Writes, Changes-Writes}
use corecommon.HashMap.Valid.{
  IsLive, IsPlaced, IsValid, FoundAt-IsLive, AbsentFrom-lacks, do_hash-tag, on_walk-lt,
}

module _ {ℓ} {K V : Type ℓ} ⦃key : Key K⦄ ⦃value : Value V⦄ where
  pub bucket_ne :
      (m : HashMap K V) (i c i' c' : ℕ) (e : K × V)
      → length m.control_bytes ≤ 2 ^ 28
      → i < length m.control_bytes
      → i' < length m.control_bytes
      → c < 16
      → c' < 16
      → (i ≢ i') ⊎ (c ≢ c')
      → bucket (assign m (slot_index i c) e) (slot_index i' c') ≡ bucket m (slot_index i' c')
  unfolding slot_index
  bucket_ne m i c i' c' e bound hi hi' hc hc' other =
      get_or-set_ne m.buckets (slot_index i c) (slot_index i' c') e
        (key.default_key, value.default_value) (ground arith)

  pub bucket_self :
      (m : HashMap K V) (i c : ℕ) (e : K × V)
      → IsValid m
      → i < length m.control_bytes
      → c < 16
      → bucket (assign m (slot_index i c) e) (slot_index i c) ≡ e
  unfolding slot_index
  bucket_self m i c e v hi hc =
      get_or-set_self m.buckets (slot_index i c) e (key.default_key, value.default_value)
        (omega (arith, v.slots, v.bound))

  -- The table after a byte and its bucket are written.
  abbrev pub stored_at : HashMap K V → ℕ → ℕ → ℕ → ℕ → K × V → HashMap K V
  stored_at m n i c b e = record {
    count = n;
    control_bytes = set_byte m.control_bytes i c b;
    buckets = set m.buckets (slot_index i c) e;
  }

  pub stored_at-Changes :
      (m : HashMap K V) (n i c b : ℕ) (e : K × V)
      → IsValid m
      → i < length m.control_bytes
      → c < 16
      → b ≢ 0
      → Changes m (stored_at m n i c b e) i c
  stored_at-Changes m n i c b e v hi hc hb = record {
    groups = length-set m.control_bytes i _;
    buckets = length-set m.buckets _ e;
    widths = λ g. length-set_byte m.control_bytes i c b g;
    bytes = λ i' c' other. byte-set_byte_ne m.control_bytes i c b i' c' other;
    entries = λ i' c' hi' hc' other. bucket_ne m i c i' c' e v.bound hi hi' hc hc' other;
    used = λ z. hb (sym (byte-set_byte_self m.control_bytes i c b hi (rw (v.widths i hi) hc)) ∙ z);
  }

  -- A new entry at a free slot of the group where the walk of its key has ended.
  module _ (m : HashMap K V) (k : K) (v : V) (p : Probe) (n f : ℕ) (valid : IsValid m)
      (a : AbsentFrom m k (do_hash k) 0 p) (hf : f < 16)
      (free : (byte m.control_bytes p.i f ≡ 0) ⊎ (byte m.control_bytes p.i f ≡ sentinel)) where
    abbrev pub grown : HashMap K V
    grown = stored_at m n p.i f p.target (k, v)

    in_range : p.i < length m.control_bytes
    in_range = rw a.on (on_walk-lt m (do_hash k) a.last valid.groups)

    target-ne-zero : p.target ≢ 0
    target-ne-zero z = (do_hash-tag k).0 (sym a.aims ∙ z)

    grown-Changes : Changes m grown p.i f
    grown-Changes = stored_at-Changes m n p.i f p.target (k, v) valid in_range hf target-ne-zero

    not-IsLive : ¬ (IsLive m p.i f)
    not-IsLive l = refuse free
      where
        refuse : (byte m.control_bytes p.i f ≡ 0) ⊎ (byte m.control_bytes p.i f ≡ sentinel) → ⊥
        refuse (inl z) = l.used z
        refuse (inr z) = l.kept z

    new_entry : bucket grown (slot_index p.i f) ≡ (k, v)
    new_entry = bucket_self m p.i f (k, v) valid in_range hf

    new_tag : byte grown.control_bytes p.i f ≡ do_hash k % 2 ^ 8
    new_tag =
        byte-set_byte_self m.control_bytes p.i f p.target in_range
          (rw (valid.widths p.i in_range) hf)
        ∙ a.aims

    new-IsLive : IsLive grown p.i f
    new-IsLive = record {
      group = rw (grown-Changes.groups) in_range;
      slot = hf;
      used = λ z. (do_hash-tag k).0 (sym new_tag ∙ z);
      kept = λ z. (do_hash-tag k).1 (sym new_tag ∙ z);
    }

    new-IsPlaced : IsPlaced grown p.i f
    new-IsPlaced =
        let same : key_at grown p.i f ≡ k = ap (λ e. e.0) new_entry in
        record {
          tag = rw same new_tag;
          step = a.last;
          on =
              rw same
                (ap (λ n. walk n (do_hash k / 2 ^ 8 % n) a.last) grown-Changes.groups ∙ sym a.on);
          full = rw same (
              full_kept m grown p.i f grown-Changes (do_hash k) a.last
                (λ s hs. a.full s (omega arith) hs));
        }

    pub grown-IsValid : IsValid grown
    grown-IsValid =
        Changes-IsValid m grown p.i f grown-Changes valid (λ _. new-IsPlaced)
          (λ _ i c _ l e. AbsentFrom-lacks m k p valid a i c l (e ∙ ap (λ e. e.0) new_entry))

    pub grown-Writes : Writes m grown k (some v)
    grown-Writes =
        Changes-Writes m grown p.i f k grown-Changes (some v)
          (λ i c _ l. AbsentFrom-lacks m k p valid a i c l) (λ l. absurd (not-IsLive l))
          (stored v new-IsLive (ap (λ e. e.0) new_entry) (ap (λ e. e.1) new_entry))

  -- A new value in the bucket that the walk of its key has found.
  module _ (m : HashMap K V) (k : K) (v : V) (p : Probe) (at : ℕ) (valid : IsValid m)
      (f : FoundAt m k (do_hash k) at p) where
    abbrev pub replaced : HashMap K V
    replaced = assign m (slot_index p.i p.c) (key_at m p.i p.c, v)

    found-IsLive : IsLive m p.i p.c
    found-IsLive = FoundAt-IsLive m k at p valid f

    replaced-Changes : Changes m replaced p.i p.c
    replaced-Changes = record {
      groups = refl;
      buckets = length-set m.buckets _ _;
      widths = λ g. refl;
      bytes = λ i c other. refl;
      entries = λ i c hi hc other.
          bucket_ne m p.i p.c i c (key_at m p.i p.c, v) valid.bound found-IsLive.group hi f.slot hc
            other;
      used = found-IsLive.used;
    }

    new_value : bucket replaced (slot_index p.i p.c) ≡ (key_at m p.i p.c, v)
    new_value = bucket_self m p.i p.c _ valid found-IsLive.group f.slot

    -- No other slot has the key.
    alone : (i c : ℕ) → (p.i ≢ i) ⊎ (p.c ≢ c) → IsLive m i c → key_at m i c ≢ k
    alone i c other l e = refuse other
      where
        same : (p.i ≡ i) × (p.c ≡ c)
        same = valid.unique p.i p.c i c found-IsLive l (f.holds ∙ sym e)

        refuse : (p.i ≢ i) ⊎ (p.c ≢ c) → ⊥
        refuse (inl ne) = ne same.0
        refuse (inr ne) = ne same.1

    same_key : key_at replaced p.i p.c ≡ key_at m p.i p.c
    same_key = ap (λ e. e.0) new_value

    pub replaced-IsValid : IsValid replaced
    replaced-IsValid =
        Changes-IsValid m replaced p.i p.c replaced-Changes valid
          (λ _.
            let w = valid.placed p.i p.c found-IsLive in
            record {
              tag = rw same_key w.tag;
              step = w.step;
              on = rw same_key w.on;
              full = rw same_key w.full;
            })
          (λ _ i c other l e. alone i c other l (e ∙ (same_key ∙ f.holds)))

    pub replaced-Writes : Writes m replaced k (some v)
    replaced-Writes =
        Changes-Writes m replaced p.i p.c k replaced-Changes (some v) alone (λ _. f.holds)
          (stored v
            (record {
              group = found-IsLive.group;
              slot = found-IsLive.slot;
              used = found-IsLive.used;
              kept = found-IsLive.kept;
            })
            (same_key ∙ f.holds) (ap (λ e. e.1) new_value))

    -- `Probe::remove` at that slot.
    abbrev pub removed : HashMap K V
    removed = record {
      count = (m.count + 2 ^ 64 - 1) % 2 ^ 64;
      control_bytes = set_byte m.control_bytes p.i p.c sentinel;
      buckets = m.buckets;
    }

    removed_byte : byte removed.control_bytes p.i p.c ≡ sentinel
    removed_byte =
        byte-set_byte_self m.control_bytes p.i p.c sentinel found-IsLive.group
          (rw (valid.widths p.i found-IsLive.group) f.slot)

    removed-Changes : Changes m removed p.i p.c
    removed-Changes = record {
      groups = length-set m.control_bytes p.i _;
      buckets = refl;
      widths = λ g. length-set_byte m.control_bytes p.i p.c sentinel g;
      bytes = λ i c other. byte-set_byte_ne m.control_bytes p.i p.c sentinel i c other;
      entries = λ i c hi hc other. refl;
      used = rw removed_byte (omega arith);
    }

    dead : ¬ (IsLive removed p.i p.c)
    dead l = l.kept removed_byte

    pub removed-IsValid : IsValid removed
    removed-IsValid =
        Changes-IsValid m removed p.i p.c removed-Changes valid (λ l. absurd (dead l))
          (λ l. absurd (dead l))

    pub removed-Writes : Writes m removed k none
    removed-Writes =
        Changes-Writes m removed p.i p.c k removed-Changes none alone (λ _. f.holds) (cleared dead)
