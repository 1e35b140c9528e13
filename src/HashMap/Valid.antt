-- ===== src/HashMap/Valid.antt =====
-- The invariant of `Map`, and the entries that a valid map holds.
use native.Mathlib.Nat.{mod-lt}
use corecommon.Common.{
  ℕ, zero, suc, ◌*◌, ◌%◌, ◌^◌, ◌<◌, ◌≤◌, ◌≡◌, ◌≢◌, sym, ap, ◌∙◌, Option, none, some, [], length,
  get_or, arith, dec_lt,
}
use corecommon.HashMap.Table.{Key, Value, HashMap, Probe, sentinel, byte, do_hash}
use corecommon.HashMap.Probing.{next_index}
use corecommon.HashMap.Matching.{walk, key_at, value_at, IsFull}
use corecommon.HashMap.Locate.{on_walk, FoundAt, AbsentFrom}

walk-lt : (size i j : ℕ) → i < size → walk size i j < size
unfolding next_index
walk-lt size i zero h = h
walk-lt size i (suc j) h = mod-lt _ (omega arith)

-- The byte that stands for a key is neither of the two that mark a free slot.
pub do_hash-tag {ℓ} :
    {K : Type ℓ} ⦃key : Key K⦄ (k : K)
    → (do_hash k % 2 ^ 8 ≢ 0) × (do_hash k % 2 ^ 8 ≢ sentinel) × (do_hash k < 2 ^ 64)
unfolding do_hash
do_hash-tag ⦃key⦄ k = ground (arith, key.hash-lt k)

module _ {ℓ} {K V : Type ℓ} ⦃key : Key K⦄ ⦃value : Value V⦄ where
  -- A slot that holds an entry.
  pub record IsLive (m : HashMap K V) (i c : ℕ) : Type 0 where
    pub group : i < length m.control_bytes
    pub slot : c < 16
    pub used : byte m.control_bytes i c ≢ 0
    pub kept : byte m.control_bytes i c ≢ sentinel

  -- The slot is marked with its key's byte and reached by its key's walk over full groups.
  pub record IsPlaced (m : HashMap K V) (i c : ℕ) : Type 0 where
    pub tag : byte m.control_bytes i c ≡ do_hash (key_at m i c) % 2 ^ 8
    pub step : ℕ
    pub on : on_walk m (do_hash (key_at m i c)) step ≡ i
    pub full : (s : ℕ) → s < step → IsFull m (on_walk m (do_hash (key_at m i c)) s)

  pub record IsValid (m : HashMap K V) : Type ℓ where
    pub groups : 0 < length m.control_bytes
    -- More buckets would not have a 32-bit number.
    pub bound : length m.control_bytes ≤ 2 ^ 28
    pub widths : (i : ℕ) → i < length m.control_bytes → length (get_or m.control_bytes i []) ≡ 16
    pub slots : length m.buckets ≡ length m.control_bytes * 16
    pub placed : (i c : ℕ) → IsLive m i c → IsPlaced m i c
    pub unique :
        (i c i' c' : ℕ)
        → IsLive m i c
        → IsLive m i' c'
        → key_at m i c ≡ key_at m i' c'
        → (i ≡ i') × (c ≡ c')

  -- The map has the entry.
  pub record Holds (m : HashMap K V) (k : K) (v : V) : Type ℓ where
    pub i : ℕ
    pub c : ℕ
    pub live : IsLive m i c
    pub same_key : key_at m i c ≡ k
    pub same_value : value_at m i c ≡ v

  -- What a lookup of the key has to give.
  abbrev pub Reads : HashMap K V → K → Option V → Type ℓ
  Reads m k none = (v : V) → ¬ (Holds m k v)
  Reads m k (some v) = Holds m k v

  -- The walk of the key comes within `fuel` steps to a group with a byte that was never used.
  pub record HasRoom (m : HashMap K V) (k : K) (fuel : ℕ) : Type 0 where
    pub step : ℕ
    pub soon : step < fuel
    pub c : ℕ
    pub slot : c < 16
    pub empty : byte m.control_bytes (on_walk m (do_hash k) step) c ≡ 0

  pub on_walk-lt :
      (m : HashMap K V) (h j : ℕ)
      → 0 < length m.control_bytes
      → on_walk m h j < length m.control_bytes
  on_walk-lt m h j pos = walk-lt (length m.control_bytes) _ j (mod-lt _ pos)

  pub FoundAt-IsLive :
      (m : HashMap K V) (k : K) (at : ℕ) (p : Probe)
      → IsValid m
      → FoundAt m k (do_hash k) at p
      → IsLive m p.i p.c
  FoundAt-IsLive m k at p v f =
      let (not_empty, not_removed, _) = do_hash-tag k in
      record {
        group = rw f.on (on_walk-lt m (do_hash k) f.step v.groups);
        slot = f.slot;
        used = λ e. not_empty (sym f.tag ∙ e);
        kept = λ e. not_removed (sym f.tag ∙ e);
      }

  -- A walk that ended at an empty byte has passed every slot at which the key could be.
  pub AbsentFrom-lacks :
      (m : HashMap K V) (k : K) (p : Probe)
      → IsValid m
      → AbsentFrom m k (do_hash k) 0 p
      → (i c : ℕ) → IsLive m i c
      → key_at m i c ≢ k
  AbsentFrom-lacks m k p v a i c live same =
      let w = v.placed i c live in
      let on : on_walk m (do_hash k) w.step ≡ i = rw (← same) w.on in
      elim (dec_lt a.last w.step) [
        | yes beyond ↦ let (c', slot, z) = a.empty in w.full a.last beyond c' slot (rw same z)
        | no within ↦
            a.lacks w.step (omega arith) (omega arith) c live.slot
              (rw on (w.tag ∙ ap (λ x. do_hash x % 2 ^ 8) same)) (rw on same)
      ]
