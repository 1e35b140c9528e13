-- ===== src/HashMap/Fresh.antt =====
-- `Map()` is a valid empty map.
use corecommon.Common.{
  ℕ, zero, suc, ◌<◌, ◌≡◌, refl, ◌∙◌, Option, some, none, arith, length, get_or, replicate, [],
  false,
}
use corecommon.HashMap.Table.{Key, Value, HashMap, byte}
use corecommon.HashMap.Growth.{new, resize, move_groups, load_factor, to_float}
use corecommon.HashMap.Valid.{IsValid, Holds, Reads, HasRoom}
use corecommon.HashMap.Effect.{Writes}
use corecommon.HashMap.Methods.{insert}
use corecommon.HashMap.Update.{counted, insert-Updated}

get_or-zeros : (n c : ℕ) → get_or {A = ℕ} (replicate n 0) c 0 ≡ 0
get_or-zeros zero c = refl
get_or-zeros (suc n) zero = refl
get_or-zeros (suc n) (suc c) = get_or-zeros n c

zero_byte : (i c : ℕ) → byte (replicate 2 (replicate 16 0)) i c ≡ 0
zero_byte zero c = get_or-zeros 16 c
zero_byte (suc zero) c = get_or-zeros 16 c
zero_byte (suc (suc i)) c = refl

width : (i : ℕ) → i < 2 → length {A = ℕ} (get_or (replicate 2 (replicate 16 0)) i []) ≡ 16
width zero h = refl
width (suc zero) h = refl
width (suc (suc i)) h = absurd (omega arith)

module _ {ℓ} {K V : Type ℓ} ⦃key : Key K⦄ ⦃value : Value V⦄ where
  abbrev pub fresh : HashMap K V
  fresh = record {
    count = 0;
    control_bytes = replicate 2 (replicate 16 0);
    buckets = replicate 32 (key.default_key, value.default_value);
  }

  pub fresh-IsValid : IsValid fresh
  fresh-IsValid = record {
    groups = omega arith;
    bound = omega arith;
    widths = width;
    slots = refl;
    placed = λ i c l. absurd (l.used (zero_byte i c));
    unique = λ i c _ _ l _ _. absurd (l.used (zero_byte i c));
  }

  fresh-HasRoom : (k : K) → HasRoom fresh k 1
  fresh-HasRoom k = record {
    step = 0;
    soon = omega arith;
    c = 0;
    slot = omega arith;
    empty = zero_byte _ 0;
  }

  fresh_lacks : (k : K) (v : V) → ¬ (Holds fresh k v)
  fresh_lacks k v h = h.live.used (zero_byte h.i h.c)

  -- What the first insertion returns and counts.
  first_one :
      (k : K) (new : Option V) (run : Option (Option V × HashMap K V)) (old : Option V)
      (m' : HashMap K V)
      → Reads fresh k old
      → run ≡ some (old, m')
      → IsValid m'
      → Writes fresh m' k new
      → m'.count ≡ counted 0 old
      → (m' : HashMap K V) × (run ≡ some (none, m'))
        × IsValid m'
        × Writes fresh m' k new
        × (m'.count ≡ 1)
  first_one k new run (some w) m' reads ends valid writes count = absurd (fresh_lacks k w reads)
  first_one k new run none m' reads ends valid writes count =
      (m', ends, valid, writes, count ∙ refl)

  -- `Map()` gives, without a round of any loop, a valid map of two groups that holds nothing and
  -- counts 0 entries, is below the load factor, and has an empty byte at the start of every walk;
  -- so the first `insert` of any key and value ends, returns no old value, and leaves a valid map
  -- that holds this value under the key, nothing under other keys, and counts 1.
  pub new-insert :
      (fuel : ℕ) (k : K) (v : V)
      → (m : HashMap K V) × (new fuel ≡ some m)
        × IsValid m
        × ((k : K) (v : V) → ¬ (Holds m k v))
        × ((k : K) → HasRoom m k 1)
        × (load_factor m ≡ false)
        × (length m.control_bytes ≡ 2)
        × (m.count ≡ 0)
        × (m' : HashMap K V) × (insert false 1 m k v ≡ some (none, m'))
        × IsValid m'
        × Writes m m' k (some v)
        × (m'.count ≡ 1)
  unfolding new resize move_groups load_factor to_float
  new-insert fuel k v =
      let u = insert-Updated 1 fresh k v fresh-IsValid (fresh-HasRoom k) refl in
      let (m', ends, valid, writes, count) =
        first_one k (some v) _ u.old u.map' u.reads u.ends u.valid u.writes u.count in
      (
        fresh, refl, fresh-IsValid, fresh_lacks, fresh-HasRoom, refl, refl, refl, m', ends, valid,
        writes, count,
      )
