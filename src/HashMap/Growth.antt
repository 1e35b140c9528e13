-- ===== src/HashMap/Growth.antt =====
-- How `Map` of src/map.hpp takes buckets and grows. A loop over the groups has fuel; `none` means that it ran out.
use corecommon.Common.{
  ℕ, zero, suc, ◌+◌, ◌*◌, ◌/◌, ◌%◌, ◌^◌, Bool, Option, none, some, ◌>>=◌, [], length, set,
  replicate, ltb, leb, ◌==◌, ◌&&◌, ◌||◌, if◌then◌else◌,
}
use corecommon.HashMap.Table.{
  Key, Value, num_control_bytes, sentinel, default_buckets, HashMap, Probe, byte, set_byte,
  resize_list, do_hash,
}
use corecommon.HashMap.Probing.{slot_index, start, next, take_slot, bucket}

-- How often a number below 2 ^ 64 has to be halved until 24 bits are left, on 40 units of fuel.
unfoldable pub dropped_bits : ℕ → ℕ → ℕ
dropped_bits zero n = 0
dropped_bits (suc fuel) n =
    let rest = dropped_bits fuel (n / 2) in if ltb n (2 ^ 24) then 0 else suc rest

-- A `size_t` as a `float` of 24 bits: the nearest number that is one, of two the one whose last bit
-- is 0.
unfoldable pub to_float : ℕ → ℕ
to_float n =
    let unit = 2 ^ dropped_bits 40 n in
    let up = ltb unit (2 * (n % unit)) || (2 * (n % unit) == unit && n / unit % 2 == 1) in
    if ltb n (2 ^ 24) then n else (n / unit + (if up then 1 else 0)) * unit

module _ {ℓ} {K V : Type ℓ} ⦃key : Key K⦄ ⦃value : Value V⦄ where
  -- `while (!(bucket = p.insert())) ++p;`
  unfoldable pub take_bucket : ℕ → HashMap K V → Probe → Option (ℕ × HashMap K V)
  take_bucket zero m p = none
  take_bucket (suc fuel) m p =
      let (at?, m', p') = take_slot m p in
      elim at? [ some at ↦ some (at, m') | none ↦ take_bucket fuel m' (next m' p') ]

  -- One round of the inner loop of `resize`: slot `c` of the old group `i`.
  unfoldable pub move_slot : ℕ → ℕ → ℕ → ℕ → ℕ → HashMap K V → Option (HashMap K V)
  move_slot fuel to prev_sz i c m =
      let b = byte m.control_bytes i c in
      let entry = bucket m (slot_index i c) in
      let h = do_hash entry.0 in
      let marked = record m { control_bytes = set_byte m.control_bytes i c sentinel } in
      let moved = take_bucket fuel marked (start marked h) >>= λ (at, m').
      some (record m' { buckets = set m'.buckets at entry }) in
      if b == sentinel
      then some m
      else if b == 0
      then some m
      else if leb prev_sz (h / 2 ^ 8 % to)
      then moved
      else some m

  unfoldable pub move_group : ℕ → ℕ → ℕ → ℕ → ℕ → ℕ → HashMap K V → Option (HashMap K V)
  move_group fuel to prev_sz i zero c m = some m
  move_group fuel to prev_sz i (suc rounds) c m = do
    m' ← move_slot fuel to prev_sz i c m
    move_group fuel to prev_sz i rounds (c + 1) m'

  unfoldable pub move_groups : ℕ → ℕ → ℕ → ℕ → ℕ → HashMap K V → Option (HashMap K V)
  move_groups fuel to prev_sz zero i m = some m
  move_groups fuel to prev_sz (suc rounds) i m = do
    m' ← move_group fuel to prev_sz i num_control_bytes 0 m
    move_groups fuel to prev_sz rounds (i + 1) m'

  unfoldable pub resize : ℕ → ℕ → HashMap K V → Option (HashMap K V)
  resize fuel to m =
      let prev_sz = length m.control_bytes in
      move_groups fuel to prev_sz prev_sz 0 (record m {
        control_bytes = resize_list m.control_bytes to (replicate num_control_bytes 0);
        buckets =
            resize_list m.buckets (to * num_control_bytes % 2 ^ 32)
              (key.default_key, value.default_value);
      })

  -- `LOAD_FACTOR_CONSTANT*count>buckets.size()`, both sides as `float`; the product by 2 is exact.
  unfoldable pub load_factor : HashMap K V → Bool
  load_factor m = ltb (to_float (length m.buckets)) (2 * to_float m.count)

  unfoldable pub check_resize : ℕ → HashMap K V → Option (HashMap K V)
  check_resize fuel m =
      if load_factor m then resize fuel (length m.control_bytes * 2 % 2 ^ 32) m else some m

  -- `Map()`
  unfoldable pub new : ℕ → Option (HashMap K V)
  new fuel = resize fuel default_buckets (record { count = 0; control_bytes = []; buckets = [] })
