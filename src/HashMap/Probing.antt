-- ===== src/HashMap/Probing.antt =====
-- `Map::Probe` of src/map.hpp: the walk over the groups and what it does at each.
use corecommon.Common.{
  ℕ, zero, suc, ◌+◌, ◌-◌, ◌*◌, ◌/◌, ◌%◌, ◌^◌, false, ◌&&◌, Option, none, some, List, [], length,
  get_or, ◌==◌, if◌then◌else◌,
}
use corecommon.HashMap.Table.{
  Key, Value, num_control_bytes, sentinel, HashMap, Probe, MatchResult, byte, set_byte,
  has_no_empty, first_free,
}

-- The index after a step: `probe_i++; i=(i+probe_i)%size`, in 32-bit arithmetic.
unfoldable pub next_index : ℕ → ℕ → ℕ → ℕ
next_index size i step = (i + step) % 2 ^ 32 % size

-- `i*NUM_CONTROL_BYTES+c`, in 32-bit arithmetic.
unfoldable pub slot_index : ℕ → ℕ → ℕ
slot_index i c = (i * num_control_bytes + c) % 2 ^ 32

module _ {ℓ} {K V : Type ℓ} where
  unfoldable pub start : HashMap K V → ℕ → Probe
  start m hash = record {
    i = hash / 2 ^ 8 % length m.control_bytes;
    probe_i = 0;
    c = 0;
    target = hash % 2 ^ 8;
    cont = false;
  }

  -- `operator++`
  unfoldable pub next : HashMap K V → Probe → Probe
  next m p =
      let step = (p.probe_i + 1) % 2 ^ 32 in
      record p { i = next_index (length m.control_bytes) p.i step; probe_i = step; c = 0 }

  unfoldable pub current : HashMap K V → Probe → List ℕ
  current m p = get_or m.control_bytes p.i []

  -- `Probe::insert` returns the bucket that it took, or null when the group has no free slot.
  unfoldable pub take_slot : HashMap K V → Probe → Option ℕ × HashMap K V × Probe
  unfolding current
  take_slot m p = elim (first_free num_control_bytes 0 (current m p)) [
    | none ↦ (none, m, record p { c = num_control_bytes })
    | some c ↦ (
      some (slot_index p.i c),
      record m { control_bytes = set_byte m.control_bytes p.i c p.target },
      record p { c = c },
    )
  ]

  -- `Probe::remove`
  unfoldable pub release : HashMap K V → Probe → HashMap K V
  release m p = record m {
    control_bytes = set_byte m.control_bytes p.i p.c sentinel;
    count = (m.count + 2 ^ 64 - 1) % 2 ^ 64;
  }

module _ {ℓ} {K V : Type ℓ} ⦃key : Key K⦄ ⦃value : Value V⦄ where
  abbrev pub bucket : HashMap K V → ℕ → K × V
  bucket m at = get_or m.buckets at (key.default_key, value.default_value)

  -- The second loop of `match`, from slot `c` on: where it stopped, 16 at the end of the group.
  unfoldable pub scan : HashMap K V → Probe → K → ℕ → ℕ → Option ℕ
  scan m p k zero c = none
  scan m p k (suc rounds) c =
      if byte m.control_bytes p.i c == p.target && key.equal (bucket m (slot_index p.i c)).0 k
      then some c
      else scan m p k rounds (c + 1)

  -- `Probe::match`. The bytes are looked through for an empty one only at the start of a group.
  unfoldable pub match_group : HashMap K V → Probe → K → MatchResult × Probe
  unfolding current
  match_group m p k =
      let cont' = if p.c == 0 then has_no_empty num_control_bytes 0 (current m p) else p.cont in
      elim (scan m p k (num_control_bytes - p.c) p.c) [
        | none ↦ (
          record { cont = cont'; found = none },
          record p { c = num_control_bytes; cont = cont' },
        )
        | some c ↦ (
          record { cont = cont'; found = some (slot_index p.i c) },
          record p { c = c; cont = cont' },
        )
      ]
