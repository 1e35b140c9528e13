-- ===== src/HashMap/Methods.antt =====
-- The methods of `Map` of src/map.hpp. A loop over the groups has fuel; `none` means that it ran out.
use corecommon.Common.{
  ℕ, zero, suc, ◌+◌, ◌%◌, ◌^◌, Bool, true, false, Option, none, some, ◌>>=◌, set,
}
use corecommon.HashMap.Table.{Key, Value, HashMap, Probe, do_hash}
use corecommon.HashMap.Probing.{start, next, take_slot, release, bucket, match_group}
use corecommon.HashMap.Growth.{take_bucket, check_resize}

-- Where the loop of a method over `match` ends: at the bucket of the key, or at the first group
-- with an empty byte.
pub data Located : Type 0 where
  found : ℕ → Probe → Located
  absent : Probe → Located

module _ {ℓ} {K V : Type ℓ} ⦃key : Key K⦄ ⦃value : Value V⦄ where
  -- The loop that `insert`, `upsert` and `remove` share.
  unfoldable pub locate : ℕ → HashMap K V → Probe → K → Option Located
  locate zero m p k = none
  locate (suc fuel) m p k =
      let (res, p') = match_group m p k in
      elim res.found [
        | some at ↦ some (found at p')
        | none ↦ elim res.cont [ true ↦ locate fuel m (next m p') k | false ↦ some (absent p') ]
      ]

  -- `count++`
  abbrev pub count_up : HashMap K V → HashMap K V
  count_up m = record m { count = (m.count + 1) % 2 ^ 64 }

  abbrev pub assign : HashMap K V → ℕ → K × V → HashMap K V
  assign m at entry = record m { buckets = set m.buckets at entry }

  -- `insert` after `check_resize`, with the template's `multiple`.
  unfoldable pub insert_at : Bool → ℕ → HashMap K V → K → V → Option (Option V × HashMap K V)
  insert_at true fuel m k v = do
    (at, m') ← take_bucket fuel m (start m (do_hash k))
    some (none, assign (count_up m') at (k, v))
  insert_at false fuel m k v = do
    at ← locate fuel m (start m (do_hash k)) k
    elim at [
      | found at _ ↦ let old = bucket m at in some (some old.1, assign m at (old.0, v))
      | absent p ↦
          let (at?, m', _) = take_slot m p in
          elim at? [ none ↦ none | some at ↦ some (none, assign (count_up m') at (k, v)) ]
    ]

  unfoldable pub insert : Bool → ℕ → HashMap K V → K → V → Option (Option V × HashMap K V)
  insert multiple fuel m k v = do m' ← check_resize fuel m; insert_at multiple fuel m' k v

  -- `upsert` returns the bucket whose second field the caller gets a reference to.
  unfoldable pub upsert_at : Bool → ℕ → HashMap K V → K → Option (ℕ × HashMap K V)
  upsert_at true fuel m k = do
    (at, m') ← take_bucket fuel m (start m (do_hash k))
    some (at, assign (count_up m') at (k, (bucket m' at).1))
  upsert_at false fuel m k = do
    at ← locate fuel m (start m (do_hash k)) k
    elim at [
      | found at _ ↦ some (at, m)
      | absent p ↦
          let (at?, m', _) = take_slot m p in
          elim at? [
            | none ↦ none
            | some at ↦ some (at, assign (count_up m') at (k, (bucket m' at).1))
          ]
    ]

  unfoldable pub upsert : Bool → ℕ → HashMap K V → K → Option (ℕ × HashMap K V)
  upsert multiple fuel m k = do m' ← check_resize fuel m; upsert_at multiple fuel m' k

  unfoldable pub remove : ℕ → HashMap K V → K → Option (Option V × HashMap K V)
  remove fuel m k = do
    at ← locate fuel m (start m (do_hash k)) k
    elim at [ found at p ↦ some (some (bucket m at).1, release m p) | absent p ↦ some (none, m) ]

  -- `FindIterator::operator++` on a cursor that stands before its first match: the bucket, or null.
  unfoldable pub find_loop : ℕ → HashMap K V → Probe → K → Option (Option ℕ × Probe)
  find_loop zero m p k = none
  find_loop (suc fuel) m p k =
      let (res, p') = match_group m p k in
      elim res.found [
        | some at ↦ some (some at, p')
        | none ↦ elim res.cont [
          | true ↦ find_loop fuel m (next m p') k
          | false ↦ some (none, next m p')
        ]
      ]

  -- `operator[]`: the value of the bucket that `find_begin` finds, or null.
  unfoldable pub get : ℕ → HashMap K V → K → Option (Option V)
  get fuel m k = do
    (at?, _) ← find_loop fuel m (start m (do_hash k)) k
    elim at? [ some at ↦ some (some (bucket m at).1) | none ↦ some none ]
