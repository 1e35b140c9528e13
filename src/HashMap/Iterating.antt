-- ===== src/HashMap/Iterating.antt =====
-- `Map::Iterator` of src/map.hpp, its loop from `begin` to `end`, and `clear`.
use corecommon.Common.{
  ℕ, zero, suc, ◌+◌, ◌-◌, ◌%◌, ◌^◌, Bool, true, not, ◌&&◌, Option, none, some, List, [], ◌∷◌,
  length, ltb, ◌==◌, if◌then◌else◌, ◌>>=◌,
}
use corecommon.HashMap.Table.{Key, Value, HashMap, num_control_bytes, sentinel, byte, set_byte}
use corecommon.HashMap.Probing.{bucket}

-- The slot `c`, counted through all groups, and the group that `iter` points at.
pub record Iterator : Type 0 where
  pub c : ℕ
  pub iter : ℕ

-- Whether a control byte marks an entry.
abbrev pub marks : ℕ → Bool
marks b = not (b == 0) && not (b == sentinel)

module _ {ℓ} {K V : Type ℓ} where
  abbrev pub has_entry : HashMap K V → Iterator → Bool
  has_entry m it = marks (byte m.control_bytes it.iter (it.c % num_control_bytes))

  -- The loops of `operator++` on fuel: the test of the outer one comes first if `at_test`.
  unfoldable pub settle : ℕ → HashMap K V → (at_test : Bool) → Iterator → Option Iterator
  settle zero m at_test it = none
  settle (suc fuel) m at_test it =
      let c' = (it.c + 1) % 2 ^ 64 in
      let wraps = c' % num_control_bytes == 0 in
      let rest =
        settle fuel m wraps (record { c = c'; iter = if wraps then it.iter + 1 else it.iter }) in
      if at_test && not (ltb it.c (length m.buckets))
      then some it
      else if has_entry m it
      then some it
      else rest

  -- `operator++`
  unfoldable pub step_on : ℕ → HashMap K V → Iterator → Option Iterator
  step_on fuel m it =
      let c' = (it.c + 1) % 2 ^ 64 in
      settle fuel m true (record {
        c = c';
        iter = if c' % num_control_bytes == 0 && not (c' == 0) then it.iter + 1 else it.iter;
      })

  unfoldable pub begin : ℕ → HashMap K V → Option Iterator
  begin fuel m = step_on fuel m (record { c = 2 ^ 64 - 1; iter = 0 })

  unfoldable pub end : HashMap K V → Iterator
  end m = record { c = length m.buckets; iter = length m.control_bytes }

  -- `it != to` compares the slots.
  abbrev pub at_end : HashMap K V → Iterator → Bool
  at_end m it = it.c == length m.buckets

  -- `remove`
  unfoldable pub remove_at : HashMap K V → Iterator → HashMap K V
  remove_at m it = record m {
    control_bytes = set_byte m.control_bytes it.iter (it.c % num_control_bytes) sentinel;
    count = (m.count + 2 ^ 64 - 1) % 2 ^ 64;
  }

  unfoldable pub clear_loop : ℕ → ℕ → HashMap K V → Iterator → Option (HashMap K V)
  clear_loop zero fuel m it = none
  clear_loop (suc rounds) fuel m it =
      let m' = remove_at m it in
      let rest = step_on fuel m' it >>= clear_loop rounds fuel m' in
      if at_end m it then some m else rest

  unfoldable pub clear : ℕ → HashMap K V → Option (HashMap K V)
  clear fuel m = begin fuel m >>= clear_loop fuel fuel m

module _ {ℓ} {K V : Type ℓ} ⦃key : Key K⦄ ⦃value : Value V⦄ where
  -- The entries that a loop from an iterator to `end()` sees.
  unfoldable pub visit_loop : ℕ → ℕ → HashMap K V → Iterator → Option (List (K × V))
  visit_loop zero fuel m it = none
  visit_loop (suc rounds) fuel m it =
      let rest = step_on fuel m it >>= λ it'.
      visit_loop rounds fuel m it' >>= λ es. some (bucket m it.c ∷ es) in
      if at_end m it then some [] else rest

  unfoldable pub visited : ℕ → HashMap K V → Option (List (K × V))
  visited fuel m = begin fuel m >>= visit_loop fuel fuel m
