-- ===== src/HashMap/Table.antt =====
-- The data of `Map` of src/map.hpp and the loops over one group of control bytes.
use corecommon.Common.{
  ℕ, zero, suc, ◌+◌, ◌-◌, ◌%◌, ◌^◌, ◌<◌, ◌≡◌, ◌↔◌, Bool, true, ◌&&◌, ◌||◌, not, Option, none, some,
  List, [], ◌++◌, length, get_or, set, take, replicate, ◌==◌, if◌then◌else◌,
}

-- What the template takes from its key type: `==`, `std::hash` and the default constructor.
pub record Key {ℓ} (K : Type ℓ) : Type ℓ where
  pub equal : K → K → Bool
  pub equal_iff : (a b : K) → (equal a b ≡ true) ↔ (a ≡ b)
  pub hash : K → ℕ
  pub hash-lt : (a : K) → hash a < 2 ^ 64
  pub default_key : K

-- The default constructor of the value type.
pub record Value {ℓ} (V : Type ℓ) : Type ℓ where
  pub default_value : V

abbrev pub num_control_bytes : ℕ
num_control_bytes = 16

abbrev pub sentinel : ℕ
sentinel = 0x80

abbrev pub default_buckets : ℕ
default_buckets = 2

-- A bucket is a pair; its index is 16 * group + slot.
pub record HashMap {ℓ} (K V : Type ℓ) : Type ℓ where
  pub count : ℕ
  pub control_bytes : List (List ℕ)
  pub buckets : List (K × V)

-- `current` is the group at index `i`; `cont` has no value before the first `match`.
pub record Probe : Type 0 where
  pub i : ℕ
  pub probe_i : ℕ
  pub c : ℕ
  pub target : ℕ
  pub cont : Bool

pub record MatchResult : Type 0 where
  pub cont : Bool
  pub found : Option ℕ

-- The control byte of a slot, and a write to it.
abbrev pub byte : List (List ℕ) → ℕ → ℕ → ℕ
byte groups i c = get_or (get_or groups i []) c 0

abbrev pub set_byte : List (List ℕ) → ℕ → ℕ → ℕ → List (List ℕ)
set_byte groups i c v = set groups i (set (get_or groups i []) c v)

-- `std::vector::resize`
abbrev pub resize_list {ℓ} : {A : Type ℓ} → List A → ℕ → A → List A
resize_list xs n d = take n xs ++ replicate (n - length xs) d

-- The first loop of `match`: whether a group has no byte that was never used.
unfoldable pub has_no_empty : ℕ → ℕ → List ℕ → Bool
has_no_empty zero c current = true
has_no_empty (suc rounds) c current =
    not (get_or current c 0 == 0) && has_no_empty rounds (c + 1) current

-- The loop of `Probe::insert`: the first slot that is free.
unfoldable pub first_free : ℕ → ℕ → List ℕ → Option ℕ
first_free zero c current = none
first_free (suc rounds) c current =
    if get_or current c 0 == 0 || get_or current c 0 == sentinel
    then some c
    else first_free rounds (c + 1) current

unfoldable pub do_hash {ℓ} : {K : Type ℓ} ⦃key : Key K⦄ → K → ℕ
do_hash ⦃key⦄ k =
    let h = key.hash k in if h % 256 == 0 || h % 256 == sentinel then 2 ^ 64 - 1 - h else h
