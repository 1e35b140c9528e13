-- ===== src/HashMap/Tests.antt =====
-- Runs of `Map` over keys that are their own hash.
use corecommon.Common.{
  replicate, set, length, In, ◌↔◌, get_or-replicate, ◌≢◌, ℕ, zero, suc, ◌+◌, ◌*◌, ◌%◌, ◌^◌, ◌<◌,
  ◌≡◌, refl, false, Option, none, some, ◌>>=◌, List, [], ◌∷◌, arith, ◌==◌, ==_iff,
}
use corecommon.HashMap.Table.{
  byte, sentinel, Key, Value, HashMap, do_hash, first_free, has_no_empty,
}
use corecommon.HashMap.Fresh.{fresh, fresh-IsValid, new-insert}
use corecommon.HashMap.Effect.{Writes}
use corecommon.HashMap.Valid.{IsValid, Holds, Reads, HasRoom}
use corecommon.HashMap.Update.{counted, counted_off, Updated, insert-Updated, remove-Updated}
use corecommon.HashMap.Iterating.{
  visited, visit_loop, clear, clear_loop, begin, step_on, settle, remove_at,
}
use corecommon.HashMap.Iterated.{IsSingle, visited-Holds}
use corecommon.HashMap.Coverage.{HasRoom-anywhere}
use corecommon.HashMap.Matching.{key_at}
use corecommon.HashMap.Lookup.{get-Reads, get_stuck}
use corecommon.HashMap.Methods.{insert, remove, get, insert_at, locate, find_loop}
use corecommon.HashMap.Growth.{
  new, check_resize, load_factor, to_float, dropped_bits, resize, move_groups, move_group,
  move_slot, take_bucket,
}
use corecommon.HashMap.Probing.{
  slot_index, take_slot, release, start, next, next_index, current, match_group, scan,
}

-- `std::hash` of an integer is that integer in the common libraries.
small_hash-lt : (a : ℕ) → a % 2 ^ 64 < 2 ^ 64
small_hash-lt a = omega arith

instance abbrev number_key : Key ℕ
number_key = record {
  equal = ◌==◌;
  equal_iff = ==_iff;
  hash = λ a. a % 2 ^ 64;
  hash-lt = small_hash-lt;
  default_key = 0;
}

instance abbrev number_value : Value ℕ
number_value = record { default_value = 0 }

abbrev insert_all : List ℕ → HashMap ℕ ℕ → Option (HashMap ℕ ℕ)
insert_all [] m = some m
insert_all (k ∷ ks) m = insert false 8 m k (k + 1) >>= λ r. insert_all ks r.1

-- Keys with the low hash byte 1 whose group is 1 modulo 4.
abbrev one_home : ℕ → List ℕ
one_home zero = []
one_home (suc n) = ((1 + 4 * n) * 256 + 1) ∷ one_home n

-- What a run of the methods computes with.
abbrev runs : ℕ
unfolding new insert get insert_at check_resize load_factor to_float resize move_groups move_group
    move_slot take_bucket take_slot start next next_index slot_index current match_group scan
    has_no_empty first_free locate find_loop do_hash
runs = 0

few : (new 8 >>= insert_all (257 ∷ 513 ∷ []) >>= λ m. get 8 m 513) ≡ some (some 514)
unfolding runs
few = refl

-- The first 17 keys of one group fill it and overflow into the other; growing loses the last.
lost : (new 8 >>= insert_all (one_home 18) >>= λ m. get 8 m 1281) ≡ some none
unfolding runs
lost = refl

-- Sixteen keys of one group come and go, then sixteen of the other.
abbrev remove_all : List ℕ → HashMap ℕ ℕ → Option (HashMap ℕ ℕ)
remove_all [] m = some m
remove_all (k ∷ ks) m = remove 8 m k >>= λ r. remove_all ks r.1

abbrev other_home : ℕ → List ℕ
other_home zero = []
other_home (suc n) = (4 * n * 256 + 1) ∷ other_home n

abbrev worn : Option (HashMap ℕ ℕ)
worn =
    new 8
    >>= insert_all (one_home 16)
    >>= remove_all (one_home 16)
    >>= insert_all (other_home 16)
    >>= remove_all (other_home 16)

-- The map is empty, and no byte is: a lookup runs out of any fuel.
worn_run : (worn >>= λ m. get 100 m 257) ≡ none
unfolding runs remove release
worn_run = refl

abbrev empty : HashMap ℕ ℕ
empty = fresh

abbrev one : HashMap ℕ ℕ
one = record {
  count = 1;
  control_bytes = replicate 16 0 ∷ set (replicate 16 0) 0 1 ∷ [];
  buckets = set (replicate 32 (0, 0)) 16 (257, 7);
}

new-insert_example :
    (m : HashMap ℕ ℕ) × (new 5 ≡ some m)
    × IsValid m
    × ((k : ℕ) (v : ℕ) → ¬ (Holds m k v))
    × ((k : ℕ) → HasRoom m k 1)
    × (load_factor m ≡ false)
    × (length m.control_bytes ≡ 2)
    × (m.count ≡ 0)
    × (m' : HashMap ℕ ℕ) × (insert false 1 m 257 7 ≡ some (none, m'))
    × IsValid m'
    × Writes m m' 257 (some 7)
    × (m'.count ≡ 1)
new-insert_example = new-insert 5 257 7

start_room : HasRoom empty 257 1
unfolding do_hash
start_room = record { step = 0; soon = omega arith; c = 0; slot = omega arith; empty = refl }

-- 2 ^ 24 + 1 lies between two floats, and 2 ^ 24 + 3 too.
rounded : (to_float (2 ^ 24 + 1) ≡ 2 ^ 24) × (to_float (2 ^ 24 + 3) ≡ 2 ^ 24 + 4)
unfolding to_float dropped_bits
rounded = (refl, refl)

light : load_factor empty ≡ false
unfolding load_factor to_float
light = refl

insert-Updated_example : Updated empty 257 (some 7) (counted 0) (insert false 1 empty 257 7)
insert-Updated_example = insert-Updated 1 empty 257 7 fresh-IsValid start_room light

one_run : insert false 1 empty 257 7 ≡ some (none, one)
unfolding runs
one_run = refl

one-IsValid : IsValid one
one-IsValid =
    let u = insert-Updated_example in
    let e : u.map' ≡ one = cc (u.ends, one_run) in rw (← e) u.valid

-- The walk of key 257 starts at group 1, whose slot 1 is empty.
one_room : HasRoom one 257 1
unfolding do_hash
one_room = record { step = 0; soon = omega arith; c = 1; slot = omega arith; empty = refl }

get-Reads_example : (r : Option ℕ) × (get 1 one 257 ≡ some r) × Reads one 257 r
get-Reads_example = get-Reads 1 one 257 one-IsValid one_room

remove-Updated_example : Updated one 257 none (counted_off 1) (remove 1 one 257)
remove-Updated_example = remove-Updated 1 one 257 one-IsValid one_room

HasRoom-anywhere_example : HasRoom one 257 2
HasRoom-anywhere_example =
    HasRoom-anywhere one 257 1 0 3 (omega arith) (omega arith) (omega arith) (omega arith) refl

abbrev full : HashMap ℕ ℕ
full = record {
  count = 0;
  control_bytes = replicate 16 sentinel ∷ replicate 16 sentinel ∷ [];
  buckets = replicate 32 (0, 0);
}

full_byte : (i c : ℕ) → i < 2 → c < 16 → byte full.control_bytes i c ≡ sentinel
full_byte zero c hi hc = get_or-replicate 16 c sentinel 0 hc
full_byte (suc zero) c hi hc = get_or-replicate 16 c sentinel 0 hc
full_byte (suc (suc i)) c hi hc = absurd (omega arith)

full_lacks :
    (i c : ℕ)
    → c < 16
    → byte full.control_bytes i c ≡ do_hash {K = ℕ} 257 % 2 ^ 8
    → key_at full i c ≢ 257
unfolding do_hash
full_lacks zero c hc e = absurd (omega (arith, full_byte 0 c (omega arith) hc))
full_lacks (suc zero) c hc e = absurd (omega (arith, full_byte 1 c (omega arith) hc))
full_lacks (suc (suc i)) c hc e = absurd (omega arith)

get_stuck_example : get 1000 full 257 ≡ none
get_stuck_example =
    get_stuck 1000 full 257 (λ i hi c hc z. absurd (omega (arith, full_byte i c hi hc)))
      (omega arith) full_lacks

visited-Holds_example :
    (es : List (ℕ × ℕ)) × (visited 40 one ≡ some es)
    × IsSingle es
    × ((k w : ℕ) → Holds one k w ↔ In (k, w) es)
visited-Holds_example = visited-Holds 40 one one-IsValid (omega arith) (omega arith)

-- `clear` counts every entry down and leaves none for the iterator.
cleared : (clear 40 one >>= λ m. visited 40 m) ≡ some []
unfolding clear clear_loop begin step_on settle remove_at visited visit_loop
cleared = refl
