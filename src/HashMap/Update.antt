-- ===== src/HashMap/Update.antt =====
-- `insert` and `remove` of `Map`: they end, keep the invariant, and change the entries of one key.
use corecommon.Common.{
  ℕ, ◌+◌, ◌-◌, ◌%◌, ◌^◌, ◌≡◌, refl, ap, ◌∙◌, false, Option, none, some, arith, inl, inr, ◌⊎◌,
  get_or, [], ◌≢◌,
}
use corecommon.HashMap.Table.{Key, Value, HashMap, Probe, set_byte, do_hash, first_free}
use corecommon.HashMap.Probing.{slot_index, start, bucket, take_slot, release, current}
use corecommon.HashMap.Growth.{load_factor, check_resize}
use corecommon.HashMap.Methods.{
  Located, found, absent, locate, insert, insert_at, remove, assign, count_up,
}
use corecommon.HashMap.Groups.{first_free-some}
use corecommon.HashMap.Matching.{value_at}
use corecommon.HashMap.Locate.{Ends}
use corecommon.HashMap.Effect.{Writes}
use corecommon.HashMap.Entry.{
  stored_at, grown, grown-IsValid, grown-Writes, replaced, replaced-IsValid, replaced-Writes,
  removed, removed-IsValid, removed-Writes,
}
use corecommon.HashMap.Lookup.{locate-start, FoundAt-Holds}
use corecommon.HashMap.Valid.{IsLive, Holds, IsValid, Reads, HasRoom, AbsentFrom-lacks}

-- The count after a call that returned the old value, if there was one.
abbrev pub counted {ℓ} : {V : Type ℓ} → ℕ → Option V → ℕ
counted n none = (n + 1) % 2 ^ 64
counted n (some _) = n

abbrev pub counted_off {ℓ} : {V : Type ℓ} → ℕ → Option V → ℕ
counted_off n none = n
counted_off n (some _) = (n + 2 ^ 64 - 1) % 2 ^ 64

-- A key that has no value has none after a removal either.
only_other {ℓ} :
    {K V A : Type ℓ} (k q : K) (w : V)
    → ((q ≡ k) × (◌≡◌ {A = Option V} none (some w))) ⊎ ((q ≢ k) × A)
    → A
only_other k q w (inl (e, n)) = absurd (cc)
only_other k q w (inr (ne, a)) = a

module _ {ℓ} {K V : Type ℓ} ⦃key : Key K⦄ ⦃value : Value V⦄ where
  -- A call ended with the old value and the new map.
  pub record Updated (m : HashMap K V) (k : K) (new : Option V) (n : Option V → ℕ)
      (run : Option (Option V × HashMap K V)) : Type ℓ where
    pub old : Option V
    pub map' : HashMap K V
    pub ends : run ≡ some (old, map')
    pub reads : Reads m k old
    pub valid : IsValid map'
    pub writes : Writes m map' k new
    pub count : map'.count ≡ n old

  take_slot_free :
      (m : HashMap K V) (p : Probe) (s : ℕ)
      → first_free 16 0 (get_or m.control_bytes p.i []) ≡ some s
      → take_slot m p ≡ (
        some (slot_index p.i s),
        record m { control_bytes = set_byte m.control_bytes p.i s p.target },
        record p { c = s },
      )
  unfolding take_slot current
  take_slot_free m p s e = rw (e, take_slot)

  insert_absent :
      (fuel : ℕ) (m : HashMap K V) (k : K) (v : V) (p : Probe) (s : ℕ)
      → locate fuel m (start m (do_hash k)) k ≡ some (absent p)
      → first_free 16 0 (get_or m.control_bytes p.i []) ≡ some s
      → insert_at false fuel m k v
        ≡ some (none, stored_at m ((m.count + 1) % 2 ^ 64) p.i s p.target (k, v))
  unfolding insert_at
  insert_absent fuel m k v p s e f = rw e (
      ap
        (λ (t : Option ℕ × HashMap K V × Probe).
          elim t.0 as (λ _. Option (Option V × HashMap K V)) [
            | none ↦ none
            | some at ↦ some (none, assign (count_up t.1) at (k, v))
          ])
        (take_slot_free m p s f))

  insert_at-Updated :
      (fuel : ℕ) (m : HashMap K V) (k : K) (v : V)
      → IsValid m
      → HasRoom m k fuel
      → Updated m k (some v) (counted m.count) (insert_at false fuel m k v)
  unfolding insert_at
  insert_at-Updated fuel m k v valid room = go (locate-start fuel m k room)
    where
      go :
          ((r : Located) × (locate fuel m (start m (do_hash k)) k ≡ some r)
            × Ends m k (do_hash k) 0 r)
          → Updated m k (some v) (counted m.count) (insert_at false fuel m k v)
      go (found at p, e, f) = record {
        old = some (value_at m p.i p.c);
        map' = replaced m k v p at valid f;
        ends = rw e (ap (λ x. some (some (bucket m x).1, assign m x ((bucket m x).0, v))) f.place);
        reads = FoundAt-Holds m k at p valid f;
        valid = replaced-IsValid m k v p at valid f;
        writes = replaced-Writes m k v p at valid f;
        count = refl;
      }
      go (absent p, e, a) =
          let (c, hc, z) = a.empty in
          let (s, found_free, hs, free) =
            first_free-some 16 0 (get_or m.control_bytes p.i []) c (omega arith) (omega arith)
              (rw a.on z) in
          record {
            old = none;
            map' = grown m k v p ((m.count + 1) % 2 ^ 64) s valid a hs free;
            ends = insert_absent fuel m k v p s e found_free;
            reads = λ w h. AbsentFrom-lacks m k p valid a h.i h.c h.live h.same_key;
            valid = grown-IsValid m k v p ((m.count + 1) % 2 ^ 64) s valid a hs free;
            writes = grown-Writes m k v p ((m.count + 1) % 2 ^ 64) s valid a hs free;
            count = refl;
          }

  -- While `load_factor` does not ask for a larger table (up to the rounding of `float`, while it is
  -- at most half full), `insert` ends on every valid map and key whose walk meets
  -- an empty byte. It returns the value that the key had, if it had one; the new map is valid, has
  -- the new value under the key and all else as before, and counts a new key.
  pub insert-Updated :
      (fuel : ℕ) (m : HashMap K V) (k : K) (v : V)
      → IsValid m
      → HasRoom m k fuel
      → load_factor m ≡ false
      → Updated m k (some v) (counted m.count) (insert false fuel m k v)
  unfolding insert check_resize
  insert-Updated fuel m k v valid room light = rw light (insert_at-Updated fuel m k v valid room)

  -- `remove` ends on every valid map and key whose walk meets an empty byte. It returns the value
  -- that the key had, if it had one; the new map is valid, has no value under the key and all else
  -- as before, and counts one key less if it removed one.
  pub remove-Updated :
      (fuel : ℕ) (m : HashMap K V) (k : K)
      → IsValid m
      → HasRoom m k fuel
      → Updated m k none (counted_off m.count) (remove fuel m k)
  unfolding remove release
  remove-Updated fuel m k valid room = go (locate-start fuel m k room)
    where
      go :
          ((r : Located) × (locate fuel m (start m (do_hash k)) k ≡ some r)
            × Ends m k (do_hash k) 0 r)
          → Updated m k none (counted_off m.count) (remove fuel m k)
      go (found at p, e, f) = record {
        old = some (value_at m p.i p.c);
        map' = removed m k (value_at m p.i p.c) p at valid f;
        ends = rw e (ap (λ x. some (some (bucket m x).1, release m p)) f.place);
        reads = FoundAt-Holds m k at p valid f;
        valid = removed-IsValid m k (value_at m p.i p.c) p at valid f;
        writes = removed-Writes m k (value_at m p.i p.c) p at valid f;
        count = refl;
      }
      go (absent p, e, a) =
          let lacks = λ (i c : ℕ) (l : IsLive m i c). AbsentFrom-lacks m k p valid a i c l in
          record {
            old = none;
            map' = m;
            ends = rw e;
            reads = λ w h. lacks h.i h.c h.live h.same_key;
            valid = valid;
            writes = λ q w. (
              (λ h. inr ((λ e. lacks h.i h.c h.live (h.same_key ∙ e)), h)),
              only_other {A = Holds m q w} k q w,
            );
            count = refl;
          }
