-- ===== src/HashMap/Iterated.antt =====
-- The iterator of `Map` visits what the map holds.
use corecommon.Common.{
  if-cases, ℕ_discrete, ◌↔◌, ℕ, zero, suc, ◌+◌, ◌*◌, ◌/◌, ◌%◌, ◌^◌, ◌≤◌, ◌<◌, ◌≡◌, ◌≢◌, refl, sym,
  ap, ◌∙◌, true, some, List, [], ◌∷◌, length, map, arith, Bool-cases, inl, inr, In, In-cons, here,
  there, map-In, In-map,
}
use corecommon.HashMap.Table.{Key, Value, HashMap, sentinel}
use corecommon.HashMap.Probing.{slot_index, bucket}
use corecommon.HashMap.Valid.{IsValid, IsLive, Holds}
use corecommon.HashMap.Iterating.{marks, visited}
use corecommon.HashMap.Walked.{live, slots, listed, Sized, begin-at_slot, visit_loop-slots}

module _ {ℓ} {K V : Type ℓ} where
  In-slots :
      (m : HashMap K V) (n c d : ℕ) → In d (slots m n c) → (c ≤ d) × (d < c + n) × (live m d ≡ true)
  unfolding slots
  In-slots m zero c d h = elim h [ ]
  In-slots m (suc n) c d h = elim (Bool-cases (live m c)) [
    | inl lv ↦ elim (In-cons (rw lv at h)) [
      | inl e ↦ (omega arith, omega arith, ap (live m) (sym e) ∙ lv)
      | inr i ↦ let (lo, hi, l) = In-slots m n (c + 1) d i in (omega arith, omega arith, l)
    ]
    | inr lv ↦
        let (lo, hi, l) = In-slots m n (c + 1) d (rw lv at h) in (omega arith, omega arith, l)
  ]

  slots-In :
      (m : HashMap K V) (n c d : ℕ) → c ≤ d → d < c + n → live m d ≡ true → In d (slots m n c)
  unfolding slots
  slots-In m zero c d lo hi l = absurd (omega arith)
  slots-In m (suc n) c d lo hi l = elim (ℕ_discrete c d) [
    | yes same ↦ rw same (rw l (here refl))
    | no other ↦
        let later : In d (slots m n (c + 1)) =
          slots-In m n (c + 1) d (omega arith) (omega arith) l in
        if-cases (In d) (live m c) _ _ (λ e. there later) (λ e. later)
  ]

-- No key stands in two entries.
unfoldable pub IsSingle {ℓ} : {K V : Type ℓ} → List (K × V) → Type ℓ
IsSingle [] = Unit
IsSingle {K} {V} (e ∷ es) = ((v : V) → ¬ (In (e.0, v) es)) × IsSingle es

marks-true : (b : ℕ) → marks b ≡ true → (b ≢ 0) × (b ≢ sentinel)
marks-true b e = ground arith

true-marks : (b : ℕ) → b ≢ 0 → b ≢ sentinel → marks b ≡ true
true-marks b h k = ground arith

module _ {ℓ} {K V : Type ℓ} ⦃key : Key K⦄ ⦃value : Value V⦄ where
  live-IsLive :
      (m : HashMap K V) (d : ℕ)
      → IsValid m
      → d < length m.buckets
      → live m d ≡ true
      → IsLive m (d / 16) (d % 16)
  live-IsLive m d v h l =
      let (used, kept) = marks-true _ l in
      record { group = omega (arith, v.slots); slot = omega arith; used = used; kept = kept }

  -- A bucket is the entry of its slot.
  bucket-slot :
      (m : HashMap K V) (d : ℕ)
      → IsValid m
      → d < length m.buckets
      → bucket m (slot_index (d / 16) (d % 16)) ≡ bucket m d
  unfolding slot_index
  bucket-slot m d v h =
      ap (bucket m) {x = (d / 16 * 16 + d % 16) % 2 ^ 32} (omega (arith, v.slots, v.bound))

  slots-IsSingle :
      (m : HashMap K V) (n c : ℕ)
      → IsValid m
      → c + n ≡ length m.buckets
      → IsSingle (map (bucket m) (slots m n c))
  unfolding slots IsSingle
  slots-IsSingle m zero c v e = tt
  slots-IsSingle m (suc n) c v e = elim (Bool-cases (live m c)) [
    | inr lv ↦ rw lv (slots-IsSingle m n (c + 1) v (omega arith))
    | inl lv ↦ rw lv (
      (λ w i.
          let (d, at, same) = In-map (bucket m) (slots m n (c + 1)) i in
          let (lo, hi, l) = In-slots m n (c + 1) d at in
          let one =
            v.unique (c / 16) (c % 16) (d / 16) (d % 16) (live-IsLive m c v (omega arith) lv)
              (live-IsLive m d v (omega arith) l)
              (ap (λ b. b.0) (bucket-slot m c v (omega arith))
                ∙ ap (λ b. b.0) (sym same)
                ∙ ap (λ b. b.0) (sym (bucket-slot m d v (omega arith)))) in
          omega (arith, one.0, one.1)),
      slots-IsSingle m n (c + 1) v (omega arith),
    )
  ]

  Holds-listed : (m : HashMap K V) (k : K) (w : V) → IsValid m → Holds m k w → In (k, w) (listed m)
  unfolding listed
  Holds-listed m k w v h =
      let d : ℕ = h.i * 16 + h.c in
      let group : d / 16 ≡ h.i = omega (arith, h.live.slot) in
      let slot : d % 16 ≡ h.c = omega (arith, h.live.slot) in
      let l : live m d ≡ true = rw (group, slot) (true-marks _ h.live.used h.live.kept) in
      let at : In d (slots m (length m.buckets) 0) =
        slots-In m (length m.buckets) 0 d (omega arith)
          (omega (arith, h.live.slot, h.live.group, v.slots)) l in
      let place : slot_index h.i h.c ≡ d =
        unfold slot_index in omega (arith, h.live.slot, h.live.group, v.bound) in
      let e : bucket m d ≡ (k, w) = cc (h.same_key, h.same_value, place) in
      rw e at (map-In (bucket m) at)

  listed-Holds : (m : HashMap K V) (k : K) (w : V) → IsValid m → In (k, w) (listed m) → Holds m k w
  unfolding listed
  listed-Holds m k w v h =
      let (d, at, same) = In-map (bucket m) (slots m (length m.buckets) 0) h in
      let (lo, hi, l) = In-slots m (length m.buckets) 0 d at in
      record {
        i = d / 16;
        c = d % 16;
        live = live-IsLive m d v (omega arith) l;
        same_key = ap (λ b. b.0) (bucket-slot m d v (omega arith) ∙ same);
        same_value = ap (λ b. b.1) (bucket-slot m d v (omega arith) ∙ same);
      }

  -- The loop from `begin()` to `end()` over a valid map sees just the entries that the map holds, and
  -- no key twice. It ends where `fuel` is more than the number of buckets, which is a `size_t`.
  pub visited-Holds :
      (fuel : ℕ) (m : HashMap K V)
      → IsValid m
      → length m.buckets < 2 ^ 64
      → length m.buckets < fuel
      → (es : List (K × V)) × (visited fuel m ≡ some es)
        × IsSingle es
        × ((k : K) (w : V) → Holds m k w ↔ In (k, w) es)
  unfolding visited listed
  visited-Holds fuel m v small l =
      let sized : Sized m = record {
        groups = length m.control_bytes;
        whole = omega (arith, v.slots);
        small = small;
      } in
      let first = begin-at_slot fuel m sized l in
      let all = visit_loop-slots fuel fuel (length m.buckets) 0 m sized (omega arith) l l in
      (
        listed m,
        rw (first, all) refl,
        slots-IsSingle m (length m.buckets) 0 v (omega arith),
        λ k w. (Holds-listed m k w v, listed-Holds m k w v),
      )
