-- ===== src/HashMap/Lookup.antt =====
-- `operator[]` finds exactly what the map holds, and a walk with no empty byte does not end.
use corecommon.Common.{
  ℕ, ◌%◌, ◌^◌, ◌<◌, ◌≡◌, ◌≢◌, refl, sym, ap, ◌∙◌, Option, none, some, length, get_or, arith,
  Option-cases, inl, inr,
}
use corecommon.HashMap.Table.{Key, Value, HashMap, Probe, byte, do_hash}
use corecommon.HashMap.Probing.{start}
use corecommon.HashMap.Methods.{Located, found, absent, locate, get}
use corecommon.HashMap.Matching.{key_at, value_at, IsFull}
use corecommon.HashMap.Locate.{
  on_walk, FoundAt, Ends, AtStep, start-AtStep, locate-Ends, locate_total, find_loop-locate,
}
use corecommon.HashMap.Valid.{
  IsValid, Holds, Reads, HasRoom, FoundAt-IsLive, AbsentFrom-lacks, on_walk-lt,
}

module _ {ℓ} {K V : Type ℓ} ⦃key : Key K⦄ ⦃value : Value V⦄ where
  -- The loop from the start of the key's walk, with the place where it ends.
  pub locate-start :
      (fuel : ℕ) (m : HashMap K V) (k : K)
      → HasRoom m k fuel
      → (r : Located) × (locate fuel m (start m (do_hash k)) k ≡ some r) × Ends m k (do_hash k) 0 r
  locate-start fuel m k room =
      let s = start-AtStep m (do_hash k) in
      let (r, e) =
        locate_total fuel m k (do_hash k) 0 room.step room.c (start m (do_hash k)) s (omega arith)
          (omega (arith, room.soon)) room.slot room.empty in
      (r, e, locate-Ends fuel m k (do_hash k) 0 (start m (do_hash k)) r s e)

  pub FoundAt-Holds :
      (m : HashMap K V) (k : K) (at : ℕ) (p : Probe)
      → IsValid m
      → FoundAt m k (do_hash k) at p
      → Holds m k (value_at m p.i p.c)
  FoundAt-Holds m k at p v f = record {
    i = p.i;
    c = p.c;
    live = FoundAt-IsLive m k at p v f;
    same_key = f.holds;
    same_value = refl;
  }

  -- For every valid map and key whose walk meets an empty byte, `operator[]` ends with a result:
  -- the value of an entry of the key that the map holds, or null when it holds none.
  pub get-Reads :
      (fuel : ℕ) (m : HashMap K V) (k : K)
      → IsValid m
      → HasRoom m k fuel
      → (r : Option V) × (get fuel m k ≡ some r) × Reads m k r
  unfolding get
  get-Reads fuel m k v room = go (locate-start fuel m k room)
    where
      go :
          ((r : Located) × (locate fuel m (start m (do_hash k)) k ≡ some r)
            × Ends m k (do_hash k) 0 r)
          → (r : Option V) × (get fuel m k ≡ some r) × Reads m k r
      go (found at p, e, f) = (
        some (value_at m p.i p.c),
        rw (find_loop-locate, e)
            (ap (λ x. some (some (get_or m.buckets x (key.default_key, value.default_value)).1))
              f.place),
        FoundAt-Holds m k at p v f,
      )
      go (absent p, e, a) = (
        none,
        rw (find_loop-locate, e),
        λ w h. AbsentFrom-lacks m k p v a h.i h.c h.live h.same_key,
      )

  -- A key has one value.
  pub Holds_unique :
      (m : HashMap K V) (k : K) (a b : V) → IsValid m → Holds m k a → Holds m k b → a ≡ b
  Holds_unique m k a b v x y =
      let (ei, ec) = v.unique x.i x.c y.i y.c x.live y.live (x.same_key ∙ sym y.same_key) in
      sym x.same_value
      ∙ (ap (λ i. value_at m i x.c) ei ∙ (ap (λ c. value_at m y.i c) ec ∙ y.same_value))

  locate_stuck :
      (fuel : ℕ) (m : HashMap K V) (k : K) (h j : ℕ) (p : Probe)
      → AtStep m h j p
      → ((s : ℕ) → IsFull m (on_walk m h s))
      → ((i c : ℕ) → c < 16 → byte m.control_bytes i c ≡ h % 2 ^ 8 → key_at m i c ≢ k)
      → locate fuel m p k ≡ none
  locate_stuck fuel m k h j p a full lacks = elim (Option-cases (locate fuel m p k)) [
    | inl e ↦ e
    | inr (r, e) ↦ absurd (never r (locate-Ends fuel m k h j p r a e))
  ]
    where
      never : (r : Located) → ¬ (Ends m k h j r)
      never (found at q) f = lacks q.i q.c f.slot f.tag f.holds
      never (absent q) f = let (c, hc, z) = f.empty in full f.last c hc z

  -- Where the table has groups, all of them full, and no slot whose control byte is that of the key
  -- has the key, `operator[]` never ends: it has no result for any number of steps.
  pub get_stuck :
      (fuel : ℕ) (m : HashMap K V) (k : K)
      → ((i : ℕ) → i < length m.control_bytes → IsFull m i)
      → 0 < length m.control_bytes
      → ((i c : ℕ) → c < 16 → byte m.control_bytes i c ≡ do_hash k % 2 ^ 8 → key_at m i c ≢ k)
      → get fuel m k ≡ none
  unfolding get
  get_stuck fuel m k full pos lacks = rw (
    find_loop-locate,
    locate_stuck fuel m k (do_hash k) 0 (start m (do_hash k)) (start-AtStep m (do_hash k))
        (λ s. full (on_walk m (do_hash k) s) (on_walk-lt m (do_hash k) s pos)) lacks,
  )
