-- ===== src/HashMap/Matching.antt =====
-- What `match` finds in one group.
use corecommon.Common.{
  ℕ, zero, suc, ◌+◌, ◌-◌, ◌%◌, ◌^◌, ◌≤◌, ◌<◌, ◌≡◌, ◌≢◌, refl, ap, true, false, none, some, [],
  get_or, ◌==◌, ◌&&◌, arith, Bool-cases, Option-cases, inl, inr, ℕ_discrete,
}
use corecommon.HashMap.Table.{Key, Value, num_control_bytes, HashMap, Probe, byte}
use corecommon.HashMap.Probing.{slot_index, next_index, bucket, scan, match_group}
use corecommon.HashMap.Groups.{has_no_empty-true, has_no_empty-false}

-- The group that a probe is at after `j` steps from group `i`.
abbrev pub walk : ℕ → ℕ → ℕ → ℕ
walk size i zero = i
walk size i (suc j) = next_index size (walk size i j) (suc j % 2 ^ 32)

module _ {ℓ} {K V : Type ℓ} ⦃key : Key K⦄ ⦃value : Value V⦄ where
  abbrev pub key_at : HashMap K V → ℕ → ℕ → K
  key_at m i c = (bucket m (slot_index i c)).0

  abbrev pub value_at : HashMap K V → ℕ → ℕ → V
  value_at m i c = (bucket m (slot_index i c)).1

  -- No byte of the group is 0.
  abbrev pub IsFull : HashMap K V → ℕ → Type 0
  IsFull m i = (c : ℕ) → c < 16 → byte m.control_bytes i c ≢ 0

  -- No slot of the group holds the key under the byte.
  abbrev pub Lacks : HashMap K V → ℕ → ℕ → K → Type ℓ
  Lacks m i b k = (c : ℕ) → c < 16 → byte m.control_bytes i c ≡ b → key_at m i c ≢ k

  scan-some :
      (m : HashMap K V) (p : Probe) (k : K) (rounds c f : ℕ)
      → scan m p k rounds c ≡ some f
      → (f < c + rounds) × (byte m.control_bytes p.i f ≡ p.target) × (key_at m p.i f ≡ k)
  unfolding scan
  scan-some m p k zero c f h = absurd (cc)
  scan-some m p k (suc rounds) c f h =
      elim (Bool-cases (byte m.control_bytes p.i c == p.target && key.equal (key_at m p.i c) k)) [
        | inl e ↦
            let f' : c ≡ f = ground arith in
            rw (← f') (ground (arith, key.equal_iff (key_at m p.i c) k))
        | inr e ↦
            let (bound, tag, holds) = scan-some m p k rounds (c + 1) f (ground arith) in
            (omega arith, tag, holds)
      ]

  scan-none :
      (m : HashMap K V) (p : Probe) (k : K) (rounds c : ℕ)
      → scan m p k rounds c ≡ none
      → (s : ℕ) → c ≤ s
      → s < c + rounds
      → byte m.control_bytes p.i s ≡ p.target
      → key_at m p.i s ≢ k
  unfolding scan
  scan-none m p k zero c h s lo hi b = absurd (omega arith)
  scan-none m p k (suc rounds) c h s lo hi b =
      elim (Bool-cases (byte m.control_bytes p.i c == p.target && key.equal (key_at m p.i c) k)) [
        | inl e ↦ absurd (ground arith)
        | inr e ↦ elim (ℕ_discrete s c) [
          | yes same ↦ rw same (
              ground (
                arith,
                key.equal_iff (key_at m p.i c) k,
                ap (λ x. byte m.control_bytes p.i x) same,
              ))
          | no ne ↦ scan-none m p k rounds (c + 1) (ground arith) s (omega arith) (omega arith) b
        ]
      ]

  -- A match is at a slot of the group that has the target byte and the key.
  pub record MatchAt (m : HashMap K V) (p : Probe) (k : K) (at : ℕ) (p' : Probe) : Type ℓ where
    pub same_group : p'.i ≡ p.i
    pub slot : p'.c < 16
    pub place : at ≡ slot_index p'.i p'.c
    pub tag : byte m.control_bytes p'.i p'.c ≡ p.target
    pub holds : key_at m p'.i p'.c ≡ k

  pub match_found :
      (m : HashMap K V) (p : Probe) (k : K) (at : ℕ)
      → p.c ≡ 0
      → (match_group m p k).0.found ≡ some at
      → MatchAt m p k at (match_group m p k).1
  unfolding match_group
  match_found m p k at z h = elim (Option-cases (scan m p k (num_control_bytes - p.c) p.c)) [
    | inl e ↦ absurd (ground arith)
    | inr (f, e) ↦
        let (bound, tag, holds) = scan-some m p k (num_control_bytes - p.c) p.c f e in
        rw (e, match_group)
          (record {
            same_group = refl;
            slot = omega arith;
            place = ground arith;
            tag = tag;
            holds = holds;
          })
  ]

  pub match_missed :
      (m : HashMap K V) (p : Probe) (k : K)
      → p.c ≡ 0
      → (match_group m p k).0.found ≡ none
      → Lacks m p.i p.target k
  unfolding match_group
  match_missed m p k z h = elim (Option-cases (scan m p k (num_control_bytes - p.c) p.c)) [
    | inl e ↦
        λ c hc b. scan-none m p k (num_control_bytes - p.c) p.c e c (omega arith) (omega arith) b
    | inr (f, e) ↦ absurd (ground arith)
  ]

  pub match_full :
      (m : HashMap K V) (p : Probe) (k : K)
      → p.c ≡ 0
      → (match_group m p k).0.cont ≡ true
      → IsFull m p.i
  unfolding match_group
  match_full m p k z h c hc =
      has_no_empty-true num_control_bytes 0 (get_or m.control_bytes p.i []) (ground arith) c
        (omega arith) (omega arith)

  pub match_open :
      (m : HashMap K V) (p : Probe) (k : K)
      → p.c ≡ 0
      → (match_group m p k).0.cont ≡ false
      → (c : ℕ) × (c < 16) × (byte m.control_bytes p.i c ≡ 0)
  unfolding match_group
  match_open m p k z h =
      let (s, lo, hi, e) =
        has_no_empty-false num_control_bytes 0 (get_or m.control_bytes p.i []) (ground arith) in
      (s, omega arith, e)

  -- `match` moves the cursor within its group only.
  pub match_keeps :
      (m : HashMap K V) (p : Probe) (k : K)
      → let p' = (match_group m p k).1 in
        (p'.i ≡ p.i) × (p'.probe_i ≡ p.probe_i) × (p'.target ≡ p.target)
  unfolding match_group
  match_keeps m p k = ground arith
