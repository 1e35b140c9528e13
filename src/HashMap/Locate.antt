-- ===== src/HashMap/Locate.antt =====
-- Where the loops over the groups end, and that they end.
use corecommon.Common.{
  ℕ, zero, suc, ◌+◌, ◌/◌, ◌%◌, ◌^◌, ◌≤◌, ◌<◌, ◌≡◌, refl, sym, ◌∙◌, true, false, Option, none, some,
  length, ◌>>=◌, arith, Bool-cases, Option-cases, inl, inr, ℕ_discrete,
}
use corecommon.HashMap.Table.{Key, Value, HashMap, Probe, byte}
use corecommon.HashMap.Probing.{slot_index, start, next, match_group}
use corecommon.HashMap.Methods.{Located, found, absent, locate, find_loop}
use corecommon.HashMap.Matching.{
  walk, key_at, IsFull, Lacks, match_found, match_missed, match_full, match_open, match_keeps,
}

module _ {ℓ} {K V : Type ℓ} ⦃key : Key K⦄ ⦃value : Value V⦄ where
  -- The group that the hash leads to after `j` steps.
  abbrev pub on_walk : HashMap K V → ℕ → ℕ → ℕ
  on_walk m h j = let n = length m.control_bytes in walk n (h / 2 ^ 8 % n) j

  -- A probe for the hash that has made `j` steps and stands before its group.
  pub record AtStep (m : HashMap K V) (h j : ℕ) (p : Probe) : Type 0 where
    pub on : p.i ≡ on_walk m h j
    pub steps : p.probe_i ≡ j % 2 ^ 32
    pub before : p.c ≡ 0
    pub aims : p.target ≡ h % 2 ^ 8

  pub start-AtStep : (m : HashMap K V) (h : ℕ) → AtStep m h 0 (start m h)
  unfolding start
  start-AtStep m h = record { on = refl; steps = refl; before = refl; aims = refl }

  pub next-AtStep :
      (m : HashMap K V) (h j : ℕ) (p : Probe)
      → p.i ≡ on_walk m h j
      → p.probe_i ≡ j % 2 ^ 32
      → p.target ≡ h % 2 ^ 8
      → AtStep m h (suc j) (next m p)
  unfolding next
  next-AtStep m h j p on steps aims =
      let e : (p.probe_i + 1) % 2 ^ 32 ≡ suc j % 2 ^ 32 = omega arith in
      record { on = rw (on, e); steps = e; before = refl; aims = aims }

  -- The loop ended at a slot with the key,
  pub record FoundAt (m : HashMap K V) (k : K) (h at : ℕ) (p : Probe) : Type ℓ where
    pub step : ℕ
    pub on : p.i ≡ on_walk m h step
    pub slot : p.c < 16
    pub place : at ≡ slot_index p.i p.c
    pub tag : byte m.control_bytes p.i p.c ≡ h % 2 ^ 8
    pub holds : key_at m p.i p.c ≡ k

  -- or at the first group with an empty byte, and no group up to it has the key.
  pub record AbsentFrom (m : HashMap K V) (k : K) (h j : ℕ) (p : Probe) : Type ℓ where
    pub last : ℕ
    pub on : p.i ≡ on_walk m h last
    pub from : j ≤ last
    pub aims : p.target ≡ h % 2 ^ 8
    pub full : (s : ℕ) → j ≤ s → s < last → IsFull m (on_walk m h s)
    pub empty : (c : ℕ) × (c < 16) × (byte m.control_bytes (on_walk m h last) c ≡ 0)
    pub lacks : (s : ℕ) → j ≤ s → s ≤ last → Lacks m (on_walk m h s) (h % 2 ^ 8) k

  abbrev pub Ends : HashMap K V → K → ℕ → ℕ → Located → Type ℓ
  Ends m k h j (found at p) = FoundAt m k h at p
  Ends m k h j (absent p) = AbsentFrom m k h j p

  -- The group at step `j` is full and lacks the key: what holds from step `j + 1` on holds from `j`.
  Ends-back :
      (m : HashMap K V) (k : K) (h j : ℕ) (r : Located)
      → IsFull m (on_walk m h j)
      → Lacks m (on_walk m h j) (h % 2 ^ 8) k
      → Ends m k h (suc j) r
      → Ends m k h j r
  Ends-back m k h j (found at p) f l e = e
  Ends-back m k h j (absent p) f l e = record {
    last = e.last;
    on = e.on;
    from = omega (arith, e.from);
    aims = e.aims;
    full = λ s lo hi. elim (ℕ_discrete j s) [
      | yes same ↦ rw (← same) f
      | no ne ↦ e.full s (omega arith) hi
    ];
    empty = e.empty;
    lacks = λ s lo hi. elim (ℕ_discrete j s) [
      | yes same ↦ rw (← same) l
      | no ne ↦ e.lacks s (omega arith) hi
    ];
  }

  module _ (fuel : ℕ) (m : HashMap K V) (p : Probe) (k : K) where
    locate_hit :
        (at : ℕ)
        → (match_group m p k).0.found ≡ some at
        → locate (suc fuel) m p k ≡ some (found at (match_group m p k).1)
    unfolding locate
    locate_hit at e = ground arith

    locate_stop :
        (match_group m p k).0.found ≡ none
        → (match_group m p k).0.cont ≡ false
        → locate (suc fuel) m p k ≡ some (absent (match_group m p k).1)
    unfolding locate
    locate_stop e f = ground arith

    locate_more :
        (match_group m p k).0.found ≡ none
        → (match_group m p k).0.cont ≡ true
        → locate (suc fuel) m p k ≡ locate fuel m (next m (match_group m p k).1) k
    unfolding locate
    locate_more e f = ground arith

  pub locate-Ends :
      (fuel : ℕ) (m : HashMap K V) (k : K) (h j : ℕ) (p : Probe) (r : Located)
      → AtStep m h j p
      → locate fuel m p k ≡ some r
      → Ends m k h j r
  unfolding locate
  locate-Ends zero m k h j p r a e = absurd (cc)
  locate-Ends (suc fuel) m k h j p r a e =
      let p' = (match_group m p k).1 in
      let (same, steps, aims) = match_keeps m p k in
      elim (Option-cases (match_group m p k).0.found) [
        | inr (at, hit) ↦
            let q : r ≡ found at p' = cc (locate_hit fuel m p k at hit) in
            let w = match_found m p k at a.before hit in
            rw q (record {
              step = j;
              on = same ∙ a.on;
              slot = w.slot;
              place = w.place;
              tag = w.tag ∙ a.aims;
              holds = w.holds;
            })
        | inl miss ↦
            let lacks = match_missed m p k a.before miss in
            elim (Bool-cases (match_group m p k).0.cont) [
              | inl more ↦
                  Ends-back m k h j r (rw (← a.on) (match_full m p k a.before more))
                    (rw (← a.on, ← a.aims) lacks)
                    (locate-Ends fuel m k h (suc j) (next m p') r
                      (next-AtStep m h j p' (same ∙ a.on) (steps ∙ a.steps) (aims ∙ a.aims))
                      (sym (locate_more fuel m p k miss more) ∙ e))
              | inr done ↦
                  let q : r ≡ absent p' = cc (locate_stop fuel m p k miss done) in
                  rw q (record {
                    last = j;
                    on = same ∙ a.on;
                    from = omega arith;
                    aims = aims ∙ a.aims;
                    full = λ s lo hi. absurd (omega arith);
                    empty = rw (← a.on) (match_open m p k a.before done);
                    lacks = λ s lo hi.
                        let here : j ≡ s = omega arith in rw (← here, ← a.on, ← a.aims) lacks;
                  })
            ]
      ]

  -- The loop ends, with fuel for the steps to a group that has an empty byte.
  pub locate_total :
      (fuel : ℕ) (m : HashMap K V) (k : K) (h j last c : ℕ) (p : Probe)
      → AtStep m h j p
      → j ≤ last
      → last < j + fuel
      → c < 16
      → byte m.control_bytes (on_walk m h last) c ≡ 0
      → (r : Located) × (locate fuel m p k ≡ some r)
  locate_total zero m k h j last c p a lo hi hc z = absurd (omega arith)
  locate_total (suc fuel) m k h j last c p a lo hi hc z =
      let p' = (match_group m p k).1 in
      let (same, steps, aims) = match_keeps m p k in
      elim (Option-cases (match_group m p k).0.found) [
        | inr (at, hit) ↦ (found at p', locate_hit fuel m p k at hit)
        | inl miss ↦ elim (Bool-cases (match_group m p k).0.cont) [
          | inr done ↦ (absent p', locate_stop fuel m p k miss done)
          | inl more ↦ elim (ℕ_discrete j last) [
            | yes here ↦ absurd (match_full m p k a.before more c hc (rw (a.on, here) z))
            | no ne ↦
                let (r, e) =
                  locate_total fuel m k h (suc j) last c (next m p')
                    (next-AtStep m h j p' (same ∙ a.on) (steps ∙ a.steps) (aims ∙ a.aims))
                    (omega arith) (omega arith) hc z in
                (r, locate_more fuel m p k miss more ∙ e)
          ]
        ]
      ]

  -- `FindIterator::operator++` goes through the same groups.
  abbrev pub to_find : HashMap K V → Located → Option ℕ × Probe
  to_find m (found at p) = (some at, p)
  to_find m (absent p) = (none, next m p)

  pub find_loop-locate :
      (fuel : ℕ) (m : HashMap K V) (p : Probe) (k : K)
      → find_loop fuel m p k ≡ (locate fuel m p k >>= λ r. some (to_find m r))
  unfolding find_loop locate
  find_loop-locate zero m p k = refl
  find_loop-locate (suc fuel) m p k =
      ground (arith, find_loop-locate fuel m (next m (match_group m p k).1) k)
