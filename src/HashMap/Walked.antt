-- ===== src/HashMap/Walked.antt =====
-- Where the iterator of `Map` goes: from slot to slot that has an entry.
use corecommon.Common.{
  ℕ, zero, suc, ◌+◌, ◌*◌, ◌/◌, ◌%◌, ◌^◌, ◌≤◌, ◌<◌, ◌≡◌, refl, ap, ◌∙◌, Bool, true, false, not, ◌&&◌,
  some, List, [], ◌∷◌, length, map, ltb, ◌==◌, if◌then◌else◌, arith, Bool-cases, inl, inr, ◌⊎◌,
}
use corecommon.HashMap.Table.{Key, Value, HashMap, byte}
use corecommon.HashMap.Probing.{bucket}
use corecommon.HashMap.Iterating.{Iterator, marks, settle, step_on, begin, at_end, visit_loop}

abbrev pub at_slot : ℕ → Iterator
at_slot c = record { c = c; iter = c / 16 }

-- The step of the inner loop.
abbrev stepped : ℕ → Iterator
stepped c =
    let c' = (c + 1) % 2 ^ 64 in
    record { c = c'; iter = if c' % 16 == 0 then c / 16 + 1 else c / 16 }

stepped-at_slot : (c : ℕ) → c + 1 < 2 ^ 64 → stepped c ≡ at_slot (c + 1)
stepped-at_slot c h =
    let up : (c + 1) % 2 ^ 64 ≡ c + 1 = omega arith in
    elim (Bool-cases ((c + 1) % 16 == 0)) [
      | inl e ↦ let q : c / 16 + 1 ≡ (c + 1) / 16 = ground arith in rw up (rw e (rw q refl))
      | inr e ↦ let q : c / 16 ≡ (c + 1) / 16 = ground arith in rw up (rw e (rw q refl))
    ]

-- The step at the start of `operator++`.
abbrev on_slot : ℕ → Iterator
on_slot c =
    let c' = (c + 1) % 2 ^ 64 in
    record { c = c'; iter = if c' % 16 == 0 && not (c' == 0) then c / 16 + 1 else c / 16 }

on_slot-at_slot : (c : ℕ) → c + 1 < 2 ^ 64 → on_slot c ≡ at_slot (c + 1)
on_slot-at_slot c h =
    let up : (c + 1) % 2 ^ 64 ≡ c + 1 = omega arith in
    let more : (c + 1 == 0) ≡ false = ground arith in
    elim (Bool-cases ((c + 1) % 16 == 0)) [
      | inl e ↦ let q : c / 16 + 1 ≡ (c + 1) / 16 = ground arith in rw up (rw (e, more) (rw q refl))
      | inr e ↦ let q : c / 16 ≡ (c + 1) / 16 = ground arith in rw up (rw e (rw q refl))
    ]

and_false : (b : Bool) → (b && false) ≡ false
and_false true = refl
and_false false = refl

module _ {ℓ} {K V : Type ℓ} where
  abbrev pub live : HashMap K V → ℕ → Bool
  live m c = marks (byte m.control_bytes (c / 16) (c % 16))

  -- The first of the n slots from c on that has an entry, or the slot behind them.
  pub next_slot : HashMap K V → ℕ → ℕ → ℕ
  next_slot m zero c = c
  next_slot m (suc n) c = let rest = next_slot m n (c + 1) in if live m c then c else rest

  -- Those of the n slots from c on that have an entry.
  unfoldable pub slots : HashMap K V → ℕ → ℕ → List ℕ
  slots m zero c = []
  slots m (suc n) c = let rest = slots m n (c + 1) in if live m c then c ∷ rest else rest

  -- The sizes of a table whose loops do not wrap.
  pub record Sized (m : HashMap K V) : Type 0 where
    pub groups : ℕ
    pub whole : length m.buckets ≡ 16 * groups
    pub small : length m.buckets < 2 ^ 64

  settle-next_slot :
      (fuel n c : ℕ) (m : HashMap K V) (at_test : Bool)
      → Sized m
      → c + n ≡ length m.buckets
      → n < fuel
      → (c % 16 ≡ 0 → at_test ≡ true)
      → settle fuel m at_test (at_slot c) ≡ some (at_slot (next_slot m n c))
  unfolding settle next_slot
  settle-next_slot zero n c m at_test s e l t = absurd (omega arith)
  settle-next_slot (suc fuel) zero c m at_test s e l t =
      let here : at_test ≡ true = t (omega (arith, s.whole)) in
      let over : ltb c (length m.buckets) ≡ false = ground arith in rw (here, over) refl
  settle-next_slot (suc fuel) (suc n) c m at_test s e l t =
      let under : ltb c (length m.buckets) ≡ true = ground arith in
      let below : c + 1 < 2 ^ 64 = omega (arith, s.small) in
      elim (Bool-cases (live m c)) [
        | inl lv ↦ rw (under, and_false at_test) (rw lv refl)
        | inr lv ↦
            rw (under, and_false at_test)
              (rw lv (
                ap (settle fuel m _) (stepped-at_slot c below)
                ∙ settle-next_slot fuel n (c + 1) m _ s (omega arith) (omega arith)
                    (λ z. ground arith)))
      ]

  next_slot-le : (m : HashMap K V) (n c : ℕ) → (c ≤ next_slot m n c) × (next_slot m n c ≤ c + n)
  unfolding next_slot
  next_slot-le m zero c = (omega arith, omega arith)
  next_slot-le m (suc n) c =
      let (lo, hi) = next_slot-le m n (c + 1) in
      elim (Bool-cases (live m c)) [
        | inl lv ↦ rw lv (omega arith, omega arith)
        | inr lv ↦ rw lv (omega (arith, lo), omega (arith, hi))
      ]

  -- The slots from c on are the first of them and those behind it.
  slots-next_slot :
      (m : HashMap K V) (n c : ℕ)
      → ((next_slot m n c ≡ c + n) × (slots m n c ≡ []))
        ⊎ ((k : ℕ) × (next_slot m n c + suc k ≡ c + n)
            × (slots m n c ≡ next_slot m n c ∷ slots m k (next_slot m n c + 1)))
  unfolding next_slot slots
  slots-next_slot m zero c = inl (omega arith, refl)
  slots-next_slot m (suc n) c = elim (Bool-cases (live m c)) [
    | inl lv ↦ inr (n, rw lv (omega arith), rw lv refl)
    | inr lv ↦ rw lv elim (slots-next_slot m n (c + 1)) [
      | inl (e, f) ↦ inl (omega (arith, e), f)
      | inr (k, e, f) ↦ inr (k, omega (arith, e), f)
    ]
  ]

  step_on-at_slot :
      (fuel n c : ℕ) (m : HashMap K V)
      → Sized m
      → c + suc n ≡ length m.buckets
      → n < fuel
      → step_on fuel m (at_slot c) ≡ some (at_slot (next_slot m n (c + 1)))
  unfolding step_on
  step_on-at_slot fuel n c m s e l =
      ap (settle fuel m true) (on_slot-at_slot c (omega (arith, s.small)))
      ∙ settle-next_slot fuel n (c + 1) m true s (omega arith) l (λ z. refl)

  pub begin-at_slot :
      (fuel : ℕ) (m : HashMap K V)
      → Sized m
      → length m.buckets < fuel
      → begin fuel m ≡ some (at_slot (next_slot m (length m.buckets) 0))
  unfolding begin step_on
  begin-at_slot fuel m s l =
      settle-next_slot fuel (length m.buckets) 0 m true s (omega arith) l (λ z. refl)

module _ {ℓ} {K V : Type ℓ} ⦃key : Key K⦄ ⦃value : Value V⦄ where
  -- The entries of a map in the order of their slots.
  unfoldable pub listed : HashMap K V → List (K × V)
  listed m = map (bucket m) (slots m (length m.buckets) 0)

  pub visit_loop-slots :
      (rounds fuel n c : ℕ) (m : HashMap K V)
      → Sized m
      → c + n ≡ length m.buckets
      → n < rounds
      → n < fuel
      → visit_loop rounds fuel m (at_slot (next_slot m n c)) ≡ some (map (bucket m) (slots m n c))
  unfolding visit_loop
  visit_loop-slots zero fuel n c m s e r l = absurd (omega arith)
  visit_loop-slots (suc rounds) fuel n c m s e r l = elim (slots-next_slot m n c) [
    | inl (at, none_left) ↦
        let over : at_end m (at_slot (next_slot m n c)) ≡ true = ground (arith, at) in
        rw (over, none_left) refl
    | inr (k, at, more) ↦
        let under : at_end m (at_slot (next_slot m n c)) ≡ false = ground (arith, at) in
        let (lo, hi) = next_slot-le m n c in
        let on =
          step_on-at_slot fuel k (next_slot m n c) m s (omega (arith, at))
            (omega (arith, at, lo)) in
        let rest =
          visit_loop-slots rounds fuel k (next_slot m n c + 1) m s (omega (arith, at))
            (omega (arith, at, lo)) (omega (arith, at, lo)) in
        rw (under, more, on, rest) refl
  ]
