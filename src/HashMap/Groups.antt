-- ===== src/HashMap/Groups.antt =====
-- What the loops over one group of control bytes find, and what a write to a byte changes.
use corecommon.Common.{
  ℕ, zero, suc, ◌+◌, ◌≤◌, ◌<◌, ◌≡◌, ◌≢◌, true, false, some, List, [], length, get_or, set, ◌==◌,
  arith, Bool-cases, inl, inr, ◌⊎◌, get_or-set_self, get_or-set_ne, length-set, set_beyond, ◌||◌,
  ℕ_discrete, dec_lt,
}
use corecommon.HashMap.Table.{sentinel, byte, set_byte, has_no_empty, first_free}

-- `has_no_empty` says that no byte of its range is 0 ...
pub has_no_empty-true :
    (rounds c : ℕ) (g : List ℕ)
    → has_no_empty rounds c g ≡ true
    → (s : ℕ) → c ≤ s
    → s < c + rounds
    → get_or g s 0 ≢ 0
unfolding has_no_empty
has_no_empty-true zero c g h s lo hi = absurd (omega arith)
has_no_empty-true (suc rounds) c g h s lo hi = elim (ℕ_discrete s c) [
  | yes e ↦ rw e (ground arith)
  | no ne ↦ has_no_empty-true rounds (c + 1) g (ground arith) s (omega arith) (omega arith)
]

-- ... or that one is.
pub has_no_empty-false :
    (rounds c : ℕ) (g : List ℕ)
    → has_no_empty rounds c g ≡ false
    → (s : ℕ) × (c ≤ s) × (s < c + rounds) × (get_or g s 0 ≡ 0)
unfolding has_no_empty
has_no_empty-false zero c g h = absurd (cc)
has_no_empty-false (suc rounds) c g h = elim (Bool-cases (get_or g c 0 == 0)) [
  | inl e ↦ (c, omega arith, omega arith, ground arith)
  | inr e ↦
      let (s, lo, hi, z) = has_no_empty-false rounds (c + 1) g (ground arith) in
      (s, omega arith, omega arith, z)
]

-- With an empty byte in its range `first_free` finds a slot, which holds 0 or the sentinel.
pub first_free-some :
    (rounds c : ℕ) (g : List ℕ) (s : ℕ)
    → c ≤ s
    → s < c + rounds
    → get_or g s 0 ≡ 0
    → (f : ℕ) × (first_free rounds c g ≡ some f)
      × (f < c + rounds)
      × ((get_or g f 0 ≡ 0) ⊎ (get_or g f 0 ≡ sentinel))
unfolding first_free
first_free-some zero c g s lo hi z = absurd (omega arith)
first_free-some (suc rounds) c g s lo hi z = elim (ℕ_discrete s c) [
  | yes e ↦ let z' : get_or g c 0 ≡ 0 = rw e at z in (c, rw z', omega arith, inl z')
  | no ne ↦
      let (f, found, bound, free) =
        first_free-some rounds (c + 1) g s (omega arith) (omega arith) z in
      elim (Bool-cases ((get_or g c 0 == 0) || (get_or g c 0 == sentinel))) [
        | inl e ↦ (c, rw e, omega arith, ground arith)
        | inr e ↦ (f, rw e found, omega arith, free)
      ]
]

pub byte-set_byte_self :
    (groups : List (List ℕ)) (i c v : ℕ)
    → i < length groups
    → c < length (get_or groups i [])
    → byte (set_byte groups i c v) i c ≡ v
byte-set_byte_self groups i c v hi hc =
    rw (get_or-set_self groups i _ [] hi) (get_or-set_self _ c v 0 hc)

pub byte-set_byte_ne :
    (groups : List (List ℕ)) (i c v i' c' : ℕ)
    → (i ≢ i') ⊎ (c ≢ c')
    → byte (set_byte groups i c v) i' c' ≡ byte groups i' c'
byte-set_byte_ne groups i c v i' c' (inl ne) = rw (get_or-set_ne groups i i' _ [] ne)
byte-set_byte_ne groups i c v i' c' (inr ne) = elim (ℕ_discrete i i') [
  | no far ↦ rw (get_or-set_ne groups i i' _ [] far)
  | yes e ↦ elim (dec_lt i (length groups)) [
    | no out ↦ rw (set_beyond groups i (set (get_or groups i []) c v) (omega arith))
    | yes in_range ↦ rw (← e) (
        rw (get_or-set_self groups i (set (get_or groups i []) c v) [] in_range)
          (get_or-set_ne (get_or groups i []) c c' v 0 ne))
  ]
]

pub length-set_byte :
    (groups : List (List ℕ)) (i c v g : ℕ)
    → length (get_or (set_byte groups i c v) g []) ≡ length (get_or groups g [])
length-set_byte groups i c v g = elim (ℕ_discrete i g) [
  | no far ↦ rw (get_or-set_ne groups i g (set (get_or groups i []) c v) [] far)
  | yes e ↦ elim (dec_lt i (length groups)) [
    | no out ↦ rw (set_beyond groups i (set (get_or groups i []) c v) (omega arith))
    | yes in_range ↦ rw (← e) (
        rw (get_or-set_self groups i (set (get_or groups i []) c v) [] in_range)
          (length-set (get_or groups i []) c v))
  ]
]
