-- ===== src/Trunk/Layers.antt =====
-- src/io/k3_trunk.c: the layers that are pinned, and the largest of those that are not.
use isky.Prelude.{
  take, ℕ, zero, suc, ◌+◌, ◌%◌, ◌≤◌, ◌<◌, ◌≡◌, refl, ◌⊎◌, inl, inr, List, [], ◌∷◌, Bool-cases, some,
  ltb, length, get_elem?, get_or, drop, arith,
}
use isky.Trunk.{K3TrunkLayer, trunk_align, align_up, largest, streamed_size, pin_layers}

-- Every layer that is pinned fitted beside what was spent before the first of them.
pub pinned_fits :
    (widen budget sp : ℕ) (lay : List K3TrunkLayer) (j : ℕ) (l : K3TrunkLayer)
    → j < (pin_layers widen budget sp lay).0
    → get_elem? lay j ≡ some l
    → sp + (l.nbytes + widen) ≤ budget
unfolding pin_layers
pinned_fits widen budget sp [] j l lt h = absurd (ground arith)
pinned_fits widen budget sp (x ∷ lay) zero l lt h = ground arith
pinned_fits widen budget sp (x ∷ lay) (suc j) l lt h =
    elim (Bool-cases (ltb budget (sp + (x.nbytes + widen)))) [
      | inl stops ↦ absurd (ground arith)
      | inr on ↦
          omega (arith, pinned_fits widen budget (sp + (x.nbytes + widen)) lay j l (ground arith) h)
    ]

-- Less spent pins no fewer layers.
pub pin_layers_mono :
    (widen budget sp sq : ℕ) (lay : List K3TrunkLayer)
    → sp ≤ sq
    → (pin_layers widen budget sq lay).0 ≤ (pin_layers widen budget sp lay).0
unfolding pin_layers
pin_layers_mono widen budget sp sq [] le = omega arith
pin_layers_mono widen budget sp sq (l ∷ lay) le =
    let rest =
      pin_layers_mono widen budget (sp + (l.nbytes + widen)) (sq + (l.nbytes + widen)) lay
        (omega arith) in
    ground (arith, rest)

pub pin_layers_spent :
    (widen budget sp : ℕ) (lay : List K3TrunkLayer)
    → sp ≤ budget
    → ((pin_layers widen budget sp lay).1 ≤ budget) × (sp ≤ (pin_layers widen budget sp lay).1)
unfolding pin_layers
pin_layers_spent widen budget sp [] le = (le, omega arith)
pin_layers_spent widen budget sp (l ∷ lay) le =
    elim (Bool-cases (ltb budget (sp + (l.nbytes + widen)))) [
      | inl stops ↦ rw (pin_layers, stops) (le, omega arith)
      | inr on ↦
          let rest = pin_layers_spent widen budget (sp + (l.nbytes + widen)) lay (ground arith) in
          rw (pin_layers, on) (rest.0, omega (arith, rest.1))
    ]

-- what pinning these layers costs, each with its widen area
unfoldable pub pinned_bytes : ℕ → List K3TrunkLayer → ℕ
pinned_bytes widen [] = 0
pinned_bytes widen (l ∷ lay) = l.nbytes + widen + pinned_bytes widen lay

-- What is spent is what was spent before and the cost of the layers that are pinned.
pub pin_layers_sum :
    (widen budget sp : ℕ) (lay : List K3TrunkLayer)
    → (pin_layers widen budget sp lay).1
      ≡ sp + pinned_bytes widen (take (pin_layers widen budget sp lay).0 lay)
unfolding pin_layers pinned_bytes
pin_layers_sum widen budget sp [] = omega arith
pin_layers_sum widen budget sp (l ∷ lay) =
    elim (Bool-cases (ltb budget (sp + (l.nbytes + widen)))) [
      | inl stops ↦ rw (pin_layers, stops) (omega arith)
      | inr on ↦
          let rest = pin_layers_sum widen budget (sp + (l.nbytes + widen)) lay in
          rw (pin_layers, on) (omega (arith, rest))
    ]

largest_bound :
    (lay : List K3TrunkLayer) (j : ℕ) (l : K3TrunkLayer)
    → get_elem? lay j ≡ some l
    → l.nbytes ≤ largest lay
unfolding largest
largest_bound [] j l h = absurd (ground arith)
largest_bound (x ∷ lay) zero l h = ground arith
largest_bound (x ∷ lay) (suc j) l h = ground (arith, largest_bound lay j l h)

-- The largest layer from `m` on is the largest from `n` on, or it is one of those between.
pub largest_between :
    (lay : List K3TrunkLayer) (m n : ℕ)
    → m ≤ n
    → (largest (drop m lay) ≡ largest (drop n lay))
      ⊎ ((j : ℕ) × (l : K3TrunkLayer) × (j < n)
          × (get_elem? lay j ≡ some l)
          × (l.nbytes ≡ largest (drop m lay)))
unfolding largest
largest_between lay zero zero le = inl refl
largest_between [] zero (suc n) le = inl refl
largest_between [] (suc m) zero le = absurd (omega arith)
largest_between [] (suc m) (suc n) le = inl refl
largest_between (x ∷ lay) (suc m) zero le = absurd (omega arith)
largest_between (x ∷ lay) (suc m) (suc n) le = elim (largest_between lay m n (omega arith)) [
  | inl same ↦ inl same
  | inr (j, l, lt, here, size) ↦ inr (suc j, l, omega arith, here, size)
]
largest_between (x ∷ lay) zero (suc n) le = elim (Bool-cases (ltb (largest lay) x.nbytes)) [
  | inl first ↦ inr (0, x, omega arith, refl, rw (largest, first) refl)
  | inr later ↦ elim (largest_between lay zero n (omega arith)) [
    | inl same ↦ inl (rw (largest, later) same)
    | inr (j, l, lt, here, size) ↦ inr (suc j, l, omega arith, here, rw (largest, later) size)
  ]
]

abbrev pub no_layer : K3TrunkLayer
no_layer = record { file_off = 0; nbytes = 0; tensors = [] }

-- A layer from `m` on is at most the largest from `m` on.
pub from_bound :
    (lay : List K3TrunkLayer) (m k : ℕ)
    → m ≤ k
    → K3TrunkLayer.nbytes (get_or lay k no_layer) ≤ largest (drop m lay)
unfolding largest
from_bound [] m k le = omega arith
from_bound (x ∷ lay) zero zero le = ground arith
from_bound (x ∷ lay) zero (suc k) le = ground (arith, from_bound lay 0 k (omega arith))
from_bound (x ∷ lay) (suc m) zero le = absurd (omega arith)
from_bound (x ∷ lay) (suc m) (suc k) le = from_bound lay m k (omega arith)

pub largest-drop_mono :
    (lay : List K3TrunkLayer) (m n : ℕ) → m ≤ n → largest (drop n lay) ≤ largest (drop m lay)
unfolding largest
largest-drop_mono lay zero zero le = omega arith
largest-drop_mono [] zero (suc n) le = omega arith
largest-drop_mono [] (suc m) n le = ground (arith, none_left n)
  where
    none_left : (n : ℕ) → largest (drop n []) ≡ 0
    none_left zero = refl
    none_left (suc n) = refl
largest-drop_mono (x ∷ lay) zero (suc n) le =
    ground (arith, largest-drop_mono lay 0 n (omega arith))
largest-drop_mono (x ∷ lay) (suc m) zero le = absurd (omega arith)
largest-drop_mono (x ∷ lay) (suc m) (suc n) le = largest-drop_mono lay m n (omega arith)

pub nothing_left : (lay : List K3TrunkLayer) (m : ℕ) → length lay ≤ m → largest (drop m lay) ≡ 0
unfolding largest
nothing_left [] zero le = refl
nothing_left [] (suc m) le = refl
nothing_left (x ∷ lay) zero le = absurd (omega arith)
nothing_left (x ∷ lay) (suc m) le = nothing_left lay m (omega arith)

pub align_up_mono : (x y : ℕ) → x ≤ y → align_up x ≤ align_up y
unfolding align_up
align_up_mono x y le = omega arith

pub align_up_le : (x : ℕ) → x ≤ align_up x
unfolding align_up
align_up_le x = omega arith

pub align_up_self : (x : ℕ) → x % trunk_align ≡ 0 → align_up x ≡ x
unfolding align_up
align_up_self x e = omega arith

-- A layer that is not behind the last pinned one fits the size that the ring is given.
pub streamed_bound :
    (lay : List K3TrunkLayer) (m k : ℕ)
    → m ≤ k
    → K3TrunkLayer.nbytes (get_or lay k no_layer) ≤ streamed_size lay m
unfolding streamed_size
streamed_bound lay m k le = ground (arith, from_bound lay m k le, largest-drop_mono lay m k le)
