-- ===== src/Memory/Ring.antt =====
-- The well-formed states of the ring of agent/memory/memory.c, and one push.
use isky.Prelude.{
  ℕ, zero, suc, ◌+◌, ◌-◌, ◌%◌, ◌≤◌, ◌<◌, ◌≡◌, refl, sym, ◌∙◌, ap, ◌≢◌, [], ◌∷◌, ◌++◌, Text, ltb,
  get_or, set, length, drop, list_ext, length-append, length-set, length-drop, get_or-append_left,
  get_or-append_last, get_or-drop_one, get_or-set_self, get_or-set_ne, if◌then◌else◌, Bool-cases,
  inl, inr, arith, ltb→lt, lt→ltb,
}
use isky.Memory.{ShortTerm, push, place, items_from, items}

pub record IsValid (s : ShortTerm) : Type 0 where
  pub positive : 0 < s.cap
  pub full_length : length s.recent ≡ s.cap
  pub counted : s.count ≤ s.cap
  pub head_in : s.head < s.cap
  pub unrolled : s.count < s.cap → s.head ≡ 0

pub push-IsValid : (o : Text) (s : ShortTerm) → IsValid s → IsValid (push o s)
unfolding push
push-IsValid o s v = ground (arith, length-set s.recent s.count o, length-set s.recent s.head o)

mod_small : (x n : ℕ) → x < n → x % n ≡ x
mod_small x n h = grind arith

mod_wrap : (x n : ℕ) → n ≤ x → x < n + n → x % n ≡ x - n
mod_wrap x n h k = grind arith

-- The place of the `i`th item, with no division.
abbrev at : ShortTerm → ℕ → ℕ
at s i = if ltb (s.head + i) s.cap then s.head + i else s.head + i - s.cap

place-at : (s : ShortTerm) (i : ℕ) → IsValid s → i < s.count → place s i ≡ at s i
unfolding place
place-at s i v h = ground (arith, mod_wrap (s.head + i) s.cap, mod_small (s.head + i) s.cap)

length-items_from : (s : ShortTerm) (i left : ℕ) → length (items_from s i left) ≡ left
unfolding items_from
length-items_from s i zero = refl
length-items_from s i (suc left) = ap suc (length-items_from s (i + 1) left)

get_or-items_from :
    (s : ShortTerm) (i left k : ℕ)
    → k < left
    → get_or (items_from s i left) k [] ≡ get_or s.recent (place s (i + k)) []
unfolding items_from
get_or-items_from s i zero k h = absurd (omega arith)
get_or-items_from s i (suc left) zero h = let e : i + 0 ≡ i = omega arith in rw e refl
get_or-items_from s i (suc left) (suc k) h =
    let e : i + 1 + k ≡ i + suc k = omega arith in
    get_or-items_from s (i + 1) left k (omega arith) ∙ rw e refl

get_or-items :
    (s : ShortTerm) (k : ℕ)
    → IsValid s
    → k < s.count
    → get_or (items s) k [] ≡ get_or s.recent (at s k) []
unfolding items
get_or-items s k v h =
    get_or-items_from s 0 s.count k h
    ∙ ap (λ j. get_or s.recent j []) (ap (place s) (omega arith) ∙ place-at s k v h)

pub length-items : (s : ShortTerm) → length (items s) ≡ s.count
unfolding items
length-items s = length-items_from s 0 s.count

module _ (o : Text) (s : ShortTerm) (v : IsValid s) where
  push_room :
      s.count < s.cap → push o s ≡ record s { recent = set s.recent s.count o; count = s.count + 1 }
  unfolding push
  push_room h = rw (lt→ltb s.count s.cap h) refl

  push_full :
      s.count ≡ s.cap
      → push o s ≡ record s { recent = set s.recent s.head o; head = (s.head + 1) % s.cap }
  unfolding push
  push_full h = ground arith

  room_item :
      s.count < s.cap
      → (k : ℕ) → k < s.count + 1
      → get_or (set s.recent s.count o) k [] ≡ get_or (items s ++ o ∷ []) k []
  room_item room k lt = elim (Bool-cases (ltb k s.count)) [
    | inl old ↦
        let h : k < s.count = ltb→lt k s.count old in
        let e : at s k ≡ k = ground arith in
        get_or-set_ne s.recent s.count k o [] (omega arith)
        ∙ ap (λ j. get_or s.recent j []) (sym e)
        ∙ sym (get_or-items s k v h)
        ∙ sym (get_or-append_left (items s) (o ∷ []) k [] (omega (arith, length-items s)))
    | inr new ↦
        let e : s.count ≡ k = ground arith in
        ap (λ j. get_or (set s.recent s.count o) j []) (sym e)
        ∙ get_or-set_self s.recent s.count o [] (omega arith)
        ∙ sym (get_or-append_last (items s) o k [] (omega (arith, length-items s)))
  ]

  -- While there is room the new item comes last.
  pub push-items_room : s.count < s.cap → items (push o s) ≡ items s ++ o ∷ []
  push-items_room room =
      let s' : ShortTerm = record s { recent = set s.recent s.count o; count = s.count + 1 } in
      let v' : IsValid s' = rw (push_room room) at (push-IsValid o s v) in
      let n : length (items s') ≡ s.count + 1 = length-items s' in
      rw (push_room room) (
        list_ext (items s') (items s ++ o ∷ []) []
          (omega (arith, length-items s, length-append {0} (items s) (o ∷ [])))
          (λ k lt.
            let e : at s' k ≡ k = ground arith in
            get_or-items s' k v' (omega arith)
            ∙ ap (λ j. get_or (set s.recent s.count o) j []) e
            ∙ room_item room k (omega arith)))

  next_head : (s.head + 1) % s.cap ≡ (if ltb (s.head + 1) s.cap then s.head + 1 else 0)
  next_head = ground (arith, mod_small (s.head + 1) s.cap, mod_wrap (s.head + 1) s.cap)

  abbrev turned : ShortTerm
  turned = record s { recent = set s.recent s.head o; head = (s.head + 1) % s.cap }

  at-turned : (k : ℕ) → suc k < s.cap → at turned k ≡ at s (suc k)
  at-turned k h = ground (arith, next_head)

  at-turned_last : (k : ℕ) → suc k ≡ s.cap → at turned k ≡ s.head
  at-turned_last k h = ground (arith, next_head)

  at-ne-head : (k : ℕ) → suc k < s.cap → s.head ≢ at s (suc k)
  at-ne-head k h = ground arith

  full_item :
      s.count ≡ s.cap
      → (k : ℕ) → k < s.count
      → get_or (set s.recent s.head o) (at turned k) [] ≡ get_or (drop 1 (items s) ++ o ∷ []) k []
  full_item full k lt = elim (Bool-cases (ltb (suc k) s.cap)) [
    | inl old ↦
        let h : suc k < s.cap = ltb→lt (suc k) s.cap old in
        ap (λ j. get_or (set s.recent s.head o) j []) (at-turned k h)
        ∙ get_or-set_ne s.recent s.head (at s (suc k)) o [] (at-ne-head k h)
        ∙ sym (get_or-items s (suc k) v (omega arith))
        ∙ sym (get_or-drop_one (items s) k [])
        ∙ sym (
            get_or-append_left (drop 1 (items s)) (o ∷ []) k []
              (omega (arith, length-drop {0} 1 (items s), length-items s)))
    | inr new ↦
        let e : suc k ≡ s.cap = ground arith in
        ap (λ j. get_or (set s.recent s.head o) j []) (at-turned_last k e)
        ∙ get_or-set_self s.recent s.head o [] (omega arith)
        ∙ sym (
            get_or-append_last (drop 1 (items s)) o k []
              (omega (arith, length-drop {0} 1 (items s), length-items s)))
  ]

  -- A full ring drops its oldest item for the new one.
  pub push-items_full : s.count ≡ s.cap → items (push o s) ≡ drop 1 (items s) ++ o ∷ []
  push-items_full full =
      let v' : IsValid turned = rw (push_full full) at (push-IsValid o s v) in
      rw (push_full full) (
        list_ext (items turned) (drop 1 (items s) ++ o ∷ []) []
          (omega (
            arith,
            length-items turned,
            length-items s,
            length-drop {0} 1 (items s),
            length-append {0} (drop 1 (items s)) (o ∷ []),
          ))
          (λ k lt.
            let n : length (items turned) ≡ s.count = length-items turned in
            get_or-items turned k v' (omega arith) ∙ full_item full k (omega arith)))
