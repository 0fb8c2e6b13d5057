-- ===== src/Memory/Window.antt =====
-- The ring of agent/memory/memory.c against the list of all observations.
use mathlib.Core.List.{append-nil, append_assoc}
use isky.Prelude.{
  ℕ, zero, suc, ◌-◌, ◌≤◌, ◌<◌, ◌≡◌, refl, sym, ◌∙◌, ap, List, [], ◌∷◌, ◌++◌, Bool, ℤ, pos, negsuc,
  Text, positive_or, ltb, length, drop, length-append, length-drop, length-replicate, Bool-cases,
  inl, inr, arith, ltb→lt,
}
use isky.Memory.{ShortTerm, memory_init, push, items}
use isky.Memory.Ring.{IsValid, push-IsValid, length-items, push-items_room, push-items_full}

-- The last `cap` of the observations.
pub window : ℕ → List Text → List Text
window cap history = drop (length history - cap) history

-- The ring, given the observations one by one.
pub push_all : List Text → ShortTerm → ShortTerm
push_all [] s = s
push_all (o ∷ rest) s = push_all rest (push o s)

drop-append : (n : ℕ) (xs ys : List Text) → n ≤ length xs → drop n (xs ++ ys) ≡ drop n xs ++ ys
drop-append zero xs ys h = refl
drop-append (suc n) [] ys h = absurd (omega arith)
drop-append (suc n) (x ∷ xs) ys h = drop-append n xs ys (omega arith)

drop-drop_one : (n : ℕ) (xs : List Text) → drop 1 (drop n xs) ≡ drop (suc n) xs
drop-drop_one zero xs = refl
drop-drop_one (suc n) [] = refl
drop-drop_one (suc n) (x ∷ xs) = drop-drop_one n xs

pub record Tracks (cap : ℕ) (s : ShortTerm) (history : List Text) : Type 0 where
  pub valid : IsValid s
  pub capacity : s.cap ≡ cap
  pub window_held : items s ≡ window cap history

cap-push : (o : Text) (s : ShortTerm) → (push o s).cap ≡ s.cap
unfolding push
cap-push o s = ground arith

count-window :
    (cap : ℕ) (s : ShortTerm) (history : List Text)
    → Tracks cap s history
    → s.count ≡ length history - (length history - cap)
unfolding window
count-window cap s history t =
    sym (length-items s) ∙ ap length t.window_held ∙ length-drop (length history - cap) history

window-snoc_room :
    (cap : ℕ) (history : List Text) (o : Text)
    → length history < cap
    → window cap (history ++ o ∷ []) ≡ window cap history ++ o ∷ []
unfolding window
window-snoc_room cap history o h =
    let e : length (history ++ o ∷ []) - cap ≡ 0 =
      omega (arith, length-append {0} history (o ∷ [])) in
    let f : length history - cap ≡ 0 = omega arith in rw (e, f) refl

window-snoc_full :
    (cap : ℕ) (history : List Text) (o : Text)
    → 0 < cap
    → cap ≤ length history
    → window cap (history ++ o ∷ []) ≡ drop 1 (window cap history) ++ o ∷ []
unfolding window
window-snoc_full cap history o p h =
    let n = length history - cap in
    let e : length (history ++ o ∷ []) - cap ≡ suc n =
      omega (arith, length-append {0} history (o ∷ [])) in
    ap (λ k. drop k (history ++ o ∷ [])) e
    ∙ drop-append (suc n) history (o ∷ []) (omega arith)
    ∙ ap (λ l. l ++ o ∷ []) (sym (drop-drop_one n history))

Tracks-push :
    (cap : ℕ) (s : ShortTerm) (history : List Text) (o : Text)
    → Tracks cap s history
    → Tracks cap (push o s) (history ++ o ∷ [])
Tracks-push cap s history o t = record {
  valid = push-IsValid o s t.valid;
  capacity = cap-push o s ∙ t.capacity;
  window_held = elim (Bool-cases (ltb s.count s.cap)) [
    | inl room ↦
        let h : s.count < s.cap = ltb→lt s.count s.cap room in
        push-items_room o s t.valid h
        ∙ ap (λ l. l ++ o ∷ []) t.window_held
        ∙ sym (
            window-snoc_room cap history o
              (omega (arith, count-window cap s history t, t.capacity)))
    | inr full ↦
        let h : s.count ≡ s.cap = ground (arith, t.valid.counted) in
        push-items_full o s t.valid h
        ∙ ap (λ l. drop 1 l ++ o ∷ []) t.window_held
        ∙ sym (
            window-snoc_full cap history o (omega (arith, t.valid.positive, t.capacity))
              (omega (arith, count-window cap s history t, t.capacity, t.valid.positive)))
  ];
}

push_all-Tracks :
    (cap : ℕ) (rest : List Text) (s : ShortTerm) (history : List Text)
    → Tracks cap s history
    → Tracks cap (push_all rest s) (history ++ rest)
unfolding push_all
push_all-Tracks cap [] s history t = rw append-nil t
push_all-Tracks cap (o ∷ rest) s history t =
    rw (append_assoc history (o ∷ []) rest) at
      (push_all-Tracks cap rest (push o s) (history ++ o ∷ []) (Tracks-push cap s history o t))

positive : (cap : ℤ) → 0 < positive_or cap 12
positive (pos zero) = omega arith
positive (pos (suc n)) = omega arith
positive (negsuc n) = omega arith

init-Tracks :
    (has_db : Bool) (id : Text) (cap : ℤ)
    → Tracks (positive_or cap 12) (memory_init has_db id cap).st []
unfolding memory_init items window
init-Tracks has_db id cap =
    let p : 0 < positive_or cap 12 = positive cap in
    let e : 0 - positive_or cap 12 ≡ 0 = omega arith in
    record {
      valid = record {
        positive = p;
        full_length = length-replicate (positive_or cap 12) [];
        counted = omega arith;
        head_in = p;
        unrolled = λ _. refl;
      };
      capacity = refl;
      window_held = sym (ap (λ (k : ℕ). drop {A = Text} k []) e);
    }

-- From a fresh memory, after any observations, the ring holds the last `cap` of them (12 where the
-- capacity asked for is not positive), oldest first.
pub push_all-window :
    (has_db : Bool) (id : Text) (cap : ℤ) (history : List Text)
    → items (push_all history (memory_init has_db id cap).st) ≡ window (positive_or cap 12) history
push_all-window has_db id cap history =
    (push_all-Tracks (positive_or cap 12) history _ [] (init-Tracks has_db id cap)).window_held
