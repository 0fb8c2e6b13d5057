-- ===== src/Cache/Batch/Distinct.antt =====
-- The sort of the work of `cache_getmany` (src/cache/k3_cache.c), and entries that share no slot and no
-- expert.
use isky.Prelude.{sym, ◌≢◌, List, [], ◌∷◌, All, Bool-cases, inl, inr}
use isky.Cache.Batch.{Work, is_after, insert, sort_onto, back_onto, sort_work}

pub record Apart (w v : Work) : Type 0 where
  pub slots : w.slot ≢ v.slot
  pub experts : w.expert ≢ v.expert

-- No two entries share a slot or an expert.
abbrev pub Distinct : List Work → Type 0
Distinct [] = Unit
Distinct (w ∷ ws) = All (Apart w) ws × Distinct ws

-- each of the second list apart from each of the first
abbrev Cross : List Work → List Work → Type 0
Cross done ws = All (λ w. All (Apart w) done) ws

Apart-sym : (w v : Work) → Apart w v → Apart v w
Apart-sym w v a = record { slots = λ e. a.slots (sym e); experts = λ e. a.experts (sym e) }

All-insert : (P : Work → Type 0) (t : Work) (ws : List Work) → P t → All P ws → All P (insert t ws)
unfolding insert
All-insert P t [] p ps = (p, tt)
All-insert P t (w ∷ ws) p (q, qs) = elim (Bool-cases (is_after w t)) [
  | inl e ↦ rw e ((q, All-insert P t ws p qs))
  | inr e ↦ rw e ((p, (q, qs)))
]

Distinct-insert :
    (t : Work) (ws : List Work) → All (Apart t) ws → Distinct ws → Distinct (insert t ws)
unfolding insert
Distinct-insert t [] a d = (tt, tt)
Distinct-insert t (w ∷ ws) (a, more) (b, d) = elim (Bool-cases (is_after w t)) [
  | inl e ↦ rw e ((All-insert (Apart w) t ws (Apart-sym t w a) b, Distinct-insert t ws more d))
  | inr e ↦ rw e (((a, more), (b, d)))
]

Cross-insert :
    (t : Work) (done ws : List Work) → All (Apart t) ws → Cross done ws → Cross (insert t done) ws
Cross-insert t done [] a c = tt
Cross-insert t done (w ∷ ws) (a, more) (c, cs) =
    (All-insert (Apart w) t done (Apart-sym t w a) c, Cross-insert t done ws more cs)

Cross-cons :
    (t : Work) (done ws : List Work) → All (Apart t) ws → Cross done ws → Cross (t ∷ done) ws
Cross-cons t done [] a c = tt
Cross-cons t done (w ∷ ws) (a, more) (c, cs) = ((Apart-sym t w a, c), Cross-cons t done ws more cs)

All-sort_onto :
    (P : Work → Type 0) (done ws : List Work) → All P done → All P ws → All P (sort_onto done ws)
unfolding sort_onto
All-sort_onto P done [] p q = p
All-sort_onto P done (t ∷ ws) p (q, qs) =
    All-sort_onto P (insert t done) ws (All-insert P t done q p) qs

Distinct-sort_onto :
    (done ws : List Work)
    → Distinct done
    → Distinct ws
    → Cross done ws
    → Distinct (sort_onto done ws)
unfolding sort_onto
Distinct-sort_onto done [] d e c = d
Distinct-sort_onto done (t ∷ ws) d (a, e) (c, cs) =
    Distinct-sort_onto (insert t done) ws (Distinct-insert t done c d) e
      (Cross-insert t done ws a cs)

pub All-back_onto :
    (P : Work → Type 0) (done ws : List Work) → All P done → All P ws → All P (back_onto done ws)
unfolding back_onto
All-back_onto P done [] p q = p
All-back_onto P done (t ∷ ws) p (q, qs) = All-back_onto P (t ∷ done) ws (q, p) qs

Distinct-back_onto :
    (done ws : List Work)
    → Distinct done
    → Distinct ws
    → Cross done ws
    → Distinct (back_onto done ws)
unfolding back_onto
Distinct-back_onto done [] d e c = d
Distinct-back_onto done (t ∷ ws) d (a, e) (c, cs) =
    Distinct-back_onto (t ∷ done) ws (c, d) e (Cross-cons t done ws a cs)

Cross-nil : (ws : List Work) → Cross [] ws
Cross-nil [] = tt
Cross-nil (w ∷ ws) = (tt, Cross-nil ws)

pub Distinct-back : (ws : List Work) → Distinct ws → Distinct (back_onto [] ws)
Distinct-back ws d = Distinct-back_onto [] ws tt d (Cross-nil ws)

pub All-sort_work : (P : Work → Type 0) (ws : List Work) → All P ws → All P (sort_work ws)
unfolding sort_work
All-sort_work P ws p = All-back_onto P [] _ tt (All-sort_onto P [] ws tt p)

pub Distinct-sort_work : (ws : List Work) → Distinct ws → Distinct (sort_work ws)
unfolding sort_work
Distinct-sort_work ws d = Distinct-back _ (Distinct-sort_onto [] ws tt d (Cross-nil ws))
