-- ===== src/Safetensors/Header/Spans.antt =====
-- src/io/k3_st.c: what the scan of a shard lets through.
use isky.Prelude.{
  ℕ, zero, suc, ◌+◌, ◌%◌, ◌^◌, ◌≤◌, ◌≡◌, refl, ◌∙◌, ap, inl, inr, List, [], ◌∷◌, ◌++◌, Bool, true,
  false, Option, none, some, Option-cases, Bool-cases, ℤ, pos, ◌+ℤ◌, ◌-ℤ◌, ◌*ℤ◌, ltb_ℤ, eq_ℤ,
  eq_ℤ-eq, span_end, int64, int64-add, int64-small, sym, ◌<◌, ltb, leb, ◌==◌, length, take, drop,
  All, Text, text, str_eq, arith,
}
use isky.Safetensors.{K3Dtype, K3Tensor, elemsize, numel, c_string}
use isky.Safetensors.Scanner.{
  Scanned, scanned, malformed, out_of_fuel, lit, expect, str_, skip_value,
}
use isky.Safetensors.Header.{
  Fields, no_fields, separator, fields_loop, span_check, entry_check, admitted, entry, named_entry,
  entries_loop, scan_header, little_endian, ShardScan, shard_scanned, shard_bad, as_shard,
  read_header, scan_shard,
}
use isky.Safetensors.Header.Readable.{
  Gives, Gives-then_scan, Any, Gives-Any, after, Scanned-cases, IsSupported, IsRank, IsReadable,
  fields_loop-IsReadable,
}

-- A tensor that a shard of `fsize` bytes holds: it has a type that can be read and at most four
-- dimensions, its bytes are its elements times their size, and they end within the file, all in
-- arithmetic that wraps at 64 bits; so where neither is below 0 and their sum does not wrap, its offset
-- and size are a span of the file.
pub record IsStored (fsize shard : ℕ) (t : K3Tensor) : Type 0 where
  pub from_shard : t.shard ≡ shard
  pub typed : IsSupported t.dtype
  pub rank : length t.shape ≤ 4
  pub sized : t.nbytes ≡ int64 (numel t.shape *ℤ pos (elemsize t.dtype))
  pub inside : ltb_ℤ (pos fsize) (int64 (t.off +ℤ t.nbytes)) ≡ false
  pub within_file :
      (off n : ℕ) → t.off ≡ pos off → t.nbytes ≡ pos n → off + n < 2 ^ 63 → off + n ≤ fsize

ends_inside :
    (fsize off n : ℕ)
    → ltb_ℤ (pos fsize) (int64 (pos off +ℤ pos n)) ≡ false
    → off + n < 2 ^ 63
    → off + n ≤ fsize
ends_inside fsize off n inside small =
    let kept = ap (ltb_ℤ (pos fsize)) (int64-small (off + n) small) in ground (arith, kept)

module _ (base fsize shard : ℕ) where
  abbrev IsKept : Option K3Tensor → Type 0
  IsKept none = Unit
  IsKept (some t) = IsStored fsize shard t

  span_check-IsKept :
      (name : Text) (shape : List ℤ) (d : K3Dtype) (o0 o1 : ℤ)
      → IsSupported d
      → IsRank shape
      → IsKept (span_check base fsize shard name shape d o0 o1)
  unfolding span_check
  span_check-IsKept name shape d o0 o1 typed rank =
      elim (Bool-cases (eq_ℤ (int64 (o1 -ℤ o0)) (int64 (numel shape *ℤ pos (elemsize d))))) [
        | inr differ ↦ rw (span_check, differ) tt
        | inl same ↦ elim (Bool-cases (ltb_ℤ (pos fsize) (int64 (pos base +ℤ o1)))) [
          | inl past ↦ rw (span_check, same, past) tt
          | inr inside ↦
              let end : ltb_ℤ (pos fsize) (int64 (int64 (pos base +ℤ o0) +ℤ int64 (o1 -ℤ o0)))
                  ≡ false =
                ap (ltb_ℤ (pos fsize))
                  (int64-add (pos base +ℤ o0) (o1 -ℤ o0) ∙ ap int64 (span_end base o0 o1))
                ∙ inside in
              rw (span_check, same, inside)
                (record {
                  from_shard = refl;
                  typed = typed;
                  rank = rank;
                  sized = eq_ℤ-eq _ _ same;
                  inside = end;
                  within_file = λ off n at_off is_n small.
                      ends_inside fsize off n
                        (ap (λ o. ltb_ℤ (pos fsize) (int64 (o +ℤ pos n))) (sym at_off)
                          ∙ ap (λ k. ltb_ℤ (pos fsize) (int64 (int64 (pos base +ℤ o0) +ℤ k)))
                              (sym is_n)
                          ∙ end)
                        small;
                })
        ]
      ]

  entry_check-IsKept :
      (name : Text) (f : Fields) → IsReadable f → IsKept (entry_check base fsize shard name f)
  unfolding entry_check
  entry_check-IsKept name f h = elim (Option-cases f.dtype) [
    | inl no_type ↦ rw (entry_check, no_type) tt
    | inr (d, e) ↦ elim (Option-cases f.offsets) [
      | inl no_span ↦ rw (entry_check, e, no_span) tt
      | inr (o, span) ↦
          rw (entry_check, e, span) (span_check-IsKept name f.shape d o.0 o.1 (rw e at h.0) h.1)
    ]
  ]

  module _ (P : K3Tensor → Type 0) (new : (t : K3Tensor) → IsStored fsize shard t → P t) where
    All-append_one : (ts : List K3Tensor) (t : K3Tensor) → All P ts → P t → All P (ts ++ t ∷ [])
    All-append_one [] t all h = (h, tt)
    All-append_one (u ∷ ts) t all h = (all.0, All-append_one ts t all.1 h)

    admitted-All :
        (ts : List K3Tensor) (o : Option K3Tensor) (r : Text)
        → All P ts
        → IsKept o
        → Gives (All P) (admitted ts o r)
    admitted-All ts none r all h = tt
    admitted-All ts (some t) r all h = All-append_one ts t all (new t h)

    entry-All :
        (fuel : ℕ) (name : Text) (ts : List K3Tensor) (s : Text)
        → All P ts
        → Gives (All P) (entry fuel base fsize shard name ts s)
    unfolding entry
    entry-All fuel name ts s all =
        elim (Bool-cases (str_eq (c_string name) (text "__metadata__"))) [
          | inl m ↦ rw (entry, m) (after (All P) (skip_value s) _ λ u r. all)
          | inr m ↦
              rw (entry, m)
                (after (All P) (expect b'{' s) _ λ u r.
                  Gives-then_scan IsReadable (All P) (fields_loop fuel true no_fields r) _
                    (fields_loop-IsReadable fuel true no_fields r (tt, omega arith))
                    λ f r h. admitted-All ts _ r all (entry_check-IsKept name f h))
        ]

    named_entry-All :
        (fuel : ℕ) (ts : List K3Tensor) (s : Text)
        → All P ts
        → Gives (All P) (named_entry fuel base fsize shard ts s)
    unfolding named_entry
    named_entry-All fuel ts s all =
        after (All P) (str_ 512 s) _
          λ name r. after (All P) (expect b':' r) _ λ u r. entry-All fuel name ts r all

    entries_loop-All :
        (fuel : ℕ) (first : Bool) (ts : List K3Tensor) (s : Text)
        → All P ts
        → Gives (All P) (entries_loop fuel base fsize shard first ts s)
    unfolding entries_loop
    entries_loop-All zero first ts s all = tt
    entries_loop-All (suc fuel) first ts s all = elim (Option-cases (lit b'}' s)) [
      | inr (rest, e) ↦ rw (entries_loop, e) all
      | inl no_end ↦ elim (Scanned-cases Any (separator first s) (Gives-Any (separator first s))) [
        | inl bad ↦ rw (entries_loop, no_end, bad) tt
        | inr (inl stuck) ↦ rw (entries_loop, no_end, stuck) tt
        | inr (inr (u, r, sep, any)) ↦ elim (Option-cases (lit b'}' r)) [
          | inr (rest, e) ↦ rw (entries_loop, no_end, sep, e) all
          | inl more ↦
              elim (Scanned-cases (All P) (named_entry fuel base fsize shard ts r)
                (named_entry-All fuel ts r all)) [
                  | inl bad ↦ rw (entries_loop, no_end, sep, more, bad) tt
                  | inr (inl stuck) ↦ rw (entries_loop, no_end, sep, more, stuck) tt
                  | inr (inr (us, rest, e, k)) ↦
                      rw (entries_loop, no_end, sep, more, e)
                        (entries_loop-All fuel false us rest k)
                ]
        ]
      ]
    ]

    scan_header-All :
        (ts : List K3Tensor) (json : Text)
        → All P ts
        → Gives (All P) (scan_header base fsize shard ts json)
    unfolding scan_header
    scan_header-All ts json all =
        after (All P) (expect b'{' json) _ λ u r. entries_loop-All (suc (length json)) true ts r all

abbrev IsListed : (K3Tensor → Type 0) → ShardScan → Type 0
IsListed P (shard_scanned ts) = All P ts
IsListed P shard_bad = Unit

module _ (shard : ℕ) (P : K3Tensor → Type 0) (ts : List K3Tensor) (all : All P ts) where
  as_shard-IsListed : (r : Scanned (List K3Tensor)) → Gives (All P) r → IsListed P (as_shard r)
  as_shard-IsListed (scanned us rest) h = h
  as_shard-IsListed malformed h = tt
  as_shard-IsListed out_of_fuel h = tt

  read_header-IsListed :
      (hlen fsize : ℕ) (body : Text)
      → ((t : K3Tensor) → IsStored fsize shard t → P t)
      → IsListed P (read_header hlen fsize shard ts body)
  unfolding read_header
  read_header-IsListed hlen fsize body new = elim (Bool-cases (hlen == 0)) [
    | inl z ↦ rw (read_header, z) tt
    | inr z ↦ elim (Bool-cases (ltb fsize ((8 + hlen) % 2 ^ 64))) [
      | inl short ↦ rw (read_header, z, short) tt
      | inr fits ↦ elim (Bool-cases (leb (2 ^ 63) hlen)) [
        | inl over ↦ rw (read_header, z, fits, over) tt
        | inr held ↦ elim (Bool-cases (length (take hlen body) == hlen)) [
          | inr less ↦ rw (read_header, z, fits, held, less) tt
          | inl whole ↦
              rw (read_header, z, fits, held, whole)
                (as_shard-IsListed _
                  (scan_header-All (8 + hlen) fsize shard P new ts (take hlen body) all))
        ]
      ]
    ]
  ]

  -- If all tensors so far are in a set that holds all the tensors stored in this file, then so are
  -- those behind the scan of the file.
  pub scan_shard-IsListed :
      (file : Text)
      → ((t : K3Tensor) → IsStored (length file) shard t → P t)
      → (us : List K3Tensor) → scan_shard shard ts file ≡ shard_scanned us
      → All P us
  unfolding scan_shard
  scan_shard-IsListed file new us done = elim (Bool-cases (ltb (length file) 8)) [
    | inl short ↦ absurd (ground arith)
    | inr long ↦
        let read : read_header (little_endian (take 8 file)) (length file) shard ts (drop 8 file)
            ≡ shard_scanned us =
          ground arith in
        rw read at
          (read_header-IsListed (little_endian (take 8 file)) (length file) (drop 8 file) new)
  ]
