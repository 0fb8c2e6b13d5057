-- ===== src/Safetensors/Header.antt =====
-- src/io/k3_st.c: `scan_shard`, one file of the checkpoint.
pub mod Total
pub mod Readable
pub mod Spans
use isky.Prelude.{
  ℕ, zero, suc, ◌+◌, ◌-◌, ◌*◌, ◌%◌, ◌^◌, List, [], ◌∷◌, ◌++◌, Bool, true, false, not, ◌&&◌, Option,
  none, some, is_some, ℤ, pos, ◌+ℤ◌, ◌-ℤ◌, ◌*ℤ◌, ltb_ℤ, eq_ℤ, int64, ltb, leb, length, take, drop,
  ◌==◌, Text, text, str_eq, if◌then◌else◌,
}
use isky.Safetensors.{K3Dtype, dt_unknown, K3Tensor, elemsize, numel, dtype_of, c_string}
use isky.Safetensors.Scanner.{
  Scanned, scanned, malformed, out_of_fuel, then_scan, lit, expect, str_, i64_, skip_value, require,
}

-- What the loop over the fields of an entry has read: `have_dt` and `have_off` are whether there is
-- a value, and `ndim` is the length of the shape.
pub record Fields : Type 0 where
  pub dtype : Option K3Dtype
  pub shape : List ℤ
  pub offsets : Option (ℤ × ℤ)

abbrev pub no_fields : Fields
no_fields = record { dtype = none; shape = []; offsets = none }

-- the `for` loop over a shape that is not empty
unfoldable pub shape_loop : ℕ → List ℤ → Text → Scanned (List ℤ)
unfolding i64_ lit
shape_loop zero shape s = out_of_fuel
shape_loop (suc fuel) shape s = elim (i64_ s) [
  | malformed ↦ malformed
  | out_of_fuel ↦ out_of_fuel
  | scanned d r ↦ elim (ltb (length shape) 4) [
    | false ↦ malformed
    | true ↦ elim (lit b',' r) [
      | some next ↦ shape_loop fuel (shape ++ d ∷ []) next
      | none ↦ elim (lit b']' r) [ some rest ↦ scanned (shape ++ d ∷ []) rest | none ↦ malformed ]
    ]
  ]
]

-- behind the `[`
unfoldable pub shape_items : ℕ → List ℤ → Text → Scanned (List ℤ)
unfolding shape_loop lit
shape_items fuel shape s = elim (lit b']' s) [
  | some rest ↦ scanned shape rest
  | none ↦ shape_loop fuel shape s
]

unfoldable pub dtype_field : Fields → Text → Scanned Fields
unfolding str_ dtype_of
dtype_field f s = then_scan (str_ 32 s) λ dv r. elim (dtype_of dv) [
  | dt_unknown ↦ malformed
  | d ↦ scanned (record f { dtype = some d }) r
]

unfoldable pub shape_field : ℕ → Fields → Text → Scanned Fields
unfolding expect shape_items
shape_field fuel f s = then_scan (expect b'[' s) λ _ r.
    then_scan (shape_items fuel f.shape r) λ shape rest. scanned (record f { shape = shape }) rest

unfoldable pub offsets_field : Fields → Text → Scanned Fields
unfolding expect i64_
offsets_field f s = then_scan (expect b'[' s) λ _ r. then_scan (i64_ r) λ o0 r.
    then_scan (expect b',' r) λ _ r.
      then_scan (i64_ r)
        λ o1 r. then_scan (expect b']' r) λ _ r. scanned (record f { offsets = some (o0, o1) }) r

unfoldable pub field_value : ℕ → Text → Fields → Text → Scanned Fields
unfolding dtype_field shape_field offsets_field skip_value c_string text str_eq
field_value fuel key f s =
    if str_eq (c_string key) (text "dtype")
    then dtype_field f s
    else if str_eq (c_string key) (text "shape")
    then shape_field fuel f s
    else if str_eq (c_string key) (text "data_offsets")
    then offsets_field f s
    else then_scan (skip_value s) λ _ r. scanned f r

-- `if (!first && !lit(sc, ',')) goto bad;`
unfoldable pub separator : Bool → Text → Scanned (Unit {0})
unfolding expect
separator first s = if first then scanned tt s else expect b',' s

-- one field: its separator, its key and its value
unfoldable pub one_field : ℕ → Bool → Fields → Text → Scanned Fields
unfolding separator str_ expect field_value
one_field fuel first f s =
    then_scan (separator first s) λ _ r.
      then_scan (str_ 64 r) λ key r. then_scan (expect b':' r) λ _ r. field_value fuel key f r

-- the inner loop
unfoldable pub fields_loop : ℕ → Bool → Fields → Text → Scanned Fields
unfolding lit one_field
fields_loop zero first f s = out_of_fuel
fields_loop (suc fuel) first f s = elim (lit b'}' s) [
  | some rest ↦ scanned f rest
  | none ↦ elim (one_field fuel first f s) [
    | malformed ↦ malformed
    | out_of_fuel ↦ out_of_fuel
    | scanned g rest ↦ fields_loop fuel false g rest
  ]
]

-- the checks behind the inner loop, on an entry that has its dtype and its offsets
unfoldable pub span_check : ℕ → ℕ → ℕ → Text → List ℤ → K3Dtype → ℤ → ℤ → Option K3Tensor
unfolding numel c_string int64
span_check base fsize shard name shape dtype o0 o1 =
    if not (eq_ℤ (int64 (o1 -ℤ o0)) (int64 (numel shape *ℤ pos (elemsize dtype))))
    then none
    else if ltb_ℤ (pos fsize) (int64 (pos base +ℤ o1))
    then none
    else some (record {
      name = c_string name;
      shard = shard;
      dtype = dtype;
      shape = shape;
      off = int64 (pos base +ℤ o0);
      nbytes = int64 (o1 -ℤ o0);
    })

unfoldable pub entry_check : ℕ → ℕ → ℕ → Text → Fields → Option K3Tensor
unfolding span_check
entry_check base fsize shard name f = elim f.dtype [
  | none ↦ none
  | some dtype ↦ elim f.offsets [
    | none ↦ none
    | some o ↦ span_check base fsize shard name f.shape dtype o.0 o.1
  ]
]

abbrev pub admitted : List K3Tensor → Option K3Tensor → Text → Scanned (List K3Tensor)
admitted ts none rest = malformed
admitted ts (some t) rest = scanned (ts ++ t ∷ []) rest

-- an entry behind its name; `ts` are the tensors pushed so far
unfoldable pub entry : ℕ → ℕ → ℕ → ℕ → Text → List K3Tensor → Text → Scanned (List K3Tensor)
unfolding skip_value expect fields_loop entry_check c_string text str_eq
entry fuel base fsize shard name ts s =
    if str_eq (c_string name) (text "__metadata__")
    then (then_scan (skip_value s) λ _ r. scanned ts r)
    else (then_scan (expect b'{' s) λ _ r.
        then_scan (fields_loop fuel true no_fields r)
          λ f r. admitted ts (entry_check base fsize shard name f) r)

unfoldable pub named_entry : ℕ → ℕ → ℕ → ℕ → List K3Tensor → Text → Scanned (List K3Tensor)
unfolding str_ expect entry
named_entry fuel base fsize shard ts s =
    then_scan (str_ 512 s)
      λ name r. then_scan (expect b':' r) λ _ r. entry fuel base fsize shard name ts r

-- the outer loop; a comma may stand before the closing brace
unfoldable pub entries_loop : ℕ → ℕ → ℕ → ℕ → Bool → List K3Tensor → Text → Scanned (List K3Tensor)
unfolding lit separator named_entry
entries_loop zero base fsize shard first ts s = out_of_fuel
entries_loop (suc fuel) base fsize shard first ts s = elim (lit b'}' s) [
  | some rest ↦ scanned ts rest
  | none ↦ elim (separator first s) [
    | malformed ↦ malformed
    | out_of_fuel ↦ out_of_fuel
    | scanned u r ↦ elim (lit b'}' r) [
      | some rest ↦ scanned ts rest
      | none ↦ elim (named_entry fuel base fsize shard ts r) [
        | malformed ↦ malformed
        | out_of_fuel ↦ out_of_fuel
        | scanned more rest ↦ entries_loop fuel base fsize shard false more rest
      ]
    ]
  ]
]

-- the JSON of a header
unfoldable pub scan_header : ℕ → ℕ → ℕ → List K3Tensor → Text → Scanned (List K3Tensor)
unfolding expect entries_loop
scan_header base fsize shard ts json =
    then_scan (expect b'{' json) λ _ r. entries_loop (suc (length json)) base fsize shard true ts r

-- `for (i = 7; i >= 0; i--) hlen = (hlen << 8) | lenbuf[i]` on the bytes of the buffer
unfoldable pub little_endian : Text → ℕ
little_endian [] = 0
little_endian (c ∷ r) = c + 256 * little_endian r

-- What `scan_shard` does on a file: the tensors pushed, or a return of -1.
pub data ShardScan : Type 0 where
  shard_scanned : List K3Tensor → ShardScan
  shard_bad : ShardScan

abbrev pub as_shard : Scanned (List K3Tensor) → ShardScan
as_shard (scanned ts rest) = shard_scanned ts
as_shard malformed = shard_bad
as_shard out_of_fuel = shard_bad

-- The header of `hlen` bytes of a file whose bytes behind the length are `body`; the sum wraps at 64 bits. A
-- `pread` of more than SSIZE_MAX bytes fails.
unfoldable pub read_header : ℕ → ℕ → ℕ → List K3Tensor → Text → ShardScan
unfolding scan_header
read_header hlen fsize shard ts body =
    if hlen == 0
    then shard_bad
    else if ltb fsize ((8 + hlen) % 2 ^ 64)
    then shard_bad
    else if leb (2 ^ 63) hlen
    then shard_bad
    else if not (length (take hlen body) == hlen)
    then shard_bad
    else as_shard (scan_header (8 + hlen) fsize shard ts (take hlen body))

-- A file that opens, by its bytes; every read gives what the file has.
unfoldable pub scan_shard : ℕ → List K3Tensor → Text → ShardScan
unfolding little_endian read_header
scan_shard shard ts file =
    if ltb (length file) 8
    then shard_bad
    else read_header (little_endian (take 8 file)) (length file) shard ts (drop 8 file)
