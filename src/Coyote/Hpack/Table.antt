-- ===== src/Coyote/Hpack/Table.antt =====
-- crates/tomcatrs-coyote/src/hpack.rs: the dynamic table and the index space that it shares with
-- the static table. The entries are a list, newest first.
pub mod Fitting
pub mod Invariant
pub mod Index
use michael.Prelude.{
  ℕ, zero, suc, ◌+◌, ◌-◌, Bool, true, false, ◌&&◌, List, [], ◌∷◌, ◌++◌, Option, none, some, Result,
  ok, err, if◌then◌else◌, ltb, leb, ◌==◌, length, get_elem?, ok_or, ◌>>=◌,
}
use michael.Prelude.Text.{Bytes, str_eq}
use michael.Coyote.Hpack.Static.{static_table}

pub data HpackError : Type 0 where
  truncated integer_overflow invalid_utf8 unexpected_table_size_update : HpackError
  invalid_index : ℕ → HpackError
  invalid_huffman : HpackError
  table_size_exceeded : ℕ → ℕ → HpackError
  header_list_too_large : ℕ → HpackError

abbrev pub Field : Type 0
Field = Bytes × Bytes

abbrev pub entry_overhead : ℕ
entry_overhead = 32

pub record DynamicTable : Type 0 where
  pub entries : List Field
  pub size : ℕ
  pub capacity : ℕ
  pub max_capacity : ℕ

-- `DynamicTable::new`
abbrev pub new_table : ℕ → DynamicTable
new_table max_capacity = record {
  entries = [];
  size = 0;
  capacity = max_capacity;
  max_capacity = max_capacity;
}

abbrev pub entry_size : Field → ℕ
entry_size (name, value) = length name + length value + entry_overhead

-- `entries.pop_back()`
unfoldable pub pop_back : List Field → Option (List Field × Field)
pop_back [] = none
pop_back (e ∷ []) = some ([], e)
pop_back (e ∷ f ∷ es) = elim (pop_back (f ∷ es)) [
  | none ↦ none
  | some (rest, last) ↦ some (e ∷ rest, last)
]

-- The loop of `evict_to_fit`, on fuel: the number of entries is enough, since each round takes
-- one off and the loop stops at none.
unfoldable pub evict_loop : ℕ → DynamicTable → ℕ → DynamicTable
evict_loop zero t additional = t
evict_loop (suc fuel) t additional =
    if ltb t.capacity (t.size + additional)
    then elim (pop_back t.entries) [
      | none ↦ t
      | some (rest, e) ↦
          evict_loop fuel (record t { entries = rest; size = t.size - entry_size e }) additional
    ]
    else t

unfoldable pub evict_to_fit : DynamicTable → ℕ → DynamicTable
evict_to_fit t additional = evict_loop (length t.entries) t additional

unfoldable pub resize : DynamicTable → ℕ → DynamicTable
resize t new_capacity = evict_to_fit (record t { capacity = new_capacity }) 0

unfoldable pub set_max_capacity : DynamicTable → ℕ → DynamicTable
set_max_capacity t max_capacity =
    let t' = record t { max_capacity = max_capacity } in
    if ltb max_capacity t.capacity then resize t' max_capacity else t'

unfoldable pub apply_size_update : DynamicTable → ℕ → Result HpackError DynamicTable
apply_size_update t new_capacity =
    if ltb t.max_capacity new_capacity
    then err (table_size_exceeded new_capacity t.max_capacity)
    else ok (resize t new_capacity)

unfoldable pub insert : DynamicTable → Field → DynamicTable
insert t e =
    let t' = evict_to_fit t (entry_size e) in
    if ltb t'.capacity (entry_size e)
    then t'
    else record t' { entries = e ∷ t'.entries; size = t'.size + entry_size e }

abbrev pub get : DynamicTable → ℕ → Option Field
get t idx = get_elem? t.entries idx

abbrev pub static_len : ℕ
static_len = 61

unfoldable pub resolve_index : ℕ → DynamicTable → Result HpackError Field
resolve_index idx dynamic =
    if idx == 0
    then err (invalid_index 0)
    else if leb idx static_len
    then ok_or (get_elem? static_table (idx - 1)) (invalid_index idx)
    else ok_or (get dynamic (idx - static_len - 1)) (invalid_index idx)

-- The position of the first entry that passes the test, counted from `start`.
unfoldable pub position : (Field → Bool) → ℕ → List Field → Option ℕ
position test start [] = none
position test start (e ∷ es) =
    let rest = position test (start + 1) es in if test e then some start else rest

abbrev pub same_field : Field → Field → Bool
same_field (name, value) (n, v) = str_eq n name && str_eq v value

abbrev pub same_name : Bytes → Field → Bool
same_name name (n, v) = str_eq n name

-- Both searches scan the static table from index 1, then the dynamic one from index 62.
unfoldable pub find_in_tables : (Field → Bool) → DynamicTable → Option ℕ
find_in_tables test dynamic = elim (position test 1 static_table) [
  | some i ↦ some i
  | none ↦ position test (static_len + 1) dynamic.entries
]

abbrev pub find_full : Field → DynamicTable → Option ℕ
find_full e dynamic = find_in_tables (same_field e) dynamic

abbrev pub find_name : Bytes → DynamicTable → Option ℕ
find_name name dynamic = find_in_tables (same_name name) dynamic
