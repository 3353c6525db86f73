-- ===== src/Tests/Hpack.antt =====
-- The tables and the integers of HPACK on small values and on the examples of RFC 7541.
use michael.Prelude.{◌*◌, ◌^◌, [], ◌∷◌, ◌++◌, some, ok, ◌≡◌, refl, arith, length}
use michael.Prelude.Text.{codes, str_eq}
use michael.Coyote.Hpack.Table.{
  DynamicTable, Field, new_table, insert, evict_to_fit, evict_loop, pop_back, find_full, find_name,
  find_in_tables, position,
}
use michael.Coyote.Hpack.Table.Invariant.{IsConsistent, fitting, insert-IsConsistent}
use michael.Coyote.Hpack.Integer.{
  set_flags, encode_integer, encode_rest, decode_integer, decode_rest,
}
use michael.Coyote.Hpack.Integer.RoundTrip.{decode_integer-encode_integer}

abbrev custom : Field
custom = (codes "custom-key", codes "custom-value")

abbrev cached : Field
cached = (codes "cache-control", codes "no-cache")

-- A table that has room for one of the two.
abbrev one_entry : DynamicTable
one_entry = record { entries = custom ∷ []; size = 54; capacity = 100; max_capacity = 100 }

one_entry-IsConsistent : IsConsistent one_entry
one_entry-IsConsistent = record { counted = refl; bounded = omega arith; capped = omega arith }

runs :
    (insert (new_table 100) custom ≡ one_entry)
    × ((insert one_entry cached).entries ≡ cached ∷ [])
    × (find_full custom one_entry ≡ some 62)
    × (find_name (codes ":path") one_entry ≡ some 4)
    × (encode_integer 1337 5 ≡ 31 ∷ 154 ∷ 10 ∷ [])
    × (decode_integer (31 ∷ 154 ∷ 10 ∷ []) 5 ≡ ok (1337, 3))
unfolding insert evict_to_fit evict_loop pop_back find_in_tables position str_eq encode_integer
    encode_rest decode_integer decode_rest
runs = (refl, refl, refl, refl, refl, refl)

insert-IsConsistent_example :
    IsConsistent (insert one_entry cached)
    × ((insert one_entry cached).entries ≡ fitting 100 (cached ∷ custom ∷ []))
    × ((insert one_entry cached).capacity ≡ 100)
insert-IsConsistent_example = insert-IsConsistent one_entry cached one_entry-IsConsistent

decode_integer-encode_integer_example :
    decode_integer (set_flags (1 * 2 ^ 5) (encode_integer 1337 5) ++ (7 ∷ [])) 5
    ≡ ok (1337, length (encode_integer 1337 5))
decode_integer-encode_integer_example =
    decode_integer-encode_integer 1337 5 1 (7 ∷ []) (omega arith) (omega arith)
