-- ===== src/Index/Log/Codec.antt =====
-- An entry is read back from its bytes, but for what only a rollback needs.
use ob_htap.Prelude.{
  ℕ, ◌^◌, ◌≡◌, ◌<◌, refl, List, [], ◌++◌, arith, length, ltb, leb, true, false, length-append,
  take-append, drop-append, append_assoc, sym,
}
use ob_htap.Rc.{Rc, ob_succ}
use ob_htap.Clog.Entry.Codec.{length-le_bytes, le_number-le_bytes}
use ob_htap.Clog.File.{readn}
use ob_htap.Index.Log.{
  NodeLog, init_header_page, update_root_page, set_parent_page, leaf_init_empty, leaf_set_next_page,
  internal_init_empty, internal_create_new_root, internal_update_key, node_insert, node_remove,
  LogEntryHandler, file_header_size, no_page, index_of, serialize_body, serialize, parsed,
  read_bytes, read_int32, read_vector, read_items, deserialize, from_buffer, int32,
}

-- The fields of an operation that fit their types.
abbrev pub IsEncodable : NodeLog → Type 0
IsEncodable (init_header_page header) = length header ≡ file_header_size
IsEncodable (update_root_page page old) = page < 2 ^ 32
IsEncodable (set_parent_page page old) = page < 2 ^ 32
IsEncodable leaf_init_empty = Unit {0}
IsEncodable (leaf_set_next_page page old) = page < 2 ^ 32
IsEncodable internal_init_empty = Unit {0}
IsEncodable (internal_create_new_root first key page) =
    (first < 2 ^ 32) × (page < 2 ^ 32) × (length key < 2 ^ 31)
IsEncodable (internal_update_key index key old) = (index < 2 ^ 32) × (length key < 2 ^ 31)
IsEncodable (node_insert index items num) =
    (index < 2 ^ 32) × (num < 2 ^ 32) × (length items < 2 ^ 31)
IsEncodable (node_remove index items num) =
    (index < 2 ^ 32) × (num < 2 ^ 32) × (length items < 2 ^ 31)

-- What an entry does not hold: the page or the key before the change.
abbrev pub forget : NodeLog → NodeLog
forget (init_header_page header) = init_header_page header
forget (update_root_page page old) = update_root_page page no_page
forget (set_parent_page page old) = set_parent_page page no_page
forget leaf_init_empty = leaf_init_empty
forget (leaf_set_next_page page old) = leaf_set_next_page page no_page
forget internal_init_empty = internal_init_empty
forget (internal_create_new_root first key page) = internal_create_new_root first key page
forget (internal_update_key index key old) = internal_update_key index key []
forget (node_insert index items num) = node_insert index items num
forget (node_remove index items num) = node_remove index items num

read_bytes_lem :
    (rc : Rc) (n : ℕ) (b rest : List ℕ) → length b ≡ n → read_bytes rc n (b ++ rest) ≡ parsed b rest
unfolding read_bytes readn
read_bytes_lem rc n b rest e =
    let enough : ltb (length (b ++ rest)) n ≡ false = ground (arith, length-append b rest) in
    rw (read_bytes, readn, enough, take-append b rest n (sym e), drop-append b rest n (sym e)) refl

read_int32_lem :
    (rc : Rc) (n : ℕ) (rest : List ℕ) → n < 2 ^ 32 → read_int32 rc (int32 n ++ rest) ≡ parsed n rest
unfolding read_int32
read_int32_lem rc n rest h =
    rw
      (
        read_int32,
        read_bytes_lem rc 4 (int32 n) rest (length-le_bytes 4 n),
        le_number-le_bytes 4 n h,
      )
      refl

read_vector_lem :
    (b rest : List ℕ)
    → length b < 2 ^ 31
    → read_vector ((int32 (length b) ++ b) ++ rest) ≡ parsed b rest
unfolding read_vector
read_vector_lem b rest h =
    let small : leb (2 ^ 31) (length b) ≡ false = ground (arith, h) in
    rw
      (
        read_vector,
        append_assoc (int32 (length b)) b rest,
        read_int32_lem Rc.internal (length b) (b ++ rest) (omega arith),
        small,
        read_bytes_lem Rc.internal (length b) b rest refl,
      )
      refl

-- Two numbers and a vector.
read_three :
    (make : ℕ → List ℕ → ℕ → NodeLog) (m n : ℕ) (b rest : List ℕ)
    → m < 2 ^ 32
    → n < 2 ^ 32
    → length b < 2 ^ 31
    → read_items make ((int32 m ++ (int32 n ++ (int32 (length b) ++ b))) ++ rest)
      ≡ parsed (make m b n) rest
read_three make m n b rest hm hn hb =
    let sized = int32 (length b) ++ b in
    rw
      (
        append_assoc (int32 m) (int32 n ++ sized) rest,
        append_assoc (int32 n) sized rest,
        read_int32_lem Rc.internal m (int32 n ++ (sized ++ rest)) hm,
        read_int32_lem Rc.internal n (sized ++ rest) hn,
        read_vector_lem b rest hb,
      )
      refl

deserialize-serialize_body :
    (o : NodeLog) (rest : List ℕ)
    → IsEncodable o
    → deserialize (index_of o) (serialize_body o ++ rest) ≡ parsed (forget o) rest
unfolding deserialize index_of serialize_body
deserialize-serialize_body (init_header_page header) rest h =
    rw (read_bytes_lem Rc.internal file_header_size header rest h) refl
deserialize-serialize_body (update_root_page page old) rest h =
    rw (read_int32_lem Rc.internal page rest h) refl
deserialize-serialize_body (set_parent_page page old) rest h =
    rw (read_int32_lem Rc.internal page rest h) refl
deserialize-serialize_body leaf_init_empty rest h = refl
deserialize-serialize_body (leaf_set_next_page page old) rest h =
    rw (read_int32_lem Rc.internal page rest h) refl
deserialize-serialize_body internal_init_empty rest h = refl
deserialize-serialize_body (internal_create_new_root first key page) rest (a, b, c) =
    read_three internal_create_new_root first page key rest a b c
deserialize-serialize_body (internal_update_key index key old) rest (a, c) =
    rw
      (
        append_assoc (int32 index) (int32 (length key) ++ key) rest,
        read_int32_lem Rc.internal index ((int32 (length key) ++ key) ++ rest) a,
        read_vector_lem key rest c,
      )
      refl
deserialize-serialize_body (node_insert index items num) rest (a, b, c) =
    read_three node_insert index num items rest a b c
deserialize-serialize_body (node_remove index items num) rest (a, b, c) =
    read_three node_remove index num items rest a b c

index_of_small : (o : NodeLog) → index_of o < 10
unfolding index_of
index_of_small (init_header_page header) = omega arith
index_of_small (update_root_page page old) = omega arith
index_of_small (set_parent_page page old) = omega arith
index_of_small leaf_init_empty = omega arith
index_of_small (leaf_set_next_page page old) = omega arith
index_of_small internal_init_empty = omega arith
index_of_small (internal_create_new_root first key page) = omega arith
index_of_small (internal_update_key index key old) = omega arith
index_of_small (node_insert index items num) = omega arith
index_of_small (node_remove index items num) = omega arith

abbrev pub forget_entry : LogEntryHandler → LogEntryHandler
forget_entry e = record { page_num = e.page_num; operation = forget e.operation }

-- An entry whose fields fit their types is read back from its bytes, whatever follows them, without the
-- page and the key from before the change.
pub from_buffer-serialize :
    (frame_getter : ℕ → Rc) (e : LogEntryHandler) (rest : List ℕ)
    → e.page_num < 2 ^ 32
    → IsEncodable e.operation
    → ob_succ (frame_getter e.page_num) ≡ true
    → from_buffer frame_getter (serialize e ++ rest) ≡ parsed (forget_entry e) rest
unfolding serialize from_buffer
from_buffer-serialize frame_getter e rest p h f =
    let type = int32 (index_of e.operation) in
    let body = serialize_body e.operation in
    let known : leb 10 (index_of e.operation) ≡ false =
      ground (arith, index_of_small e.operation) in
    rw
      (
        serialize,
        from_buffer,
        append_assoc type (int32 e.page_num ++ body) rest,
        append_assoc (int32 e.page_num) body rest,
        read_int32_lem Rc.invalid_argument (index_of e.operation)
            (int32 e.page_num ++ (body ++ rest)) (omega (arith, index_of_small e.operation)),
        known,
        read_int32_lem Rc.invalid_argument e.page_num (body ++ rest) p,
        f,
        deserialize-serialize_body e.operation rest h,
      )
      refl
