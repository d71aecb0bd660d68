-- ===== src/Index/Log.antt =====
-- The entries of src/observer/storage/index/bplus_tree_log_entry.cpp, with their bytes. An `int32_t` is
-- kept as its bit pattern.
pub mod Codec
use ob_htap.Prelude.{
  ℕ, ◌-◌, ◌^◌, ◌*◌, ◌+◌, List, [], ◌++◌, none, some, if◌then◌else◌, leb, ◌==◌, length,
}
use ob_htap.Rc.{Rc, ob_succ}
use ob_htap.Clog.Entry.{le_bytes, le_number}
use ob_htap.Clog.File.{readn}

-- `sizeof(IndexFileHeader)`
abbrev pub file_header_size : ℕ
file_header_size = 4 * (3 + 20 + 1 + 20 + 3)

-- `BP_INVALID_PAGE_NUM`
abbrev pub no_page : ℕ
no_page = 2 ^ 32 - 1

-- `LogOperation` with the fields of its handler. Where there are two pages or keys of one kind, the second
-- is the one before the change, for the rollback.
pub data NodeLog : Type 0 where
  init_header_page : List ℕ → NodeLog
  update_root_page : ℕ → ℕ → NodeLog
  set_parent_page : ℕ → ℕ → NodeLog
  leaf_init_empty : NodeLog
  leaf_set_next_page : ℕ → ℕ → NodeLog
  internal_init_empty : NodeLog
  internal_create_new_root : ℕ → List ℕ → ℕ → NodeLog
  internal_update_key : ℕ → List ℕ → List ℕ → NodeLog
  node_insert : ℕ → List ℕ → ℕ → NodeLog
  node_remove : ℕ → List ℕ → ℕ → NodeLog

-- `LogOperation::index`
unfoldable pub index_of : NodeLog → ℕ
index_of (init_header_page header) = 0
index_of (update_root_page page old) = 1
index_of (set_parent_page page old) = 2
index_of leaf_init_empty = 3
index_of (leaf_set_next_page page old) = 4
index_of internal_init_empty = 5
index_of (internal_create_new_root first key page) = 6
index_of (internal_update_key index key old) = 7
index_of (node_insert index items num) = 8
index_of (node_remove index items num) = 9

-- `LogEntryHandler`, for a page.
pub record LogEntryHandler : Type 0 where
  pub page_num : ℕ
  pub operation : NodeLog

-- `Serializer::write_int32`
abbrev pub int32 : ℕ → List ℕ
int32 = le_bytes 4

-- `serialize_body` of `UpdateRootPageLogEntryHandler`, `SetParentPageLogEntryHandler` and
-- `LeafSetNextPageLogEntryHandler`
abbrev pub page_body : ℕ → List ℕ
page_body page = int32 page

-- `InternalCreateNewRootLogEntryHandler::serialize_body`
abbrev pub new_root_body : ℕ → List ℕ → ℕ → List ℕ
new_root_body first key page = int32 first ++ (int32 page ++ (int32 (length key) ++ key))

-- `InternalUpdateKeyLogEntryHandler::serialize_body`
abbrev pub key_body : ℕ → List ℕ → List ℕ
key_body index key = int32 index ++ (int32 (length key) ++ key)

-- `NormalOperationLogEntryHandler::serialize_body`
abbrev pub items_body : ℕ → List ℕ → ℕ → List ℕ
items_body index items num = int32 index ++ (int32 num ++ (int32 (length items) ++ items))

-- `serialize_body` of each handler
unfoldable pub serialize_body : NodeLog → List ℕ
serialize_body (init_header_page header) = header
serialize_body (update_root_page page old) = page_body page
serialize_body (set_parent_page page old) = page_body page
serialize_body leaf_init_empty = []
serialize_body (leaf_set_next_page page old) = page_body page
serialize_body internal_init_empty = []
serialize_body (internal_create_new_root first key page) = new_root_body first key page
serialize_body (internal_update_key index key old) = key_body index key
serialize_body (node_insert index items num) = items_body index items num
serialize_body (node_remove index items num) = items_body index items num

-- `LogEntryHandler::serialize`
unfoldable pub serialize : LogEntryHandler → List ℕ
serialize e = int32 (index_of e.operation) ++ (int32 e.page_num ++ serialize_body e.operation)

-- What reading gives: a code, an exception, or a value and the bytes behind it.
pub data Parsed (A : Type 0) : Type 0 where
  failed : Rc → Parsed A
  raised : Parsed A
  parsed : A → List ℕ → Parsed A

abbrev pub and_then : {A B : Type 0} → Parsed A → (A → List ℕ → Parsed B) → Parsed B
and_then (failed rc) next = failed rc
and_then raised next = raised
and_then (parsed a rest) next = next a rest

-- `Deserializer::read`; the code is that which the caller gives back.
unfoldable pub read_bytes : Rc → ℕ → List ℕ → Parsed (List ℕ)
read_bytes rc n bs = elim (readn n bs) [ none ↦ failed rc | some (b, rest) ↦ parsed b rest ]

-- `Deserializer::read_int32`
unfoldable pub read_int32 : Rc → List ℕ → Parsed ℕ
read_int32 rc bs = and_then (read_bytes rc 4 bs) (λ b rest. parsed (le_number b) rest)

-- A size, and a vector of that size. One that is negative is too large for a vector.
unfoldable pub read_vector : List ℕ → Parsed (List ℕ)
read_vector bs =
    and_then (read_int32 Rc.internal bs)
      (λ size rest. if leb (2 ^ 31) size then raised else read_bytes Rc.internal size rest)

-- `InitHeaderPageLogEntryHandler::deserialize`
abbrev pub read_file_header : List ℕ → Parsed NodeLog
read_file_header bs =
    and_then (read_bytes Rc.internal file_header_size bs)
      (λ header rest. parsed (init_header_page header) rest)

-- `deserialize` of `UpdateRootPageLogEntryHandler`, `SetParentPageLogEntryHandler` and
-- `LeafSetNextPageLogEntryHandler`
abbrev pub read_page : (ℕ → NodeLog) → List ℕ → Parsed NodeLog
read_page operation bs =
    and_then (read_int32 Rc.internal bs) (λ page rest. parsed (operation page) rest)

-- `InternalCreateNewRootLogEntryHandler::deserialize`
abbrev pub read_new_root : List ℕ → Parsed NodeLog
read_new_root bs = and_then (read_int32 Rc.internal bs) (λ first rest.
    and_then (read_int32 Rc.internal rest) (λ page rest.
      and_then (read_vector rest)
        (λ key rest. parsed (internal_create_new_root first key page) rest)))

-- `InternalUpdateKeyLogEntryHandler::deserialize`
abbrev pub read_key : List ℕ → Parsed NodeLog
read_key bs = and_then (read_int32 Rc.internal bs) (λ index rest.
    and_then (read_vector rest) (λ key rest. parsed (internal_update_key index key []) rest))

-- `NormalOperationLogEntryHandler::deserialize`
abbrev pub read_items : (ℕ → List ℕ → ℕ → NodeLog) → List ℕ → Parsed NodeLog
read_items operation bs = and_then (read_int32 Rc.internal bs) (λ index rest.
    and_then (read_int32 Rc.internal rest) (λ num rest.
      and_then (read_vector rest) (λ items rest. parsed (operation index items num) rest)))

-- `deserialize` of the handlers, by the number of the operation
unfoldable pub deserialize : ℕ → List ℕ → Parsed NodeLog
deserialize type bs =
    if type == 0
    then read_file_header bs
    else if type == 1
    then read_page (λ page. update_root_page page no_page) bs
    else if type == 2
    then read_page (λ page. set_parent_page page no_page) bs
    else if type == 3
    then parsed leaf_init_empty bs
    else if type == 4
    then read_page (λ page. leaf_set_next_page page no_page) bs
    else if type == 5
    then parsed internal_init_empty bs
    else if type == 6
    then read_new_root bs
    else if type == 7
    then read_key bs
    else if type == 8
    then read_items node_insert bs
    else if type == 9
    then read_items node_remove bs
    else failed Rc.internal

-- `LogEntryHandler::from_buffer`; `frame_getter` says whether the page can be had.
unfoldable pub from_buffer : (ℕ → Rc) → List ℕ → Parsed LogEntryHandler
from_buffer frame_getter bs = and_then (read_int32 Rc.invalid_argument bs) (λ type rest.
    if leb 10 type
    then failed Rc.invalid_argument
    else and_then (read_int32 Rc.invalid_argument rest) (λ page_num rest.
      if ob_succ (frame_getter page_num)
      then and_then (deserialize type rest)
          (λ operation rest. parsed (record { page_num = page_num; operation = operation }) rest)
      else failed (frame_getter page_num)))
