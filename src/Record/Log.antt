-- ===== src/Record/Log.antt =====
-- src/observer/storage/record/record_log.cpp, and the operations of a page with their log records. What
-- the log answers to a record, an LSN with it, is an argument; the vacuous log handler answers 0. A page
-- has been fetched: the pool that it lies in is there, and the entry is that of a record operation.
pub mod Changes
pub mod Recovery
use ob_htap.Prelude.{ℕ, List, [], ◌∷◌, ◌&&◌, Option, none, some, if◌then◌else◌, ltb, leb, take}
use ob_htap.Rc.{Rc, ob_succ}
use ob_htap.Record.Page.{Page, init_page, insert_row, delete_row, update_row}

-- The records of record_log.h, at one page.
pub data RecordLog : Type 0 where
  init_page_log : ℕ → RecordLog
  insert : ℕ → List ℕ → RecordLog
  delete : ℕ → RecordLog
  update : ℕ → List ℕ → RecordLog
  unknown : RecordLog

-- `Frame`: the LSN that the page was changed under at last, and the page.
pub record Frame : Type 0 where
  pub lsn : ℕ
  pub page : Page

-- What the log answers to `append`: a code and an LSN.
abbrev pub Answer : Type 0
Answer = Rc × ℕ

abbrev pub Entries : Type 0
Entries = List (ℕ × RecordLog)

-- The end of each method of `RecordLogHandler`: the frame takes the LSN.
abbrev pub stamped : Answer → Frame → Frame
stamped (rc, lsn) f = if ob_succ rc && ltb 0 lsn then record f { lsn = lsn } else f

-- What the log has then.
abbrev pub logged : Answer → RecordLog → Entries
logged (rc, lsn) e = if ob_succ rc then (lsn, e) ∷ [] else []

abbrev pub vacuous : Answer
vacuous = (Rc.success, 0)

-- `RecordPageHandler::init_empty_page`
unfoldable pub init_empty_page : Answer → ℕ → Frame → Option (Rc × Frame × Entries)
init_empty_page answer record_size f = elim (init_page record_size) [
  | none ↦ none
  | some p ↦
      some (
        answer.0,
        stamped answer (record f { page = p }),
        logged answer (init_page_log record_size),
      )
]

-- `RowRecordPageHandler::insert_record`; what the log answers is not handed on.
unfoldable pub insert_record : Answer → List ℕ → Frame → Option (Rc × Frame × Entries)
insert_record answer bytes f = elim (insert_row bytes f.page) [
  | none ↦ none
  | some (rc, none, p) ↦ some (rc, f, [])
  | some (rc, some slot, p) ↦ some (
    rc,
    stamped answer (record f { page = p }),
    logged answer (insert slot (take f.page.record_real_size bytes)),
  )
]

-- `RowRecordPageHandler::delete_record`
unfoldable pub delete_record : Answer → ℕ → Frame → Rc × Frame × Entries
delete_record answer slot f =
    let (rc, p) = delete_row slot f.page in
    if ob_succ rc
    then (rc, stamped answer (record f { page = p }), logged answer (delete slot))
    else (rc, f, [])

-- `RowRecordPageHandler::update_record`
unfoldable pub update_record : Answer → ℕ → List ℕ → Frame → Rc × Frame × Entries
update_record answer slot bytes f =
    let (rc, p) = update_row slot bytes f.page in
    if ob_succ rc
    then (
      rc,
      stamped answer (record f { page = p }),
      logged answer (update slot (take f.page.record_real_size bytes)),
    )
    else (rc, f, [])

-- `replay_init_page`, `replay_insert`, `replay_delete` and `replay_update`
unfoldable pub replay_operation : RecordLog → Frame → Option (Rc × Frame)
replay_operation (init_page_log record_size) f = elim (init_empty_page vacuous record_size f) [
  | none ↦ none
  | some (rc, f', es) ↦ some (rc, f')
]
replay_operation (insert slot bytes) f = elim (insert_record vacuous bytes f) [
  | none ↦ none
  | some (rc, f', es) ↦ some (rc, f')
]
replay_operation (delete slot) f = let (rc, f', es) = delete_record vacuous slot f in some (rc, f')
replay_operation (update slot bytes) f =
    let (rc, f', es) = update_record vacuous slot bytes f in some (rc, f')
replay_operation unknown f = some (Rc.invalid_argument, f)

-- `RecordLogReplayer::replay` of an entry for the page. An entry that the page has seen is passed over.
unfoldable pub replay : ℕ → RecordLog → Frame → Option (Rc × Frame)
replay lsn e f = if leb lsn f.lsn then some (Rc.success, f) else elim (replay_operation e f) [
  | none ↦ none
  | some (rc, f') ↦ some (if ob_succ rc then (rc, record f' { lsn = lsn }) else (rc, f'))
]

-- The entries of the log in order, until one fails.
unfoldable pub replay_all : Entries → Frame → Option (Rc × Frame)
replay_all [] f = some (Rc.success, f)
replay_all ((lsn, e) ∷ es) f = elim (replay lsn e f) [
  | none ↦ none
  | some (rc, f') ↦ let rest = replay_all es f' in if ob_succ rc then rest else some (rc, f')
]
