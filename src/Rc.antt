-- ===== src/Rc.antt =====
-- src/observer/common/rc.h and rc.cpp: the return codes, and the test of success.
use mathlib.Core.Bool.{Bool, true, false}

pub data Rc : Type 0 where
  success error invalid_argument unimplemented sql_syntax internal nomem notfound empty full exist
        not_exist bufferpool_open bufferpool_nobuf bufferpool_invalid_page_num record_openned
        record_invalid_rid record_invalid_key record_duplicate_key record_nomem record_eof
        record_not_exist record_invisible schema_db_exist schema_view_exist schema_db_not_exist
        schema_db_not_opened schema_table_not_exist schema_table_exist schema_field_not_exist
        schema_field_missing schema_field_type_mismatch schema_index_name_repeat schema_index_unique
        ioerr_read ioerr_write ioerr_access ioerr_open ioerr_close ioerr_seek ioerr_too_long
        ioerr_sync locked_unlock locked_need_wait locked_concurrency_conflict file_exist
        file_not_exist file_name file_bound file_create file_open file_not_opened file_close
        file_remove generic_error variable_not_exists variable_not_valid logbuf_full log_file_full
        log_entry_invalid unsupported :
      Rc

-- `OB_SUCC`
abbrev pub ob_succ : Rc → Bool
ob_succ success = true
ob_succ _ = false
