-- ===== src/Lib.antt =====
-- A verification library of this database server: its transactions, its commit log, its buffer pool, the
-- pages of its rows, the nodes of its index, its optimizer and the buffer of its connections.
--
-- A client's statement changes rows through a transaction (src/observer/storage/trx). The
-- transaction notes each change and hands a record of it to the commit log
-- (src/observer/storage/clog), which numbers the records, queues them, and writes them to files in
-- a thread of its own. The rows lie in pages (src/observer/storage/record), and an index
-- (src/observer/storage/index) finds them by key in the nodes of a tree; both log what they change in
-- a page under an LSN, which the page keeps. The buffer pool (src/observer/storage/buffer) allocates the
-- pages of a file and holds them in frames. After a restart the files are read again, and each entry
-- goes to the replayer of its module, which passes over what a page has seen. The optimizer
-- (src/observer/sql) rewrites the predicates of a statement and moves them to the scans. Answers go to
-- the client through a ring buffer (src/observer/net).
--
-- Prelude: the library's names that the modules share, Boolean tests, lists and integers over the
--   native numbers.
-- Rc: the return codes of src/observer/common/rc.h.
-- Trx.Heap: locations, rows with their two hidden fields, and `RecordFileHandler::visit_record` of
--   src/observer/storage/record/record_manager.cpp over a heap of rows.
-- Trx.Log: the log records of src/observer/storage/trx/mvcc_trx_log.h, and what a transaction reads
--   and writes beside its own fields (`World`).
-- Trx.Mvcc: `MvccTrx` of src/observer/storage/trx/mvcc_trx.cpp. visit_record, start_if_need,
--   insert_record, delete_record, update_record, commit, commit_with_trx_id and rollback keep their
--   names; the bodies of the two loops are commit_operation and rollback_operation.
-- Trx.Replay: `MvccTrx::redo`, and the replayer of mvcc_trx_log.cpp.
-- Clog.Entry: src/observer/storage/clog/log_entry.cpp, with the bytes of a header.
-- Clog.File: the reader and the writer of src/observer/storage/clog/log_file.cpp, and `readn` of
--   deps/common/io/io.cpp.
-- Clog.Buffer: src/observer/storage/clog/log_buffer.cpp.
-- Clog.Manager: `LogFileManager` of src/observer/storage/clog/log_file.cpp.
-- Clog.Handler: src/observer/storage/clog/disk_log_handler.cpp; thread_round is one round of
--   thread_func.
-- Clog.Dispatch: src/observer/storage/clog/integrated_log_replayer.cpp, over any four replayers of one
--   state.
-- Buffer.File: the pages of a file in src/observer/storage/buffer/disk_buffer_pool.cpp, and the replay
--   of buffer_pool_log.cpp.
-- Buffer.Lru: deps/common/lang/lru_cache.h.
-- Buffer.Frames: `BPFrameManager` of disk_buffer_pool.cpp and frame.cpp, with its allocator in
--   deps/common/mm/mem_pool.h, and `DiskBufferPool::allocate_frame`.
-- Index.LowerBound: deps/common/lang/lower_bound.h.
-- Index.Node: the array of a node and the leaf nodes of src/observer/storage/index/bplus_tree.cpp;
--   append, insert and remove are append_items, insert_item, remove_item and remove_key.
-- Index.Internal: the search in an inner node, `InternalIndexNodeHandler::lookup`, as lookup_child.
-- Index.Keys: `AttrComparator` and `KeyComparator` of src/observer/storage/index/bplus_tree.h, with
--   deps/common/lang/comparator.cpp and `RID::compare`. Index.Keys.Search has the searches in the nodes
--   by this comparison. The two tests of compare_float are arguments.
-- Index.Children: the changes of inner nodes in bplus_tree.cpp: insert is insert_child, append
--   append_children, move_half_to move_half, move_to move_all, and so on.
-- Index.Log: the entries of src/observer/storage/index/bplus_tree_log_entry.cpp and their bytes.
-- Index.Redo: the redo of an entry, and the changes of a page that it calls in bplus_tree.cpp.
-- Index.Logger: `BplusTreeLogger` of src/observer/storage/index/bplus_tree_log.cpp; redo is its
--   method __redo.
-- Record.Bitmap: deps/common/lang/bitmap.cpp.
-- Record.Page: the layout of a page and `RowRecordPageHandler` of
--   src/observer/storage/record/record_manager.cpp; insert_row, delete_row, update_row and get_row are
--   its methods without their log records.
-- Record.Log: those methods with their log records, and the replayer of
--   src/observer/storage/record/record_log.cpp.
-- Sql.Expr: the values of expressions in src/observer/sql/expr/expression.cpp. What the types compare
--   and convert, and the values of fields, are arguments.
-- Sql.Rewrite: comparison_simplification_rule.cpp and conjunction_simplification_rule.cpp of
--   src/observer/sql/optimizer.
-- Sql.Pushdown: predicate_pushdown_rewriter.cpp, and the filter of a table scan.
-- Net.RingBuffer: src/observer/net/ring_buffer.cpp.
-- Net.BufferedWriter: src/observer/net/buffered_writer.cpp; write is write_some.
--
-- An ASSERT that fails ends the process: the result is `none`. A wait that goes on is `none` too.
-- What the operating system, the disk and another component answer is an argument; a read or a seek
-- in an open file does not fail, and the number in a file's name is an argument too. Transaction
-- numbers are of type int32_t and wrap in `next_trx_id`; the 32 and 64 bits of a header's fields are
-- kept as bit patterns.
--
-- Fuel: writen takes one round for each byte and one more, since each but the last takes a byte; the
-- loops over a file and over an entry of the index take one round for each byte and one more, and
-- each round reads a header; the loops of the ring buffer take one round for each byte asked for and
-- one more, and each round but the last moves a byte or more; the search takes at most one round for
-- each element and one more, since each but the last looks at an element; allocate_frame takes two
-- rounds, since a purge that succeeds frees a frame. That this is enough is part of the theorems about
-- them.
--
-- Not modelled: locks, since each operation of a transaction and of the queue is one step; reading and
-- writing of pages, and the double write buffer; the rows of a transaction as rows of its pages; the
-- tree that the nodes of the index make; floating-point numbers; the SQL front end, the plans, and the
-- executor but for the filter of a scan; sockets; and the libraries in deps/3rd and deps/sled_wrapper.
pub mod Prelude
pub mod Rc
pub mod Trx
pub mod Buffer
pub mod Clog
pub mod Net
pub mod Index
pub mod Record
pub mod Sql
