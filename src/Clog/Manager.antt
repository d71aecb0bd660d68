-- ===== src/Clog/Manager.antt =====
-- `LogFileManager` of src/observer/storage/clog/log_file.h and log_file.cpp. The files are kept by
-- the LSN in their names, lowest first (`std::map`). What the standard library does is an argument:
-- reading an LSN from a name, making a name of one, and opening a file with its content.
pub mod Files
use ob_htap.Prelude.{
  ℕ, ◌+◌, ◌-◌, List, [], ◌∷◌, Bool, true, false, Option, none, some, if◌then◌else◌, ltb, leb, ◌==◌,
}
use ob_htap.Rc.{Rc}
use ob_htap.Clog.File.{LogFileWriter, to_int, open_writer, close_writer}
use Prim.Native.String.{String}

pub record LogFileManager : Type 0 where
  pub max_entries : ℕ
  pub log_files : List (ℕ × String)

-- `std::map::find` and `std::map::emplace`, which leaves a key that is there.
unfoldable pub contains : ℕ → List (ℕ × String) → Bool
contains k [] = false
contains k ((j, path) ∷ m) = if j == k then true else contains k m

unfoldable pub emplace : ℕ → String → List (ℕ × String) → List (ℕ × String)
emplace k p [] = (k, p) ∷ []
emplace k p ((j, path) ∷ m) =
    if j == k
    then (j, path) ∷ m
    else if ltb k j
    then (k, p) ∷ (j, path) ∷ m
    else (j, path) ∷ emplace k p m

-- The loop of `LogFileManager::init` over the directory: whether each entry is a regular file, and
-- its name.
unfoldable pub add_files :
    (String → Option ℕ) → List (Bool × String) → List (ℕ × String) → List (ℕ × String)
add_files lsn_of [] m = m
add_files lsn_of ((regular, name) ∷ entries) m = add_files lsn_of entries (
    if regular
    then elim (lsn_of name) [
      | none ↦ m
      | some lsn ↦ if contains lsn m then m else emplace lsn name m
    ]
    else m)

-- `LogFileManager::init`; `directory` is that the directory is there or can be made.
unfoldable pub init_manager :
    (String → Option ℕ) → Bool → List (Bool × String) → ℕ → LogFileManager → Rc × LogFileManager
init_manager lsn_of directory entries max_entries m =
    if directory
    then (
      Rc.success,
      record { max_entries = max_entries; log_files = add_files lsn_of entries m.log_files },
    )
    else (Rc.file_create, record m { max_entries = max_entries })

-- The loop of `list_files`: `first + max_entry_number_per_file_ - 1 >= start_lsn`
unfoldable pub list_files : ℕ → ℕ → List (ℕ × String) → List String
list_files max_entries start [] = []
list_files max_entries start ((first, path) ∷ m) =
    let rest = list_files max_entries start m in
    if leb (start + 1) (first + max_entries) then path ∷ rest else rest

-- `log_files_.rbegin()`
unfoldable pub last_item : List (ℕ × String) → Option (ℕ × String)
last_item [] = none
last_item (f ∷ m) = elim (last_item m) [ none ↦ some f | some g ↦ some g ]

-- Whether a file can be opened, and what it holds.
abbrev pub FileSystem : Type 0
FileSystem = String → Bool × List ℕ

-- The first LSN of the next file.
unfoldable pub next_lsn : LogFileManager → ℕ
next_lsn m = elim (last_item m.log_files) [ none ↦ 0 | some f ↦ f.0 + m.max_entries ]

-- `LogFileManager::next_file`
unfoldable pub next_file :
    (ℕ → String) → FileSystem → LogFileWriter → LogFileManager → Rc × LogFileWriter × LogFileManager
next_file name_of files w m =
    let lsn = next_lsn m in
    let (found, content) = files (name_of lsn) in
    let (rc, w') =
      open_writer found content (to_int (lsn + m.max_entries - 1)) (close_writer w).1 in
    (rc, w', record m { log_files = emplace lsn (name_of lsn) m.log_files })

-- `LogFileManager::last_file`
unfoldable pub last_file :
    (ℕ → String) → FileSystem → LogFileWriter → LogFileManager → Rc × LogFileWriter × LogFileManager
last_file name_of files w m = elim (last_item m.log_files) [
  | none ↦ next_file name_of files w m
  | some (first, path) ↦
      let (found, content) = files path in
      let (rc, w') =
        open_writer found content (to_int (first + m.max_entries - 1)) (close_writer w).1 in
      (rc, w', m)
]
