-- ===== src/Clog/Manager/Files.antt =====
-- The files are kept in order, and those that a replay needs are found.
use ob_htap.Prelude.{
  ℕ, suc, ◌+◌, ◌≡◌, ◌≤◌, ◌<◌, refl, ap, List, [], ◌∷◌, ◌++◌, Bool, true, false, Option, none, some,
  ltb, ◌==◌, arith, All, All-mono, Option-cases, Bool-cases, inl, inr,
}
use ob_htap.Clog.File.{LogFileWriter}
use ob_htap.Clog.Manager.{
  LogFileManager, contains, emplace, add_files, last_item, next_lsn, FileSystem, next_file,
}
use Prim.Native.String.{String}

-- The first LSNs of the files rise, and all are `lo` or more.
abbrev pub IsRising : ℕ → List (ℕ × String) → Type 0
IsRising lo [] = Unit {0}
IsRising lo ((k, p) ∷ m) = (lo ≤ k) × IsRising (suc k) m

IsRising-mono : (lo hi : ℕ) (m : List (ℕ × String)) → lo ≤ hi → IsRising hi m → IsRising lo m
IsRising-mono lo hi [] h r = tt
IsRising-mono lo hi ((k, p) ∷ m) h r = (omega (arith, r.0), r.1)

emplace-IsRising :
    (lo k : ℕ) (p : String) (m : List (ℕ × String))
    → lo ≤ k
    → IsRising lo m
    → IsRising lo (emplace k p m)
unfolding emplace
emplace-IsRising lo k p [] h r = (h, tt)
emplace-IsRising lo k p ((j, q) ∷ m) h r = elim (Bool-cases (j == k)) [
  | inl y ↦ rw y r
  | inr n ↦ elim (Bool-cases (ltb k j)) [
    | inl a ↦ rw (n, a) (h, (ground arith, r.1))
    | inr b ↦ rw (n, b) (r.0, emplace-IsRising (suc j) k p m (ground arith) r.1)
  ]
]

-- Whatever the directory holds, and in whatever order it is listed, the files are kept in order.
pub add_files-IsRising :
    (lsn_of : String → Option ℕ) (entries : List (Bool × String)) (m : List (ℕ × String))
    → IsRising 0 m
    → IsRising 0 (add_files lsn_of entries m)
unfolding add_files
add_files-IsRising lsn_of [] m r = r
add_files-IsRising lsn_of ((false, name) ∷ entries) m r = add_files-IsRising lsn_of entries m r
add_files-IsRising lsn_of ((true, name) ∷ entries) m r = elim (Option-cases (lsn_of name)) [
  | inl n ↦ rw n (add_files-IsRising lsn_of entries m r)
  | inr (k, e) ↦ elim (Bool-cases (contains k m)) [
    | inl y ↦ rw (e, y) (add_files-IsRising lsn_of entries m r)
    | inr f ↦
        rw (e, f)
          (add_files-IsRising lsn_of entries (emplace k name m)
            (emplace-IsRising 0 k name m (omega arith) r))
  ]
]

-- Each file begins `step` or more after the one before it, the first at `lo` or more.
abbrev pub IsSpaced : ℕ → ℕ → List (ℕ × String) → Type 0
IsSpaced step lo [] = Unit {0}
IsSpaced step lo ((k, p) ∷ m) = (lo ≤ k) × IsSpaced step (k + step) m

last_item-none {ℓ} :
    (P : ℕ × String → Type ℓ) (m : List (ℕ × String)) → last_item m ≡ none → All P m
unfolding last_item
last_item-none P [] e = tt
last_item-none P (f ∷ m) e = elim (Option-cases (last_item m)) [
  | inl n ↦ absurd (ground arith)
  | inr (g, y) ↦ absurd (ground arith)
]

-- The last file begins after all the others.
last_item-IsSpaced :
    (step lo : ℕ) (m : List (ℕ × String)) {f : ℕ × String}
    → IsSpaced step lo m
    → last_item m ≡ some f
    → (lo ≤ f.0) × All (λ g. g.0 ≤ f.0) m
unfolding last_item
last_item-IsSpaced step lo [] r e = absurd (ground arith)
last_item-IsSpaced step lo ((k, p) ∷ m) {f} r e = elim (Option-cases (last_item m)) [
  | inl n ↦
      let q : f.0 ≡ k = ground arith in
      (omega (arith, r.0, q), (omega (arith, q), last_item-none (λ g. g.0 ≤ f.0) m n))
  | inr (g, y) ↦
      let q : last_item m ≡ some f = ground arith in
      let s = last_item-IsSpaced step (k + step) m {f = f} r.1 q in
      (omega (arith, r.0, s.0), (omega (arith, s.0), s.1))
]

later_ne : (j k : ℕ) → j < k → (j == k) ≡ false
later_ne j k h = ground arith

later_not_below : (j k : ℕ) → j < k → ltb k j ≡ false
later_not_below j k h = ground arith

-- A file that begins after all the others goes to the end, and stays `step` away from them.
emplace-IsSpaced :
    (step lo k : ℕ) (p : String) (m : List (ℕ × String))
    → 0 < step
    → lo ≤ k
    → IsSpaced step lo m
    → All (λ g. g.0 + step ≤ k) m
    → (emplace k p m ≡ m ++ (k, p) ∷ []) × IsSpaced step lo (m ++ (k, p) ∷ [])
unfolding emplace
emplace-IsSpaced step lo k p [] z h r a = (refl, (h, tt))
emplace-IsSpaced step lo k p ((j, q) ∷ m) z h r a =
    let s = emplace-IsSpaced step (j + step) k p m z a.0 r.1 a.1 in
    (
      rw (later_ne j k (omega arith), later_not_below j k (omega arith)) (ap (◌∷◌ (j, q)) s.0),
      (r.0, s.1),
    )

All-before :
    (m : LogFileManager)
    → IsSpaced m.max_entries 0 m.log_files
    → All (λ g. g.0 + m.max_entries ≤ next_lsn m) m.log_files
unfolding next_lsn
All-before m r = elim (Option-cases (last_item m.log_files)) [
  | inl n ↦ last_item-none _ m.log_files n
  | inr (f, e) ↦
      rw (e, next_lsn)
        (All-mono (λ g. g.0 ≤ f.0) (λ g. g.0 + m.max_entries ≤ f.0 + m.max_entries) m.log_files
          (λ g h. omega arith) (last_item-IsSpaced m.max_entries 0 m.log_files {f = f} r e).1)
]

-- The next file begins where no file before it can reach: each holds `max_entries` LSNs at most. It
-- goes behind them, and whether or not it can be opened the files are kept that far apart.
pub next_file-IsSpaced :
    (name_of : ℕ → String) (files : FileSystem) (w : LogFileWriter) (m : LogFileManager)
    → 0 < m.max_entries
    → IsSpaced m.max_entries 0 m.log_files
    → let (rc, w', m') = next_file name_of files w m in
      (m'.log_files ≡ m.log_files ++ (next_lsn m, name_of (next_lsn m)) ∷ [])
      × All (λ g. g.0 + m.max_entries ≤ next_lsn m) m.log_files
      × IsSpaced m'.max_entries 0 m'.log_files
unfolding next_file
next_file-IsSpaced name_of files w m z r =
    let a = All-before m r in
    let s =
      emplace-IsSpaced m.max_entries 0 (next_lsn m) (name_of (next_lsn m)) m.log_files z
        (omega arith) r a in
    (s.0, a, rw s.0 s.1)
