-- ===== src/Buffer/File/Steps.antt =====
-- Operations on the header, each with the entry that it logs, and the entries that a frame has seen.
use ob_htap.Prelude.{
  ℕ, ◌*◌, ◌≤◌, ◌<◌, ◌≡◌, ◌≢◌, refl, ◌⊎◌, List, [], ◌∷◌, ◌++◌, true, false, Option, none, some,
  if◌then◌else◌, leb, ◌==◌, length, arith, Bool-cases, inl, inr, All,
}
use ob_htap.Rc.{Rc, ob_succ}
use ob_htap.Record.Bitmap.{get_bit}
use ob_htap.Buffer.File.{
  FileHeader, HdrFrame, PoolLog, Entries, take_bit, free_bit, extended, allocate_page, dispose_page,
  check_page_num, max_page_num, allocate, deallocate, unknown, replay, redo_allocate_page,
  redo_deallocate_page,
}
use ob_htap.Buffer.File.Valid.{IsValid, take_bit-IsValid, free_bit-IsValid, extended-IsValid}
use ob_htap.Buffer.File.Allocate.{
  Branch, reused, grown, refused, outside, allocate_page-Branch, check_page_num-success,
  dispose_page-Lost,
}

-- What a caller does to the pages of a file; only an allocated page is disposed of.
pub data PageOp : Type 0 where
  take : PageOp
  drop : ℕ → PageOp

abbrev pub left : Option (Rc × Option ℕ × HdrFrame × Entries) → Option (HdrFrame × Entries)
left none = none
left (some (rc, page, f, es)) = some (f, es)

abbrev pub changed : Option (Rc × HdrFrame × Entries) → Option (HdrFrame × Entries)
changed none = none
changed (some (rc, f, es)) = some (f, es)

-- An operation that the log takes under an LSN.
unfoldable pub perform : ℕ → ℕ → PageOp → HdrFrame → Option (HdrFrame × Entries)
perform data_size lsn take f = left (allocate_page data_size (Rc.success, lsn) f)
perform data_size lsn (drop p) f =
    if ob_succ (check_page_num f.header p)
    then changed (dispose_page (Rc.success, lsn) p f)
    else none

unfoldable pub perform_all : ℕ → List (ℕ × PageOp) → HdrFrame → Option (HdrFrame × Entries)
perform_all data_size [] f = some (f, [])
perform_all data_size ((lsn, op) ∷ ops) f = elim (perform data_size lsn op f) [
  | none ↦ none
  | some (f', es) ↦ elim (perform_all data_size ops f') [
    | none ↦ none
    | some (fn, es') ↦ some (fn, es ++ es')
  ]
]

-- The LSNs rise from above `lo`.
abbrev pub AreRising : ℕ → List (ℕ × PageOp) → Type 0
AreRising lo [] = Unit {0}
AreRising lo ((lsn, op) ∷ ops) = (lo < lsn) × AreRising lsn ops

-- Nothing is left to do for an entry: its LSN is not above the page's, or its page is taken.
abbrev pub Seen : HdrFrame → ℕ × PoolLog → Type 0
Seen g (lsn, allocate p) =
    (lsn ≤ g.lsn) ⊎ ((p < g.header.page_count) × (get_bit g.header.bitmap p ≡ true))
Seen g (lsn, deallocate p) = lsn ≤ g.lsn
Seen g (lsn, unknown p) = ⊥

-- An entry that is not above an LSN, and is an operation.
abbrev pub Passed : ℕ → ℕ × PoolLog → Type 0
Passed hi (lsn, allocate p) = lsn ≤ hi
Passed hi (lsn, deallocate p) = lsn ≤ hi
Passed hi (lsn, unknown p) = ⊥

module _ (data_size : ℕ) where
  pub Seen-replay :
      (lsn : ℕ) (e : PoolLog) (g : HdrFrame)
      → Seen g (lsn, e)
      → replay data_size lsn e g ≡ (Rc.success, g)
  unfolding replay redo_allocate_page redo_deallocate_page
  Seen-replay lsn (allocate p) g (inl l) = let y : leb lsn g.lsn ≡ true = ground arith in rw y refl
  Seen-replay lsn (allocate p) g (inr (l, b)) = ground arith
  Seen-replay lsn (deallocate p) g l = let y : leb lsn g.lsn ≡ true = ground arith in rw y refl
  Seen-replay lsn (unknown p) g l = absurd l

  -- One operation on the header, and what it logs.
  pub data Step (lsn : ℕ) (f : HdrFrame) : HdrFrame → Entries → Type 0 where
    idle : Step lsn f f []
    took :
        (i : ℕ)
        → i < f.header.page_count
        → get_bit f.header.bitmap i ≡ false
        → Step lsn f
            (record { lsn = lsn; dirty = true; header = take_bit f.header i })
            ((lsn, allocate i) ∷ [])
    grew :
        f.header.page_count < 8 * length f.header.bitmap
        → f.header.page_count < max_page_num data_size
        → Step lsn f
            (record { lsn = lsn; dirty = true; header = extended f.header })
            ((lsn, allocate f.header.page_count) ∷ [])
    gave :
        (i : ℕ)
        → i < f.header.page_count
        → get_bit f.header.bitmap i ≡ true
        → i ≢ 0
        → Step lsn f
            (record { lsn = lsn; dirty = true; header = free_bit f.header i })
            ((lsn, deallocate i) ∷ [])

  abbrev pub StepTo : ℕ → HdrFrame → Option (HdrFrame × Entries) → Type 0
  StepTo lsn f none = Unit
  StepTo lsn f (some (f', es)) = Step lsn f f' es

  pub Branch-StepTo :
      (lsn : ℕ) (f : HdrFrame) (v : IsValid f.header)
      {r : Option (Rc × Option ℕ × HdrFrame × Entries)}
      → Branch data_size (Rc.success, lsn) f v r
      → StepTo lsn f (left r)
  Branch-StepTo lsn f v (reused i l free) = took i l free
  Branch-StepTo lsn f v (grown room below) = grew room below
  Branch-StepTo lsn f v (refused all at_most) = idle
  Branch-StepTo lsn f v (outside all at below) = tt

  pub succeeded :
      (h : FileHeader) (p : ℕ)
      → ob_succ (check_page_num h p) ≡ true
      → check_page_num h p ≡ Rc.success
  unfolding check_page_num
  succeeded h p y = ground arith

  pub perform-Step :
      (lsn : ℕ) (op : PageOp) (f : HdrFrame)
      → IsValid f.header
      → StepTo lsn f (perform data_size lsn op f)
  unfolding perform dispose_page
  perform-Step lsn take f v =
      Branch-StepTo lsn f v (allocate_page-Branch data_size (Rc.success, lsn) f v)
  perform-Step lsn (drop p) f v = elim (Bool-cases (ob_succ (check_page_num f.header p))) [
    | inl y ↦ elim (Bool-cases (p == 0)) [
      | inl z ↦ rw (perform, y, dispose_page, z) idle
      | inr n ↦
          let c = succeeded f.header p y in
          let (l, e) = check_page_num-success f.header p c in
          let (d, valid, lost) = dispose_page-Lost (Rc.success, lsn) p f v (ground arith) c in
          rw (perform, y, d) (gave p l e (ground arith))
    ]
    | inr n ↦ rw (perform, n) tt
  ]

  module _ {lsn : ℕ} {f : HdrFrame} where
    pub Step-IsValid :
        {f' : HdrFrame} {es : Entries} → IsValid f.header → Step lsn f f' es → IsValid f'.header
    Step-IsValid v idle = v
    Step-IsValid v (took i l e) = take_bit-IsValid f.header v i l e
    Step-IsValid v (grew room below) = extended-IsValid f.header v room
    Step-IsValid v (gave i l e n) = free_bit-IsValid f.header v i l e n

    -- The LSN is that of the entry, or nothing is logged.
    pub Step-bounded :
        {f' : HdrFrame} {es : Entries}
        → f.lsn < lsn
        → Step lsn f f' es
        → (f.lsn ≤ f'.lsn) × (f'.lsn ≤ lsn) × All (Passed f'.lsn) es
    Step-bounded l idle = (omega arith, omega arith, tt)
    Step-bounded l (took i _ _) = (omega arith, omega arith, (omega arith, tt))
    Step-bounded l (grew _ _) = (omega arith, omega arith, (omega arith, tt))
    Step-bounded l (gave i _ _ _) = (omega arith, omega arith, (omega arith, tt))
