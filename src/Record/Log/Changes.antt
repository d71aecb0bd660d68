-- ===== src/Record/Log/Changes.antt =====
-- The changes of a page, each of which its own entry in the log makes again.
use ob_htap.Prelude.{
  ℕ, zero, suc, ◌<◌, ◌≡◌, refl, ap, ◌∙◌, List, [], ◌∷◌, ◌++◌, true, false, Option, none, some, ltb,
  leb, take, arith, Bool-cases, Option-cases, inl, inr,
}
use ob_htap.Rc.{Rc, ob_succ}
use ob_htap.Record.Bitmap.{get_bit}
use ob_htap.Record.Page.{Page, init_page, insert_row, delete_row, update_row}
use ob_htap.Record.Log.{
  RecordLog, init_page_log, insert, delete, update, Frame, Entries, init_empty_page, insert_record,
  delete_record, update_record, replay_operation, replay,
}

-- A change of a page.
pub data Change : Type 0 where
  lay_out : ℕ → Change
  put_row : List ℕ → Change
  drop_row : ℕ → Change
  set_row : ℕ → List ℕ → Change

-- A change, which the log takes under an LSN; the caller's return code is left out.
abbrev without_rc : Rc × Frame × Entries → Frame × Entries
without_rc (rc, f, es) = (f, es)

unfoldable pub perform : ℕ → Change → Frame → Option (Frame × Entries)
perform lsn (lay_out size) f = elim (init_empty_page (Rc.success, lsn) size f) [
  | none ↦ none
  | some r ↦ some (without_rc r)
]
perform lsn (put_row bytes) f = elim (insert_record (Rc.success, lsn) bytes f) [
  | none ↦ none
  | some r ↦ some (without_rc r)
]
perform lsn (drop_row slot) f = some (without_rc (delete_record (Rc.success, lsn) slot f))
perform lsn (set_row slot bytes) f =
    some (without_rc (update_record (Rc.success, lsn) slot bytes f))

unfoldable pub perform_all : List (ℕ × Change) → Frame → Option (Frame × Entries)
perform_all [] f = some (f, [])
perform_all ((lsn, c) ∷ cs) f = elim (perform lsn c f) [
  | none ↦ none
  | some (f', es) ↦ elim (perform_all cs f') [
    | none ↦ none
    | some (f'', es') ↦ some (f'', es ++ es')
  ]
]

take-take : (n : ℕ) (xs : List ℕ) → take n (take n xs) ≡ take n xs
take-take zero xs = refl
take-take (suc n) [] = refl
take-take (suc n) (x ∷ xs) = ap (◌∷◌ x) (take-take n xs)

insert_row-take :
    (bytes : List ℕ) (p : Page) → insert_row (take p.record_real_size bytes) p ≡ insert_row bytes p
unfolding insert_row
insert_row-take bytes p = ground (arith, take-take p.record_real_size bytes)

update_row-take :
    (slot : ℕ) (bytes : List ℕ) (p : Page)
    → update_row slot (take p.record_real_size bytes) p ≡ update_row slot bytes p
unfolding update_row
update_row-take slot bytes p = ground (arith, take-take p.record_real_size bytes)

insert_row_succeeds :
    (bytes : List ℕ) (p : Page) {rc : Rc} {slot : ℕ} {p' : Page}
    → insert_row bytes p ≡ some (rc, some slot, p')
    → rc ≡ Rc.success
unfolding insert_row
insert_row_succeeds bytes p h = ground arith

update_row_succeeds :
    (slot : ℕ) (bytes : List ℕ) (p : Page)
    → ob_succ (update_row slot bytes p).0 ≡ true
    → (update_row slot bytes p).0 ≡ Rc.success
unfolding update_row
update_row_succeeds slot bytes p h = ground arith

-- A change leaves the frame and the log alone, or it has one entry, whose replay makes the same change.
pub data Stepped (lsn : ℕ) (f : Frame) : Frame → Entries → Type 0 where
  idle : Stepped lsn f f []
  once :
      (e : RecordLog) (f' : Frame)
      → f'.lsn ≡ lsn
      → replay lsn e f ≡ some (Rc.success, f')
      → Stepped lsn f f' ((lsn, e) ∷ [])

module _ (lsn : ℕ) (f : Frame) (z : 0 < lsn) (l : f.lsn < lsn) where
  abbrev moved : Page → Frame
  moved p = record { lsn = lsn; page = p }

  positive : ltb 0 lsn ≡ true
  positive = ground arith

  unseen : leb lsn f.lsn ≡ false
  unseen = ground arith

  -- The replay of an entry whose operation succeeds.
  replay_moved :
      (e : RecordLog) (p : Page)
      → replay_operation e f ≡ some (Rc.success, record f { page = p })
      → replay lsn e f ≡ some (Rc.success, moved p)
  unfolding replay
  replay_moved e p h = rw (unseen, h) refl

  lay_out_lem :
      (size : ℕ) {f' : Frame} {es : Entries}
      → perform lsn (lay_out size) f ≡ some (f', es)
      → Stepped lsn f f' es
  unfolding perform init_empty_page replay_operation
  lay_out_lem size {f'} {es} h = elim (Option-cases (init_page size)) [
    | inl n ↦ absurd (ground arith)
    | inr (p, e) ↦
        let a : f' ≡ moved p = ground (arith, positive) in
        let b : es ≡ (lsn, init_page_log size) ∷ [] = ground arith in
        rw (a, b)
          (once (init_page_log size) (moved p) refl
            (replay_moved (init_page_log size) p (rw (e, replay_operation) refl)))
  ]

  put_row_lem :
      (bytes : List ℕ) {f' : Frame} {es : Entries}
      → perform lsn (put_row bytes) f ≡ some (f', es)
      → Stepped lsn f f' es
  unfolding perform insert_record replay_operation
  put_row_lem bytes {f'} {es} h = elim (Option-cases (insert_row bytes f.page)) [
    | inl n ↦ absurd (ground arith)
    | inr ((rc, none, p), e) ↦
        let a : f' ≡ f = ground arith in let b : es ≡ [] = ground arith in rw (a, b) idle
    | inr ((rc, some slot, p), e) ↦
        let ok : rc ≡ Rc.success = insert_row_succeeds bytes f.page e in
        let entry = insert slot (take f.page.record_real_size bytes) in
        let a : f' ≡ moved p = ground (arith, positive) in
        let b : es ≡ (lsn, entry) ∷ [] = ground arith in
        let same : insert_row (take f.page.record_real_size bytes) f.page
            ≡ some (rc, some slot, p) =
          insert_row-take bytes f.page ∙ e in
        rw (a, b)
          (once entry (moved p) refl (replay_moved entry p (rw (same, ok, replay_operation) refl)))
  ]

  drop_row_lem :
      (slot : ℕ) {f' : Frame} {es : Entries}
      → perform lsn (drop_row slot) f ≡ some (f', es)
      → Stepped lsn f f' es
  unfolding perform delete_record replay_operation delete_row
  drop_row_lem slot {f'} {es} h = elim (Bool-cases (get_bit f.page.bitmap slot)) [
    | inl y ↦
        let p = (delete_row slot f.page).1 in
        let a : f' ≡ moved p = ground (arith, positive) in
        let b : es ≡ (lsn, delete slot) ∷ [] = ground arith in
        rw (a, b) (once (delete slot) (moved p) refl (replay_moved (delete slot) p (ground arith)))
    | inr n ↦ let a : f' ≡ f = ground arith in let b : es ≡ [] = ground arith in rw (a, b) idle
  ]

  set_row_lem :
      (slot : ℕ) (bytes : List ℕ) {f' : Frame} {es : Entries}
      → perform lsn (set_row slot bytes) f ≡ some (f', es)
      → Stepped lsn f f' es
  unfolding perform update_record replay_operation
  set_row_lem slot bytes {f'} {es} h =
      elim (Bool-cases (ob_succ (update_row slot bytes f.page).0)) [
        | inl y ↦
            let p = (update_row slot bytes f.page).1 in
            let ok = update_row_succeeds slot bytes f.page y in
            let entry = update slot (take f.page.record_real_size bytes) in
            let a : f' ≡ moved p = ground (arith, positive) in
            let b : es ≡ (lsn, entry) ∷ [] = ground arith in
            rw (a, b)
              (once entry (moved p) refl (
                replay_moved entry p (
                  rw (update_row-take slot bytes f.page, ok, replay_operation, update_record)
                    refl)))
        | inr n ↦ let a : f' ≡ f = ground arith in let b : es ≡ [] = ground arith in rw (a, b) idle
      ]

pub perform-Stepped :
    (lsn : ℕ) (f : Frame) (c : Change) {f' : Frame} {es : Entries}
    → f.lsn < lsn
    → perform lsn c f ≡ some (f', es)
    → Stepped lsn f f' es
perform-Stepped lsn f (lay_out size) l h = lay_out_lem lsn f (omega arith) l size h
perform-Stepped lsn f (put_row bytes) l h = put_row_lem lsn f (omega arith) l bytes h
perform-Stepped lsn f (drop_row slot) l h = drop_row_lem lsn f (omega arith) l slot h
perform-Stepped lsn f (set_row slot bytes) l h = set_row_lem lsn f (omega arith) l slot bytes h
