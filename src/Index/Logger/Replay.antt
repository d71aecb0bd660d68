-- ===== src/Index/Logger/Replay.antt =====
-- The redo of what a mini transaction has committed.
use ob_htap.Prelude.{
  ℕ, zero, suc, ◌^◌, ◌≡◌, ◌<◌, ◌≤◌, refl, ap, List, [], ◌∷◌, ◌++◌, true, Option, none, some,
  if◌then◌else◌, leb, ◌==◌, length, arith, length-append, Option-cases, Bool-cases, inl, inr, sym,
  ◌∙◌,
}
use ob_htap.Rc.{Rc, ob_succ}
use ob_htap.Clog.Entry.Codec.{length-le_bytes}
use ob_htap.Clog.File.{readn}
use ob_htap.Index.Log.{
  NodeLog, init_header_page, update_root_page, set_parent_page, leaf_init_empty, leaf_set_next_page,
  internal_init_empty, internal_create_new_root, internal_update_key, node_insert, node_remove,
  LogEntryHandler, parsed, from_buffer, int32, serialize, serialize_body, index_of, read_int32,
  read_bytes,
}
use ob_htap.Index.Log.Codec.{IsEncodable, forget, from_buffer-serialize}
use ob_htap.Index.Redo.{Tree, redo_entry, redo_operation, redo_node}
use ob_htap.Index.Logger.{Lsns, set_lsns, serialize_all, redo_loop, redo}

-- The redo of entries as they are, without their bytes.
unfoldable pub redo_entries : ℕ → Lsns → List LogEntryHandler → Tree → Option (List ℕ × Tree)
redo_entries lsn lsns [] t = some ([], t)
redo_entries lsn lsns (e ∷ es) t =
    if leb lsn (lsns e.page_num) then redo_entries lsn lsns es t else elim (redo_entry e t) [
      | none ↦ none
      | some t' ↦ elim (redo_entries lsn lsns es t') [
        | none ↦ none
        | some (frames, t'') ↦ some (e.page_num ∷ frames, t'')
      ]
    ]

-- Entries whose fields fit their types, for pages that can be had.
abbrev pub AreEncodable : (ℕ → Rc) → List LogEntryHandler → Type 0
AreEncodable frame_getter [] = Unit {0}
AreEncodable frame_getter (e ∷ es) =
    (e.page_num < 2 ^ 32)
    × IsEncodable e.operation
    × (ob_succ (frame_getter e.page_num) ≡ true)
    × AreEncodable frame_getter es

-- What an entry forgets is not needed.
redo_operation-forget :
    (q : ℕ) (o : NodeLog) (t : Tree) → redo_operation q (forget o) t ≡ redo_operation q o t
unfolding redo_operation redo_node
redo_operation-forget q (init_header_page header) t = refl
redo_operation-forget q (update_root_page page old) t = refl
redo_operation-forget q (set_parent_page page old) t = refl
redo_operation-forget q leaf_init_empty t = refl
redo_operation-forget q (leaf_set_next_page page old) t = refl
redo_operation-forget q internal_init_empty t = refl
redo_operation-forget q (internal_create_new_root first key page) t = refl
redo_operation-forget q (internal_update_key index key old) t = refl
redo_operation-forget q (node_insert index items num) t = refl
redo_operation-forget q (node_remove index items num) t = refl

module _ (frame_getter : ℕ → Rc) (lsn : ℕ) (lsns : Lsns) where
  redo_loop-parsed :
      (fuel : ℕ) (bs : List ℕ) (t : Tree) {e : LogEntryHandler} {rest : List ℕ}
      → from_buffer frame_getter bs ≡ parsed e rest
      → redo_loop (suc fuel) frame_getter lsn lsns bs t ≡ (
          if leb lsn (lsns e.page_num)
          then redo_loop fuel frame_getter lsn lsns rest t
          else elim (redo_entry e t) [
            | none ↦ none
            | some t' ↦ elim (redo_loop fuel frame_getter lsn lsns rest t') [
              | none ↦ none
              | some (rc, frames, t'') ↦ some (rc, e.page_num ∷ frames, t'')
            ]
          ])
  unfolding redo_loop from_buffer read_int32 read_bytes readn
  redo_loop-parsed fuel [] t {e} {rest} h = absurd (ground arith)
  redo_loop-parsed fuel (b ∷ bs) t {e} {rest} h = elim (Bool-cases (leb lsn (lsns e.page_num))) [
    | inl y ↦ rw (redo_loop, h, y) refl
    | inr n ↦ rw (redo_loop, h, n) refl
  ]

  redo_loop-serialize_all :
      (es : List LogEntryHandler) (fuel : ℕ) (t : Tree)
      → AreEncodable frame_getter es
      → length es < fuel
      → redo_loop fuel frame_getter lsn lsns (serialize_all es) t
        ≡ elim (redo_entries lsn lsns es t) [
          | none ↦ none
          | some (frames, t') ↦ some (Rc.success, frames, t')
        ]
  unfolding redo_loop serialize_all redo_entries
  redo_loop-serialize_all es zero t a h = absurd (omega arith)
  redo_loop-serialize_all [] (suc fuel) t a h = refl
  redo_loop-serialize_all (e ∷ es) (suc fuel) t (p, i, g, a) h =
      redo_loop-parsed fuel (serialize e ++ serialize_all es) t
        (from_buffer-serialize frame_getter e (serialize_all es) p i g)
      ∙ rw (redo_operation-forget e.page_num e.operation t)
          (elim (Bool-cases (leb lsn (lsns e.page_num))) [
            | inl y ↦ rw (y) (redo_loop-serialize_all es fuel t a (omega arith))
            | inr n ↦ elim (Option-cases (redo_entry e t)) [
              | inl m ↦ rw (n, m) refl
              | inr (t', m) ↦
                  rw (n, m, redo_loop-serialize_all es fuel t' a (omega arith))
                    (elim (Option-cases (redo_entries lsn lsns es t')) [
                      | inl k ↦ rw (k) refl
                      | inr (r, k) ↦ rw (k) refl
                    ])
            ]
          ])

serialize_all_long : (es : List LogEntryHandler) → length es ≤ length (serialize_all es)
unfolding serialize_all serialize
serialize_all_long [] = omega arith
serialize_all_long (e ∷ es) =
    let type = int32 (index_of e.operation) in
    let body = int32 e.page_num ++ serialize_body e.operation in
    omega (
      arith,
      serialize_all_long es,
      length-append (type ++ body) (serialize_all es),
      length-append type body,
      length-le_bytes 4 (index_of e.operation),
    )

-- The redo of the bytes that entries were written as, for pages that can be had, is the redo of the entries
-- themselves, one by one: an entry is passed over where its page has an LSN that high, and the pages of
-- the others have the LSN then.
pub redo-serialize_all :
    (frame_getter : ℕ → Rc) (lsn : ℕ) (lsns : Lsns) (es : List LogEntryHandler) (t : Tree)
    → AreEncodable frame_getter es
    → redo frame_getter lsn (serialize_all es) (lsns, t) ≡ elim (redo_entries lsn lsns es t) [
      | none ↦ none
      | some (frames, t') ↦ some (Rc.success, set_lsns lsn frames lsns, t')
    ]
unfolding redo
redo-serialize_all frame_getter lsn lsns es t a =
    rw
      (
        redo,
        redo_loop-serialize_all frame_getter lsn lsns es (suc (length (serialize_all es))) t a
            (omega (arith, serialize_all_long es)),
      )
      (elim (Option-cases (redo_entries lsn lsns es t)) [
        | inl k ↦ rw (k) refl
        | inr (r, k) ↦ rw (k) refl
      ])

AreSeen : ℕ → List LogEntryHandler → Lsns → Type 0
AreSeen lsn [] lsns = Unit {0}
AreSeen lsn (e ∷ es) lsns = (lsn ≤ lsns e.page_num) × AreSeen lsn es lsns

module _ (lsn : ℕ) where
  abbrev seen_at : ℕ → Lsns → Lsns
  seen_at p lsns q = if p == q then lsn else lsns q

  seen_at_keeps : (p q : ℕ) (lsns : Lsns) → lsn ≤ lsns q → lsn ≤ seen_at p lsns q
  seen_at_keeps p q lsns h = ground arith

  seen_at_same : (p : ℕ) (lsns : Lsns) → lsn ≤ seen_at p lsns p
  seen_at_same p lsns = ground arith

  set_lsns_keeps : (ps : List ℕ) (q : ℕ) (lsns : Lsns) → lsn ≤ lsns q → lsn ≤ set_lsns lsn ps lsns q
  unfolding set_lsns
  set_lsns_keeps [] q lsns h = h
  set_lsns_keeps (p ∷ ps) q lsns h = set_lsns_keeps ps q (seen_at p lsns) (seen_at_keeps p q lsns h)

  -- After the redo every page has the LSN.
  redo_entries-AreSeen :
      (lsns : Lsns) (es : List LogEntryHandler) (t : Tree) (now : Lsns) {frames : List ℕ}
      {t' : Tree}
      → ((q : ℕ) → lsn ≤ lsns q → lsn ≤ now q)
      → redo_entries lsn lsns es t ≡ some (frames, t')
      → AreSeen lsn es (set_lsns lsn frames now)
  unfolding redo_entries AreSeen set_lsns
  redo_entries-AreSeen lsns [] t now u h = tt
  redo_entries-AreSeen lsns (e ∷ es) t now {frames} {t'} u h =
      elim (Bool-cases (leb lsn (lsns e.page_num))) [
        | inl y ↦
            let h' : redo_entries lsn lsns es t ≡ some (frames, t') = ground arith in
            (
              set_lsns_keeps frames e.page_num now (u e.page_num (ground arith)),
              redo_entries-AreSeen lsns es t now u h',
            )
        | inr n ↦ elim (Option-cases (redo_entry e t)) [
          | inl m ↦ absurd (ground arith)
          | inr (t₁, m) ↦ elim (Option-cases (redo_entries lsn lsns es t₁)) [
            | inl k ↦ absurd (ground arith)
            | inr ((fs, t₂), k) ↦
                let same : frames ≡ e.page_num ∷ fs = ground arith in
                rw (same) (
                  set_lsns_keeps fs e.page_num (seen_at e.page_num now)
                      (seen_at_same e.page_num now),
                  redo_entries-AreSeen lsns es t₁ (seen_at e.page_num now)
                      (λ q l. seen_at_keeps e.page_num q now (u q l)) k,
                )
          ]
        ]
      ]

  redo_entries_seen :
      (lsns : Lsns) (es : List LogEntryHandler) (t : Tree)
      → AreSeen lsn es lsns
      → redo_entries lsn lsns es t ≡ some ([], t)
  unfolding redo_entries AreSeen
  redo_entries_seen lsns [] t s = refl
  redo_entries_seen lsns (e ∷ es) t (l, s) =
      let y : leb lsn (lsns e.page_num) ≡ true = ground arith in
      rw (redo_entries, y) (redo_entries_seen lsns es t s)

-- After the redo of entries that were written, another redo of them, as after a second restart, succeeds
-- and leaves the pages and their LSNs as they are.
pub redo-redo :
    (frame_getter : ℕ → Rc) (lsn : ℕ) (lsns : Lsns) (es : List LogEntryHandler) (t : Tree) {rc : Rc}
    {lsns' : Lsns} {t' : Tree}
    → AreEncodable frame_getter es
    → redo frame_getter lsn (serialize_all es) (lsns, t) ≡ some (rc, lsns', t')
    → redo frame_getter lsn (serialize_all es) (lsns', t') ≡ some (Rc.success, lsns', t')
unfolding set_lsns
redo-redo frame_getter lsn lsns es t {rc} {lsns'} {t'} a h =
    elim (Option-cases (redo_entries lsn lsns es t)) [
      | inl k ↦
          let nothing : redo frame_getter lsn (serialize_all es) (lsns, t) ≡ none =
            rw (redo-serialize_all frame_getter lsn lsns es t a, k) refl in
          absurd (ground arith)
      | inr ((frames, t₁), k) ↦
          let first : Rc × Lsns × Tree = (Rc.success, set_lsns lsn frames lsns, t₁) in
          let written : redo frame_getter lsn (serialize_all es) (lsns, t) ≡ some first =
            rw (redo-serialize_all frame_getter lsn lsns es t a, k) refl in
          let same =
            ap (λ o. elim o as (λ x. Rc × Lsns × Tree) [ none ↦ first | some r ↦ r ])
              (sym h ∙ written) in
          let at_lsns : lsns' ≡ set_lsns lsn frames lsns = ap (λ r. r.1) same in
          let at_tree : t' ≡ t₁ = ap (λ r. r.2) same in
          let seen = redo_entries-AreSeen lsn lsns es t lsns (λ q l. l) k in
          rw (at_lsns, at_tree)
            (redo-serialize_all frame_getter lsn (set_lsns lsn frames lsns) es t₁ a
              ∙ rw (redo_entries_seen lsn (set_lsns lsn frames lsns) es t₁ seen, set_lsns) refl)
    ]
