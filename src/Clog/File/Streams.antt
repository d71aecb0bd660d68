-- ===== src/Clog/File/Streams.antt =====
-- A file that holds whole entries, and perhaps the start of one more header.
use ob_htap.Prelude.{
  ℕ, zero, suc, ◌≡◌, ◌<◌, ◌≤◌, refl, sym, ◌∙◌, List, [], ◌∷◌, ◌++◌, true, false, none, some, arith,
  length, All, if◌then◌else◌, Bool-cases, inl, inr, length-append, take-all, take-append,
  drop-append, append_assoc,
}
use ob_htap.Prelude.Int.{ℤ, leb_ℤ}
use ob_htap.Rc.{Rc, ob_succ}
use ob_htap.Clog.Entry.{
  LogEntry, header_size, header_bytes, max_payload_size, init, payload, signed64, entry_bytes,
}
use ob_htap.Clog.Entry.Codec.{IsHeader, header_of-header_bytes, length-header_bytes}
use ob_htap.Clog.File.{readn, bad_size, skip_loop, entry_of, iterate_loop, iterate}

-- An entry that `LogEntry::init` has made, under an LSN and a module number that fit their types.
pub record IsEntry (e : LogEntry) : Type 0 where
  pub header_fits : IsHeader e.header
  pub sized : e.header.size ≡ length e.bytes
  pub small : e.header.size ≤ max_payload_size

abbrev pub stream : List LogEntry → List ℕ
stream [] = []
stream (e ∷ es) = entry_bytes e ++ stream es

-- The entries from the first one on whose LSN is not below `start`.
abbrev pub drop_below : ℤ → List LogEntry → List LogEntry
drop_below start [] = []
drop_below start (e ∷ es) =
    if leb_ℤ start (signed64 e.header.lsn) then e ∷ es else drop_below start es

readn-append : (n : ℕ) (a b : List ℕ) → n ≡ length a → readn n (a ++ b) ≡ some (a, b)
unfolding readn
readn-append n a b e = ground (arith, length-append a b, take-append a b n e, drop-append a b n e)

readn_short : (n : ℕ) (bs : List ℕ) → length bs < n → readn n bs ≡ none
unfolding readn
readn_short n bs h = ground arith

bad_size-IsEntry : (e : LogEntry) → IsEntry e → bad_size e.header ≡ false
unfolding bad_size
bad_size-IsEntry e v = ground arith

entry_of-IsEntry : (e : LogEntry) → IsEntry e → entry_of e.header e.bytes ≡ e
unfolding entry_of init
entry_of-IsEntry e v = ground arith

payload-IsEntry : (e : LogEntry) → IsEntry e → payload e ≡ e.bytes
payload-IsEntry e v = take-all e.header.size e.bytes (omega (arith, v.sized))

-- Reading the header at the front of a stream.
read_header :
    (e : LogEntry) (rest : List ℕ)
    → IsEntry e
    → readn header_size (entry_bytes e ++ rest) ≡ some (header_bytes e.header, e.bytes ++ rest)
read_header e rest v =
    rw (payload-IsEntry e v, append_assoc (header_bytes e.header) e.bytes rest)
      (readn-append header_size (header_bytes e.header) (e.bytes ++ rest)
        (sym (length-header_bytes e.header)))

length-entry_bytes : (e : LogEntry) → header_size ≤ length (entry_bytes e)
length-entry_bytes e =
    omega (arith, length-append (header_bytes e.header) (payload e), length-header_bytes e.header)

-- What `skip_to` leaves of a stream.
abbrev left : List LogEntry → List ℕ → List ℕ
left [] tail = []
left (e ∷ es) tail = stream (e ∷ es) ++ tail

skip_end :
    (fuel : ℕ) (start : ℤ) (tail : List ℕ)
    → length tail < header_size
    → skip_loop (suc fuel) start tail ≡ some (Rc.success, [])
unfolding skip_loop
skip_end fuel start tail t = rw (readn_short header_size tail t, skip_loop) refl

skip_step :
    (fuel : ℕ) (start : ℤ) (e : LogEntry) (rest : List ℕ)
    → IsEntry e
    → skip_loop (suc fuel) start (entry_bytes e ++ rest) ≡ (
        if leb_ℤ start (signed64 e.header.lsn)
        then some (Rc.success, entry_bytes e ++ rest)
        else skip_loop fuel start rest)
unfolding skip_loop
skip_step fuel start e rest v =
    rw (read_header e rest v, skip_loop)
      (rw (header_of-header_bytes e.header v.header_fits)
        (rw (bad_size-IsEntry e v) (rw (drop-append e.bytes rest e.header.size v.sized) refl)))

skip_loop-stream :
    (fuel : ℕ) (start : ℤ) (es : List LogEntry) (tail : List ℕ)
    → All IsEntry es
    → length tail < header_size
    → length (stream es ++ tail) < fuel
    → skip_loop fuel start (stream es ++ tail) ≡ some (Rc.success, left (drop_below start es) tail)
skip_loop-stream zero start es tail v t h = absurd (omega arith)
skip_loop-stream (suc fuel) start [] tail v t h = skip_end fuel start tail t
skip_loop-stream (suc fuel) start (e ∷ es) tail v t h =
    let h' : length (stream es ++ tail) < fuel = omega (
      arith,
      length-append (entry_bytes e ++ stream es) tail,
      length-append (entry_bytes e) (stream es),
      length-append (stream es) tail,
      length-entry_bytes e,
    ) in
    elim (Bool-cases (leb_ℤ start (signed64 e.header.lsn))) [
      | inl f ↦
          rw (f, append_assoc (entry_bytes e) (stream es) tail)
            (skip_step fuel start e (stream es ++ tail) v.0 ∙ rw f refl)
      | inr g ↦
          rw (g, append_assoc (entry_bytes e) (stream es) tail)
            (skip_step fuel start e (stream es ++ tail) v.0
              ∙ rw g (skip_loop-stream fuel start es tail v.1 t h'))
    ]

module _ {S : Type 0} (callback : LogEntry → S → Rc × S) where
  -- The callback on each entry in turn, until one is refused.
  unfoldable pub feed : List LogEntry → S → Rc × S
  feed [] s = (Rc.success, s)
  feed (e ∷ es) s =
      let (rc, s') = callback e s in let rest = feed es s' in if ob_succ rc then rest else (rc, s')

  pub feed_accepted :
      (e : LogEntry) (es : List LogEntry) (s : S)
      → ob_succ (callback e s).0 ≡ true
      → feed (e ∷ es) s ≡ feed es (callback e s).1
  unfolding feed
  feed_accepted e es s y = rw y refl

  pub feed_refused :
      (e : LogEntry) (es : List LogEntry) (s : S)
      → ob_succ (callback e s).0 ≡ false
      → feed (e ∷ es) s ≡ callback e s
  unfolding feed
  feed_refused e es s n = rw n refl

  iterate_step :
      (fuel : ℕ) (e : LogEntry) (rest : List ℕ) (s : S)
      → IsEntry e
      → iterate_loop callback (suc fuel) (entry_bytes e ++ rest) s ≡ (
          if ob_succ (callback e s).0
          then iterate_loop callback fuel rest (callback e s).1
          else some (callback e s))
  unfolding iterate_loop
  iterate_step fuel e rest s v =
      rw (read_header e rest v, iterate_loop)
        (rw (header_of-header_bytes e.header v.header_fits) (
          rw (bad_size-IsEntry e v) (
            rw (readn-append e.header.size e.bytes rest v.sized, iterate_loop)
              (rw (header_of-header_bytes e.header v.header_fits)
                (rw (entry_of-IsEntry e v) refl)))))

  iterate_end :
      (fuel : ℕ) (tail : List ℕ) (s : S)
      → length tail < header_size
      → iterate_loop callback (suc fuel) tail s ≡ some (Rc.success, s)
  unfolding iterate_loop
  iterate_end fuel tail s t = rw (readn_short header_size tail t, iterate_loop) refl

  iterate_loop-stream :
      (fuel : ℕ) (es : List LogEntry) (tail : List ℕ) (s : S)
      → All IsEntry es
      → length tail < header_size
      → length (stream es ++ tail) < fuel
      → iterate_loop callback fuel (stream es ++ tail) s ≡ some (feed es s)
  unfolding feed
  iterate_loop-stream zero es tail s v t h = absurd (omega arith)
  iterate_loop-stream (suc fuel) [] tail s v t h = iterate_end fuel tail s t
  iterate_loop-stream (suc fuel) (e ∷ es) tail s v t h =
      let h' : length (stream es ++ tail) < fuel = omega (
        arith,
        length-append (entry_bytes e ++ stream es) tail,
        length-append (entry_bytes e) (stream es),
        length-append (stream es) tail,
        length-entry_bytes e,
      ) in
      rw (append_assoc (entry_bytes e) (stream es) tail) (
        iterate_step fuel e (stream es ++ tail) s v.0
        ∙ rw (iterate_loop-stream fuel es tail (callback e s).1 v.1 t h') (ground arith))

  length-left :
      (start : ℤ) (es : List LogEntry) (tail : List ℕ)
      → length (left (drop_below start es) tail) ≤ length (stream es ++ tail)
  length-left start [] tail = omega arith
  length-left start (e ∷ es) tail = elim (Bool-cases (leb_ℤ start (signed64 e.header.lsn))) [
    | inl f ↦ rw f (omega arith)
    | inr g ↦ rw g (
        omega (
          arith,
          length-left start es tail,
          length-append (entry_bytes e ++ stream es) tail,
          length-append (entry_bytes e) (stream es),
          length-append (stream es) tail,
        ))
  ]

  drop_below-IsEntry :
      (start : ℤ) (es : List LogEntry) → All IsEntry es → All IsEntry (drop_below start es)
  drop_below-IsEntry start [] v = tt
  drop_below-IsEntry start (e ∷ es) v = elim (Bool-cases (leb_ℤ start (signed64 e.header.lsn))) [
    | inl f ↦ rw f v
    | inr g ↦ rw g (drop_below-IsEntry start es v.1)
  ]

  iterate_left :
      (fuel : ℕ) (es : List LogEntry) (tail : List ℕ) (s : S)
      → All IsEntry es
      → length tail < header_size
      → length (left es tail) < fuel
      → iterate_loop callback fuel (left es tail) s ≡ some (feed es s)
  unfolding feed
  iterate_left zero es tail s v t h = absurd (omega arith)
  iterate_left (suc fuel) [] tail s v t h = iterate_end fuel [] s (omega arith)
  iterate_left (suc fuel) (e ∷ es) tail s v t h =
      iterate_loop-stream (suc fuel) (e ∷ es) tail s v t h

  -- Iterating over a file of whole entries hands the callback each entry from the first one on whose
  -- LSN is not below the start, as it was written and in order, until the callback refuses one, and
  -- returns its last answer. The start of one more header, at the end of the file, is passed over.
  pub iterate-stream :
      (start : ℤ) (es : List LogEntry) (tail : List ℕ) (s : S)
      → All IsEntry es
      → length tail < header_size
      → iterate callback (some (stream es ++ tail)) start s ≡ some (feed (drop_below start es) s)
  unfolding iterate
  iterate-stream start es tail s v t =
      rw
        (
          skip_loop-stream (suc (length (stream es ++ tail))) start es tail v t (omega arith),
          iterate,
        )
        (iterate_left (suc (length (stream es ++ tail))) (drop_below start es) tail s
          (drop_below-IsEntry start es v) t (omega (arith, length-left start es tail)))
