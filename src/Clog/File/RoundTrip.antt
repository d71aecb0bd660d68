-- ===== src/Clog/File/RoundTrip.antt =====
-- Reading a log file ends, and gives back the entries that were written.
use ob_htap.Prelude.{
  ℕ, zero, suc, ◌+◌, ◌≡◌, ◌<◌, ◌≤◌, refl, List, [], Option, none, some, arith, length, drop,
  Bool-cases, Option-cases, inl, inr, length-drop,
}
use ob_htap.Prelude.Int.{ℤ, leb_ℤ}
use ob_htap.Rc.{Rc, ob_succ}
use ob_htap.Clog.Entry.{LogEntry, header_size, header_of, signed64}
use ob_htap.Clog.File.{readn, bad_size, skip_loop, entry_of, iterate_loop, iterate}

readn-some :
    (n : ℕ) (bs : List ℕ) {a b : List ℕ} → readn n bs ≡ some (a, b) → length b + n ≡ length bs
unfolding readn
readn-some n bs e = ground (arith, length-drop n bs)

-- A round of a loop leaves at least a header's length less.
skip_loop_total :
    (fuel : ℕ) (start : ℤ) (bs : List ℕ)
    → length bs < fuel
    → (r : Rc × List ℕ) × (skip_loop fuel start bs ≡ some r) × (length r.1 ≤ length bs)
unfolding skip_loop
skip_loop_total zero start bs h = absurd (omega arith)
skip_loop_total (suc fuel) start bs h = elim (Option-cases (readn header_size bs)) [
  | inl n ↦ ((Rc.success, []), rw (n, skip_loop) refl, omega arith)
  | inr ((hb, rest), y) ↦
      let shrink = readn-some header_size bs y in
      elim (Bool-cases (leb_ℤ start (signed64 (header_of hb).lsn))) [
        | inl f ↦ ((Rc.success, bs), rw (y, f, skip_loop) refl, omega arith)
        | inr g ↦ elim (Bool-cases (bad_size (header_of hb))) [
          | inl b ↦ ((Rc.ioerr_read, rest), rw (y, g, b, skip_loop) refl, omega (arith, shrink))
          | inr ok ↦
              let (r, e, l) =
                skip_loop_total fuel start (drop (header_of hb).size rest)
                  (omega (arith, shrink, length-drop (header_of hb).size rest)) in
              (
                r,
                rw (y, g, ok, skip_loop) e,
                omega (arith, l, shrink, length-drop (header_of hb).size rest),
              )
        ]
      ]
]

module _ {S : Type 0} (callback : LogEntry → S → Rc × S) where
  iterate_loop_total :
      (fuel : ℕ) (bs : List ℕ) (s : S)
      → length bs < fuel
      → (r : Rc × S) × (iterate_loop callback fuel bs s ≡ some r)
  unfolding iterate_loop
  iterate_loop_total zero bs s h = absurd (omega arith)
  iterate_loop_total (suc fuel) bs s h = elim (Option-cases (readn header_size bs)) [
    | inl n ↦ ((Rc.success, s), rw (n, iterate_loop) refl)
    | inr ((hb, rest), y) ↦ elim (Bool-cases (bad_size (header_of hb))) [
      | inl b ↦ ((Rc.ioerr_read, s), rw (y, b, iterate_loop) refl)
      | inr ok ↦ elim (Option-cases (readn (header_of hb).size rest)) [
        | inl n ↦ ((Rc.ioerr_read, s), rw (y, ok, n, iterate_loop) refl)
        | inr ((bs', rest'), z) ↦
            let (rc, s') = callback (entry_of (header_of hb) bs') s in
            elim (Bool-cases (ob_succ rc)) [
              | inl g ↦
                  let (r, e) = iterate_loop_total fuel rest' s' (
                    omega (
                      arith,
                      readn-some header_size bs y,
                      readn-some (header_of hb).size rest z,
                    )) in
                  (r, rw (y, ok, z, g, iterate_loop) e)
              | inr g ↦ ((rc, s'), rw (y, ok, z, g, iterate_loop) refl)
            ]
      ]
    ]
  ]

  iterate_found :
      (bs : List ℕ) (start : ℤ) (s : S) (rc : Rc) (rest : List ℕ)
      → skip_loop (suc (length bs)) start bs ≡ some (rc, rest)
      → length rest ≤ length bs
      → (r : Rc × S) × (iterate callback (some bs) start s ≡ some r)
  unfolding iterate
  iterate_found bs start s rc rest e l = elim (Bool-cases (ob_succ rc)) [
    | inl y ↦
        let (r, g) = iterate_loop_total (suc (length bs)) rest s (omega arith) in
        (r, rw (e, y, iterate) g)
    | inr n ↦ ((rc, s), rw (e, n, iterate) refl)
  ]

  -- Reading a file, whatever bytes it holds and whatever the callback answers, comes to an end.
  pub iterate_total :
      (file : Option (List ℕ)) (start : ℤ) (s : S)
      → (r : Rc × S) × (iterate callback file start s ≡ some r)
  unfolding iterate
  iterate_total none start s = ((Rc.file_not_opened, s), refl)
  iterate_total (some bs) start s =
      let (r, e, l) = skip_loop_total (suc (length bs)) start bs (omega arith) in
      iterate_found bs start s r.0 r.1 e l
