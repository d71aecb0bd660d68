-- ===== src/Net/BufferedWriter/Writing.antt =====
-- What becomes of the bytes that a `write` takes.
use ob_htap.Prelude.{
  ℕ, ◌≡◌, ◌<◌, refl, ap, sym, ◌∙◌, List, ◌++◌, true, Option, some, if◌then◌else◌, arith,
  append_assoc, append-nil, Bool-cases, inl, inr, length, take, ◌==◌,
}
use ob_htap.Rc.{Rc, ob_succ}
use ob_htap.Net.RingBuffer.{capacity, remain}
use ob_htap.Net.RingBuffer.Window.{IsValid, contents}
use ob_htap.Net.RingBuffer.Fifo.{write_lem}
use ob_htap.Net.BufferedWriter.{
  BufferedWriter, Sent, Progress, waiting, returned, flush_internal, flush_internal_loop, Written,
  held, wrote, put_in, write_some,
}
use ob_htap.Net.BufferedWriter.Flush.{
  Moved, Outcome, goes_on, ended, flush_internal_loop-Outcome, opened_flush_internal,
}

-- The bytes of a connection: those that it has taken, and then those in the buffer.
abbrev pub stream : BufferedWriter → List ℕ
stream w = w.sent ++ contents w.ring

Moved-stream : (w w' : BufferedWriter) → Moved w w' → stream w' ≡ stream w
Moved-stream w w' m =
    ap (λ s. s ++ contents w'.ring) m.sent
    ∙ append_assoc w.sent m.bytes (contents w'.ring)
    ∙ ap (◌++◌ w.sent) (sym m.left)

-- A writer that has taken a first part of the bytes.
pub record Took (w : BufferedWriter) (bytes : List ℕ) (n : ℕ) (w' : BufferedWriter) : Type 0 where
  pub streamed : stream w' ≡ stream w ++ take n bytes
  pub valid : IsValid w'.ring
  pub still : w'.opened ≡ w.opened

none-Took : (w w' : BufferedWriter) (bytes : List ℕ) → Moved w w' → Took w bytes 0 w'
none-Took w w' bytes m = record {
  streamed = Moved-stream w w' m ∙ sym (append-nil (stream w));
  valid = m.valid;
  still = m.still;
}

-- What `write` answers to some bytes: on success it has taken at least one of them.
pub data Put (w : BufferedWriter) (bytes : List ℕ) : Written → Type 0 where
  holds : (w' : BufferedWriter) → Took w bytes 0 w' → Put w bytes (held w')
  puts :
      (rc : Rc) (n : ℕ) (w' : BufferedWriter) (answers : List Sent)
      → Took w bytes n w'
      → (ob_succ rc ≡ true → 0 < n)
      → Put w bytes (wrote rc n w' answers)

put_in-Put :
    (answers : List Sent) (bytes : List ℕ) (w w₁ : BufferedWriter)
    → Took w bytes 0 w₁
    → 0 < length bytes
    → 0 < remain w₁.ring
    → (r : Written) × (put_in answers bytes w₁ ≡ some r) × Put w bytes r
unfolding put_in
put_in-Put answers bytes w w₁ t l h =
    let (n, ring, e, count, joined, same, v) =
      write_lem (length bytes) bytes w₁.ring t.valid refl in
    let w₂ : BufferedWriter = record w₁ { ring = ring } in
    (
      wrote Rc.success n w₂ answers,
      rw (put_in, e) refl,
      puts Rc.success n w₂ answers
          (record {
            streamed =
                ap (◌++◌ w₁.sent) joined
                ∙ sym (append_assoc w₁.sent (contents w₁.ring) (take n bytes))
                ∙ ap (λ s. s ++ take n bytes) (t.streamed ∙ append-nil (stream w));
            valid = v;
            still = t.still;
          })
          (λ y. omega (arith, count, l, h)),
    )

-- `write` to an open writer.
abbrev write_open : List Sent → List ℕ → BufferedWriter → Option Written
write_open answers bytes w =
    if remain w.ring == 0
    then elim (flush_internal answers (length bytes) w) [
      | waiting w' ↦ some (held w')
      | returned rc w' answers' ↦
          if ob_succ rc then put_in answers' bytes w' else some (wrote rc 0 w' answers')
    ]
    else put_in answers bytes w

opened_write :
    (answers : List Sent) (bytes : List ℕ) (w : BufferedWriter)
    → w.opened ≡ true
    → write_some answers bytes w ≡ write_open answers bytes w
unfolding write_some
opened_write answers bytes w o =
    ap (λ b. if b then write_open answers bytes w else some (wrote Rc.invalid_argument 0 w answers))
      o

after_flush :
    (answers : List Sent) (bytes : List ℕ) (w : BufferedWriter) (p : Progress)
    → 0 < length bytes
    → IsValid w.ring
    → (remain w.ring == 0) ≡ true
    → flush_internal answers (length bytes) w ≡ p
    → Outcome w (length bytes) 0 p
    → (r : Written) × (write_open answers bytes w ≡ some r) × Put w bytes r
after_flush answers bytes w p l v f e (goes_on w' m) =
    (held w', rw (f, e) refl, holds w' (none-Took w w' bytes m))
after_flush answers bytes w p l v f e (ended rc w' rest m a b) = elim (Bool-cases (ob_succ rc)) [
  | inl y ↦
      let full : w.ring.data_size ≡ capacity w.ring = ground (arith, v.data_fits) in
      let space : 0 < remain w'.ring =
        omega (arith, b y (omega (arith, v.some_room)) l, m.same_capacity) in
      let (r, d, q) = put_in-Put rest bytes w w' (none-Took w w' bytes m) l space in
      (r, rw (f, e, y) d, q)
  | inr n ↦ (
    wrote rc 0 w' rest,
    rw (f, e, n) refl,
    puts rc 0 w' rest (none-Took w w' bytes m) (λ y. absurd (ground arith)),
  )
]

self-Took : (w : BufferedWriter) (bytes : List ℕ) → IsValid w.ring → Took w bytes 0 w
self-Took w bytes v = record { streamed = sym (append-nil (stream w)); valid = v; still = refl }

pub write_some-Put :
    (answers : List Sent) (bytes : List ℕ) (w : BufferedWriter)
    → 0 < length bytes
    → IsValid w.ring
    → w.opened ≡ true
    → (r : Written) × (write_some answers bytes w ≡ some r) × Put w bytes r
write_some-Put answers bytes w l v o = elim (Bool-cases (remain w.ring == 0)) [
  | inl f ↦
      let (r, d, q) =
        after_flush answers bytes w (flush_internal_loop answers (length bytes) 0 w) l v f
          (opened_flush_internal answers (length bytes) w o)
          (flush_internal_loop-Outcome answers (length bytes) 0 w v) in
      (r, opened_write answers bytes w o ∙ d, q)
  | inr n ↦
      let (r, d, q) =
        put_in-Put answers bytes w w (self-Took w bytes v) l (ground (arith, v.data_fits)) in
      let same : write_open answers bytes w ≡ put_in answers bytes w = rw (n) refl in
      (r, opened_write answers bytes w o ∙ same ∙ d, q)
]
