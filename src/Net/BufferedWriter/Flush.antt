-- ===== src/Net/BufferedWriter/Flush.antt =====
-- What a flush has sent, and what it has left in the buffer.
use ob_htap.Prelude.{
  ℕ, zero, suc, ◌+◌, ◌-◌, ◌≡◌, ◌≤◌, ◌<◌, min, refl, ap, sym, ◌∙◌, List, [], ◌∷◌, ◌++◌, true, false,
  ◌&&◌, some, if◌then◌else◌, ltb, arith, append_assoc, append-nil, Bool-cases, inl, inr,
}
use ob_htap.Rc.{Rc, ob_succ}
use ob_htap.Net.RingBuffer.{buffer, slice, capacity}
use ob_htap.Net.RingBuffer.Window.{IsValid, contents}
use ob_htap.Net.RingBuffer.Reading.{buffer_lem, round_lem}
use ob_htap.Net.BufferedWriter.{
  BufferedWriter, Sent, took, again, failed, Progress, waiting, returned, send, flush_internal_loop,
  flush_internal, flush_loop, flush,
}

-- The connection has taken some bytes from the front of the buffer, in order, and no others.
pub record Moved (w w' : BufferedWriter) : Type 0 where
  pub bytes : List ℕ
  pub sent : w'.sent ≡ w.sent ++ bytes
  pub left : contents w.ring ≡ bytes ++ contents w'.ring
  pub valid : IsValid w'.ring
  pub still : w'.opened ≡ w.opened
  pub same_capacity : capacity w'.ring ≡ capacity w.ring
  pub less : w'.ring.data_size ≤ w.ring.data_size

none-Moved : (w : BufferedWriter) → IsValid w.ring → Moved w w
none-Moved w v = record {
  bytes = [];
  sent = sym (append-nil w.sent);
  left = refl;
  valid = v;
  still = refl;
  same_capacity = refl;
  less = omega arith;
}

Moved-trans : (a b c : BufferedWriter) → Moved a b → Moved b c → Moved a c
Moved-trans a b c p q = record {
  bytes = p.bytes ++ q.bytes;
  sent = q.sent ∙ ap (λ s. s ++ q.bytes) p.sent ∙ append_assoc a.sent p.bytes q.bytes;
  left = p.left ∙ ap (◌++◌ p.bytes) q.left ∙ sym (append_assoc p.bytes q.bytes (contents c.ring));
  valid = q.valid;
  still = q.still ∙ p.still;
  same_capacity = q.same_capacity ∙ p.same_capacity;
  less = omega (arith, p.less, q.less);
}

send-Moved :
    (k : ℕ) (w : BufferedWriter)
    → IsValid w.ring
    → 0 < k
    → k ≤ (buffer w.ring).1
    → 0 < w.ring.data_size
    → Moved w (send k w) × ((send k w).ring.data_size ≡ w.ring.data_size - k)
unfolding send
send-Moved k w v p l h =
    let (moved, valid, split, count) = round_lem k w.ring v p l h in
    (
      record {
        bytes = slice w.ring.buffer (buffer w.ring).0 k;
        sent = refl;
        left = rw moved split;
        valid = rw moved valid;
        still = refl;
        same_capacity = rw moved refl;
        less = rw moved (omega arith);
      },
      rw moved refl,
    )

-- Where a flush stands: it waits, or it has returned. If it has succeeded, and was to write `size`
-- bytes of which `written` are done, it has written the rest or nothing is left, and it has written
-- something where it had to.
pub data Outcome (w : BufferedWriter) (size written : ℕ) : Progress → Type 0 where
  goes_on : (w' : BufferedWriter) → Moved w w' → Outcome w size written (waiting w')
  ended :
      (rc : Rc) (w' : BufferedWriter) (answers : List Sent)
      → Moved w w'
      → (ob_succ rc ≡ true → w.ring.data_size + written ≤ size → w'.ring.data_size ≡ 0)
      → (ob_succ rc ≡ true
          → 0 < w.ring.data_size
          → written < size
          → w'.ring.data_size < w.ring.data_size)
      → Outcome w size written (returned rc w' answers)

stopped :
    (w : BufferedWriter) (size written : ℕ) (answers : List Sent)
    → IsValid w.ring
    → (ltb 0 w.ring.data_size && ltb written size) ≡ false
    → Outcome w size written (returned Rc.success w answers)
stopped w size written answers v n =
    ended Rc.success w answers (none-Moved w v) (λ y l. ground arith)
      (λ y d l. absurd (ground arith))

after_send :
    (k : ℕ) (w : BufferedWriter) (size written : ℕ) (p : Progress)
    → Moved w (send k w)
    → (send k w).ring.data_size ≡ w.ring.data_size - k
    → k ≤ w.ring.data_size
    → 0 < k
    → Outcome (send k w) size (written + k) p
    → Outcome w size written p
after_send k w size written p m d l z (goes_on w' q) = goes_on w' (Moved-trans w (send k w) w' m q)
after_send k w size written p m d l z (ended rc w' answers q f g) =
    ended rc w' answers (Moved-trans w (send k w) w' m q) (λ y h. f y (omega (arith, d, l, h)))
      (λ y h i. omega (arith, d, q.less))

pub flush_internal_loop-Outcome :
    (answers : List Sent) (size written : ℕ) (w : BufferedWriter)
    → IsValid w.ring
    → Outcome w size written (flush_internal_loop answers size written w)
unfolding flush_internal_loop
flush_internal_loop-Outcome [] size written w v =
    elim (Bool-cases (ltb 0 w.ring.data_size && ltb written size)) [
      | inl y ↦ rw y (goes_on w (none-Moved w v))
      | inr n ↦ rw n (stopped w size written [] v n)
    ]
flush_internal_loop-Outcome (again ∷ answers) size written w v =
    elim (Bool-cases (ltb 0 w.ring.data_size && ltb written size)) [
      | inl y ↦ rw y (flush_internal_loop-Outcome answers size written w v)
      | inr n ↦ rw n (stopped w size written (again ∷ answers) v n)
    ]
flush_internal_loop-Outcome (failed ∷ answers) size written w v =
    elim (Bool-cases (ltb 0 w.ring.data_size && ltb written size)) [
      | inl y ↦ rw y (
          ended Rc.ioerr_write w answers (none-Moved w v) (λ z. absurd (ground arith))
            (λ z. absurd (ground arith)))
      | inr n ↦ rw n (stopped w size written (failed ∷ answers) v n)
    ]
flush_internal_loop-Outcome (took zero ∷ answers) size written w v =
    elim (Bool-cases (ltb 0 w.ring.data_size && ltb written size)) [
      | inl y ↦ rw y (flush_internal_loop-Outcome answers size written w v)
      | inr n ↦ rw n (stopped w size written (took zero ∷ answers) v n)
    ]
flush_internal_loop-Outcome (took (suc n) ∷ answers) size written w v =
    elim (Bool-cases (ltb 0 w.ring.data_size && ltb written size)) [
      | inl y ↦
          let some_data : 0 < w.ring.data_size = ground arith in
          let (start, some_bytes, fits, together) = buffer_lem w.ring v some_data in
          let k = min (suc n) (buffer w.ring).1 in
          let (m, d) = send-Moved k w v (omega arith) (omega arith) some_data in
          rw y (
            after_send k w size written (flush_internal_loop answers size (written + k) (send k w))
              m d (omega arith) (omega arith)
              (flush_internal_loop-Outcome answers size (written + k) (send k w) m.valid))
      | inr f ↦ rw f (stopped w size written (took (suc n) ∷ answers) v f)
    ]

-- Where a flush ends: it waits for the connection, or it has returned, with the buffer empty if it has
-- succeeded.
pub data Flushed (w : BufferedWriter) : Progress → Type 0 where
  goes_on : (w' : BufferedWriter) → Moved w w' → Flushed w (waiting w')
  ended :
      (rc : Rc) (w' : BufferedWriter) (answers : List Sent)
      → Moved w w'
      → (ob_succ rc ≡ true → w'.ring.data_size ≡ 0)
      → Flushed w (returned rc w' answers)

-- What `flush` makes of the end of `flush_internal`.
one_call :
    (w : BufferedWriter) (answers : List Sent) (p : Progress)
    → w.opened ≡ true
    → ltb 0 w.ring.data_size ≡ true
    → flush_internal answers w.ring.data_size w ≡ p
    → Outcome w w.ring.data_size 0 p
    → (q : Progress) × (flush_loop 2 answers w ≡ some q) × Flushed w q
unfolding flush_loop
one_call w answers p o h e (goes_on w' m) = (waiting w', rw (h, e, flush_loop) refl, goes_on w' m)
one_call w answers p o h e (ended rc w' rest m f g) = elim (Bool-cases (ob_succ rc)) [
  | inl y ↦
      let z : w'.ring.data_size ≡ 0 = f y (omega arith) in
      (
        returned Rc.success w' rest,
        rw (h, e, y, z, flush_loop) refl,
        ended Rc.success w' rest m (λ y. z),
      )
  | inr n ↦ (
    returned rc w' rest,
    rw (h, e, n, flush_loop) refl,
    ended rc w' rest m (λ y. absurd (ground arith)),
  )
]

opened_flush :
    (answers : List Sent) (w : BufferedWriter)
    → w.opened ≡ true
    → flush answers w ≡ flush_loop 2 answers w
unfolding flush
opened_flush answers w o =
    ap (λ b. if b then flush_loop 2 answers w else some (returned Rc.invalid_argument w answers)) o

pub opened_flush_internal :
    (answers : List Sent) (size : ℕ) (w : BufferedWriter)
    → w.opened ≡ true
    → flush_internal answers size w ≡ flush_internal_loop answers size 0 w
unfolding flush_internal
opened_flush_internal answers size w o =
    ap
      (λ b.
        if b then flush_internal_loop answers size 0 w else returned Rc.invalid_argument w answers)
      o

empty_flush :
    (answers : List Sent) (w : BufferedWriter)
    → ltb 0 w.ring.data_size ≡ false
    → flush_loop 2 answers w ≡ some (returned Rc.success w answers)
unfolding flush_loop
empty_flush answers w n = rw n refl

-- A flush of an open writer needs no more than two rounds, whatever the connection answers. The
-- connection has then taken bytes from the front of the buffer, in order, and none is lost or sent
-- twice; the buffer is empty if the flush has succeeded.
pub flush-Moved :
    (answers : List Sent) (w : BufferedWriter)
    → w.opened ≡ true
    → IsValid w.ring
    → (q : Progress) × (flush answers w ≡ some q) × Flushed w q
flush-Moved answers w o v = elim (Bool-cases (ltb 0 w.ring.data_size)) [
  | inr n ↦ (
    returned Rc.success w answers,
    opened_flush answers w o ∙ empty_flush answers w n,
    ended Rc.success w answers (none-Moved w v) (λ y. ground arith),
  )
  | inl y ↦
      let size = w.ring.data_size in
      let (q, d, f) =
        one_call w answers (flush_internal_loop answers size 0 w) o y
          (opened_flush_internal answers size w o)
          (flush_internal_loop-Outcome answers size 0 w v) in
      (q, opened_flush answers w o ∙ d, f)
]
