-- ===== src/Net/RingBuffer/Reading.antt =====
-- Reading from a ring buffer.
use ob_htap.Prelude.{
  ℕ, zero, suc, ◌+◌, ◌-◌, ◌≡◌, ◌≤◌, ◌<◌, min, refl, ap, sym, ◌∙◌, List, [], ◌++◌, ◌&&◌, some, ltb,
  length, drop, arith, append_assoc, append-nil, Bool-cases, inl, inr, length-take, length-drop,
  length-append,
}
use ob_htap.Prelude.Int.{pos}
use ob_htap.Rc.{Rc}
use ob_htap.Net.RingBuffer.{RingBuffer, capacity, read_pos, slice, buffer, forward, read_loop, read}
use ob_htap.Net.RingBuffer.Window.{
  place, place_lem, window-slice, IsValid, read_pos_lem, contents, read_pos-place,
}

-- What `buffer` gives: the place of the oldest byte, and a number of bytes that lie together.
pub buffer_lem :
    (r : RingBuffer)
    → IsValid r
    → 0 < r.data_size
    → ((buffer r).0 ≡ read_pos r)
      × (0 < (buffer r).1)
      × ((buffer r).1 ≤ r.data_size)
      × (read_pos r + (buffer r).1 ≤ capacity r)
unfolding buffer
buffer_lem r v h = ground (arith, read_pos_lem r v)

-- The ring after `k` bytes are passed over.
abbrev pub passed : ℕ → RingBuffer → RingBuffer
passed k r = record r { data_size = r.data_size - k }

forward_lem :
    (k : ℕ) (r : RingBuffer)
    → 0 < k
    → k ≤ r.data_size
    → forward (pos k) r ≡ (Rc.success, passed k r)
unfolding forward
forward_lem zero r h l = absurd (omega arith)
forward_lem (suc k) r h l = ground arith

module _ (k : ℕ) (r : RingBuffer) (v : IsValid r) (l : k ≤ r.data_size) where
  passed-IsValid : IsValid (passed k r)
  passed-IsValid = omega (arith, v.some_room, v.data_fits, v.write_in)

  read_pos-passed : read_pos (passed k r) ≡ place (capacity r) (read_pos r) k
  read_pos-passed =
      let p = (read_pos-place r v).0 in
      ground (
        arith,
        read_pos_lem r v,
        read_pos_lem (passed k r) passed-IsValid,
        place_lem (capacity r) (read_pos r) k p,
      )

  contents-passed :
      read_pos r + k ≤ capacity r
      → contents r ≡ slice r.buffer (read_pos r) k ++ contents (passed k r)
  contents-passed b = rw read_pos-passed (
      window-slice (capacity r) r.buffer (read_pos r) r.data_size k refl l v.data_fits b
        (read_pos-place r v).0)

-- What reading has done when it stops.
record WasRead (want : ℕ) (bytes : List ℕ) (r r' : RingBuffer) : Type 0 where
  valid : IsValid r'
  same_capacity : capacity r' ≡ capacity r
  count : length bytes ≡ min want r.data_size
  in_order : contents r ≡ bytes ++ contents r'

-- What a round copies, and what it leaves.
pub round_lem :
    (k : ℕ) (r : RingBuffer)
    → IsValid r
    → 0 < k
    → k ≤ (buffer r).1
    → 0 < r.data_size
    → (forward (pos k) r ≡ (Rc.success, passed k r))
      × IsValid (passed k r)
      × (contents r ≡ slice r.buffer (buffer r).0 k ++ contents (passed k r))
      × (length (slice r.buffer (buffer r).0 k) ≡ k)
round_lem k r v p l h =
    let (start, some_bytes, fits, together) = buffer_lem r v h in
    (
      forward_lem k r p (omega arith),
      passed-IsValid k r v (omega arith),
      rw start (contents-passed k r v (omega arith) (omega arith)),
      omega (arith, length-take k (drop (buffer r).0 r.buffer), length-drop (buffer r).0 r.buffer),
    )

read_loop-WasRead :
    (fuel want : ℕ) (out : List ℕ) (r : RingBuffer)
    → IsValid r
    → want < fuel
    → (bytes : List ℕ) × (r' : RingBuffer) × (read_loop fuel want out r
        ≡ some (Rc.success, out ++ bytes, r'))
      × WasRead want bytes r r'
unfolding read_loop
read_loop-WasRead zero want out r v h = absurd (omega arith)
read_loop-WasRead (suc fuel) want out r v h = elim (Bool-cases (ltb 0 want && ltb 0 r.data_size)) [
  | inr n ↦ (
    [],
    r,
    rw (n, append-nil) refl,
    record { valid = v; same_capacity = refl; count = ground arith; in_order = refl },
  )
  | inl y ↦
      let some_want : 0 < want = ground arith in
      let some_data : 0 < r.data_size = ground arith in
      let b = buffer_lem r v some_data in
      let k = min want (buffer r).1 in
      let (moved, valid, split, count) =
        round_lem k r v (omega (arith, b.1)) (omega arith) some_data in
      let copied = slice r.buffer (buffer r).0 k in
      let (bytes, r', e, f) =
        read_loop-WasRead fuel (want - k) (out ++ copied) (passed k r) valid (omega (arith, b.1)) in
      (
        copied ++ bytes,
        r',
        rw (y, moved) (e ∙ ap (λ o. some (Rc.success, o, r')) (append_assoc out copied bytes)),
        record {
          valid = f.valid;
          same_capacity = f.same_capacity;
          count = omega (arith, length-append copied bytes, count, f.count, b.2);
          in_order =
              split ∙ ap (◌++◌ copied) f.in_order ∙ sym (append_assoc copied bytes (contents r'));
        },
      )
]

-- A read returns after finitely many rounds. It takes the oldest bytes from the contents, in order,
-- as many as were asked for or as there are, and keeps the buffer valid and of the same capacity.
pub read_lem :
    (n : ℕ) (r : RingBuffer)
    → IsValid r
    → (bytes : List ℕ) × (r' : RingBuffer) × (read (pos n) r ≡ some (Rc.success, bytes, r'))
      × (length bytes ≡ min n r.data_size)
      × (contents r ≡ bytes ++ contents r')
      × (capacity r' ≡ capacity r)
      × IsValid r'
unfolding read
read_lem n r v =
    let (bytes, r', e, f) = read_loop-WasRead (suc n) n [] r v (omega arith) in
    (bytes, r', e, f.count, f.in_order, f.same_capacity, f.valid)
