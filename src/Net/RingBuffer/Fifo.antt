-- ===== src/Net/RingBuffer/Fifo.antt =====
-- A ring buffer is a bounded queue of its contents.
use ob_htap.Prelude.{
  ℕ, zero, suc, ◌+◌, ◌-◌, ◌%◌, ◌≡◌, ◌≤◌, ◌<◌, min, refl, ap, ap₂, sym, ◌∙◌, List, [], ◌∷◌, ◌++◌,
  ◌&&◌, some, if◌then◌else◌, ltb, ◌==◌, length, take, drop, arith, append_assoc, append-nil,
  Bool-cases, inl, inr, length-take, length-drop, take-nil, take-all,
}
use native.Mathlib.Nat.{mod-eq_of_lt, mod-eq-sub-mod}
use ob_htap.Prelude.Int.{pos}
use ob_htap.Rc.{Rc}
use ob_htap.Net.RingBuffer.{
  RingBuffer, capacity, remain, read_pos, splice, room, write_round, write_loop, write,
}
use ob_htap.Net.RingBuffer.Window.{
  window, window-splice, length-splice, IsValid, read_pos_lem, contents, read_pos-place,
}

-- How much a round of writing copies.
room_lem :
    (r : RingBuffer)
    → IsValid r
    → 0 < remain r
    → (0 < room r) × (room r ≤ remain r) × (r.write_pos + room r ≤ capacity r)
unfolding room
room_lem r v h = ground (arith, read_pos_lem r v)

mod_self : (n : ℕ) → 0 < n → n % n ≡ 0
mod_self n h = omega (
  arith,
  mod-eq-sub-mod {n = n} {m = n} (omega arith),
  mod-eq_of_lt {n = n - n} {m = n} (omega arith),
)

module _ (r : RingBuffer) (v : IsValid r) (k : ℕ) (a : k ≤ remain r)
    (b : r.write_pos + k ≤ capacity r) where
  moved_pos :
      (r.write_pos + k) % capacity r
      ≡ (if r.write_pos + k == capacity r then 0 else r.write_pos + k)
  moved_pos = elim (Bool-cases (r.write_pos + k == capacity r)) [
    | inl y ↦
        let e : r.write_pos + k ≡ capacity r = ground arith in
        rw y (ap (λ n. n % capacity r) e ∙ mod_self (capacity r) v.some_room)
    | inr n ↦ rw n (mod-eq_of_lt (ground arith))
  ]

  -- The ring after a round that copies `k` bytes.
  abbrev advanced : List ℕ → RingBuffer
  advanced bytes = record {
    buffer = splice r.buffer r.write_pos bytes;
    data_size = r.data_size + k;
    write_pos = (r.write_pos + k) % capacity r;
  }

  advanced-IsValid : (bytes : List ℕ) → IsValid (advanced bytes)
  advanced-IsValid bytes = record {
    some_room = omega (arith, length-splice bytes r.buffer r.write_pos, v.some_room);
    data_fits = omega (arith, length-splice bytes r.buffer r.write_pos, v.data_fits, a);
    write_in = rw moved_pos (ground (arith, length-splice bytes r.buffer r.write_pos));
  }

  read_pos-advanced : (bytes : List ℕ) → read_pos (advanced bytes) ≡ read_pos r
  read_pos-advanced bytes = ground (
    arith,
    read_pos_lem (advanced bytes) (advanced-IsValid bytes),
    read_pos_lem r v,
    moved_pos,
    length-splice bytes r.buffer r.write_pos,
  )

  contents-advanced :
      (bytes : List ℕ) → length bytes ≡ k → contents (advanced bytes) ≡ contents r ++ bytes
  contents-advanced bytes l =
      rw (read_pos-advanced bytes, length-splice bytes r.buffer r.write_pos)
        (ap (window (capacity r) (splice r.buffer r.write_pos bytes) (read_pos r))
            (omega (arith, l))
          ∙ window-splice (capacity r) r.buffer bytes (read_pos r) r.data_size r.write_pos refl
              (read_pos-place r v).0 (omega (arith, l, v.data_fits)) (omega (arith, l))
              (λ _. sym (read_pos-place r v).1))

-- One round of writing takes as many bytes as lie together, and puts them behind the contents.
write_round_lem :
    (bytes : List ℕ) (r : RingBuffer)
    → IsValid r
    → 0 < remain r
    → let k = min (length bytes) (room r) in
      IsValid (write_round bytes r)
      × (contents (write_round bytes r) ≡ contents r ++ take k bytes)
      × (capacity (write_round bytes r) ≡ capacity r)
      × ((write_round bytes r).data_size ≡ r.data_size + k)
unfolding write_round
write_round_lem bytes r v h =
    let s = room_lem r v h in
    let k = min (length bytes) (room r) in
    (
      advanced-IsValid r v k (omega (arith, s)) (omega (arith, s)) (take k bytes),
      contents-advanced r v k (omega (arith, s)) (omega (arith, s)) (take k bytes)
          (omega (arith, length-take k bytes)),
      length-splice (take k bytes) r.buffer r.write_pos,
      refl,
    )

take_none : (n : ℕ) (bytes : List ℕ) → min (length bytes) n ≡ 0 → take n bytes ≡ []
take_none zero bytes h = refl
take_none (suc n) [] h = refl
take_none (suc n) (b ∷ bytes) h = absurd (omega arith)

take_split :
    (k n : ℕ) (bytes : List ℕ) → k ≤ n → take k bytes ++ take (n - k) (drop k bytes) ≡ take n bytes
take_split zero n bytes h = ap (λ m. take m bytes) (omega arith)
take_split (suc k) zero bytes h = absurd (omega arith)
take_split (suc k) (suc n) [] h = take-nil (suc n - suc k)
take_split (suc k) (suc n) (b ∷ bytes) h = ap (◌∷◌ b) (
    ap (λ m. take k bytes ++ take m (drop k bytes)) (omega arith)
    ∙ take_split k n bytes (omega arith))

remain_round :
    (cap cap' size' size k : ℕ) → cap' ≡ cap → size' ≡ size + k → cap' - size' ≡ cap - size - k
remain_round cap cap' size' size k c s = omega arith

-- What writing has done when it stops.
record Wrote (bytes : List ℕ) (written : ℕ) (r : RingBuffer) (out : Rc × ℕ × RingBuffer)
    : Type 0 where
  code : out.0 ≡ Rc.success
  valid : IsValid out.2
  same_capacity : capacity out.2 ≡ capacity r
  count : out.1 ≡ written + min (length bytes) (remain r)
  bytes_in : contents out.2 ≡ contents r ++ take (remain r) bytes

write_loop-Wrote :
    (fuel : ℕ) (bytes : List ℕ) (written : ℕ) (r : RingBuffer)
    → IsValid r
    → length bytes < fuel
    → (out : Rc × ℕ × RingBuffer) × (write_loop fuel bytes written r ≡ some out)
      × Wrote bytes written r out
unfolding write_loop
write_loop-Wrote zero bytes written r v h = absurd (omega arith)
write_loop-Wrote (suc fuel) bytes written r v h =
    elim (Bool-cases (ltb 0 (length bytes) && ltb 0 (remain r))) [
      | inr n ↦ (
        (Rc.success, written, r),
        rw n refl,
        record {
          code = refl;
          valid = v;
          same_capacity = refl;
          count = ground arith;
          bytes_in =
              sym (append-nil (contents r))
              ∙ ap (◌++◌ (contents r)) (sym (take_none (remain r) bytes (ground arith)));
        },
      )
      | inl y ↦
          let more : 0 < remain r = ground arith in
          let some_bytes : 0 < length bytes = ground arith in
          let s = room_lem r v more in
          let k = min (length bytes) (room r) in
          let w = write_round_lem bytes r v more in
          let (out, e, f) =
            write_loop-Wrote fuel (drop k bytes) (written + k) (write_round bytes r) w.0
              (omega (arith, length-drop k bytes, s)) in
          (
            out,
            rw y e,
            record {
              code = f.code;
              valid = f.valid;
              same_capacity = f.same_capacity ∙ w.2;
              count = omega (arith, f.count, w.2, w.3, length-drop k bytes, s);
              bytes_in =
                  f.bytes_in
                  ∙ ap₂ (λ c n. c ++ take n (drop k bytes)) w.1
                      (remain_round (capacity r) (capacity (write_round bytes r)) _ r.data_size k
                        w.2 w.3)
                  ∙ append_assoc (contents r) (take k bytes) (take (remain r - k) (drop k bytes))
                  ∙ ap (◌++◌ (contents r)) (take_split k (remain r) bytes (omega (arith, s)));
            },
          )
    ]

take-min : (m n : ℕ) (bytes : List ℕ) → length bytes ≡ n → take m bytes ≡ take (min n m) bytes
take-min zero n bytes l = let e : 0 ≡ min n 0 = omega arith in ap (λ k. take k bytes) e
take-min (suc m) zero [] l = sym (take-nil (min zero (suc m)))
take-min (suc m) zero (b ∷ bytes) l = absurd (omega arith)
take-min (suc m) (suc n) [] l = absurd (omega arith)
take-min (suc m) (suc n) (b ∷ bytes) l =
    let e : suc (min n m) ≡ min (suc n) (suc m) = omega arith in
    ap (◌∷◌ b) (take-min m n bytes (omega arith)) ∙ ap (λ k. take k (b ∷ bytes)) e

-- A write returns after finitely many rounds. It appends to the contents as many of the bytes as
-- there is room for, in order, says how many, and keeps the buffer valid and of the same capacity.
pub write_lem :
    (n : ℕ) (bytes : List ℕ) (r : RingBuffer)
    → IsValid r
    → length bytes ≡ n
    → (m : ℕ) × (r' : RingBuffer) × (write (pos n) bytes r ≡ some (Rc.success, m, r'))
      × (m ≡ min n (remain r))
      × (contents r' ≡ contents r ++ take m bytes)
      × (capacity r' ≡ capacity r)
      × IsValid r'
unfolding write
write_lem n bytes r v l =
    let (out, e, f) =
      write_loop-Wrote (suc n) (take n bytes) 0 r v (omega (arith, length-take n bytes)) in
    (
      out.1,
      out.2,
      e ∙ ap (λ c. some (c, out.1, out.2)) f.code,
      omega (arith, f.count, length-take n bytes),
      f.bytes_in
          ∙ ap (◌++◌ (contents r)) (
              ap (take (remain r)) (take-all n bytes (omega (arith, l)))
              ∙ take-min (remain r) n bytes l
              ∙ ap (λ m. take m bytes) (omega (arith, f.count, length-take n bytes))),
      f.same_capacity,
      f.valid,
    )
