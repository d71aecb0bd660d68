-- ===== src/Net/RingBuffer.antt =====
-- src/observer/net/ring_buffer.h and ring_buffer.cpp. The sizes are of type `int32_t`: those that the
-- buffer keeps are not negative, those that a caller hands in may be.
pub mod Window
pub mod Fifo
pub mod Reading
use ob_htap.Prelude.{
  ℕ, zero, suc, ◌+◌, ◌-◌, ◌%◌, min, List, [], ◌∷◌, ◌++◌, ◌&&◌, Option, none, some, if◌then◌else◌,
  ltb, leb, ◌==◌, length, take, drop, set, replicate,
}
use ob_htap.Prelude.Int.{ℤ, pos, negsuc}
use ob_htap.Rc.{Rc, ob_succ}

pub record RingBuffer : Type 0 where
  pub buffer : List ℕ
  pub data_size : ℕ
  pub write_pos : ℕ

abbrev pub capacity : RingBuffer → ℕ
capacity r = length r.buffer

abbrev pub remain : RingBuffer → ℕ
remain r = capacity r - r.data_size

-- `RingBuffer::RingBuffer(int32_t)`
abbrev pub new : ℕ → RingBuffer
new size = record { buffer = replicate size 0; data_size = 0; write_pos = 0 }

abbrev pub clear : RingBuffer → RingBuffer
clear r = record r { data_size = 0; write_pos = 0 }

unfoldable pub read_pos : RingBuffer → ℕ
read_pos r = (r.write_pos + capacity r - r.data_size) % capacity r

-- `memcpy` into the buffer, and out of it
unfoldable pub splice : List ℕ → ℕ → List ℕ → List ℕ
splice buf i [] = buf
splice buf i (x ∷ xs) = splice (set buf i x) (suc i) xs

abbrev pub slice : List ℕ → ℕ → ℕ → List ℕ
slice buf i n = take n (drop i buf)

-- `RingBuffer::buffer`: where the bytes to read begin, and how many of them lie together.
unfoldable pub buffer : RingBuffer → ℕ × ℕ
buffer r =
    if r.data_size == 0
    then (0, 0)
    else let p = read_pos r in (p, if ltb p r.write_pos then r.write_pos - p else capacity r - p)

-- `RingBuffer::forward`
unfoldable pub forward : ℤ → RingBuffer → Rc × RingBuffer
forward (negsuc n) r = (Rc.invalid_argument, r)
forward (pos zero) r = (Rc.invalid_argument, r)
forward (pos (suc n)) r =
    if ltb r.data_size (suc n)
    then (Rc.invalid_argument, r)
    else (Rc.success, record r { data_size = r.data_size - suc n })

-- The loop of `RingBuffer::read`, with the number of bytes still wanted and those that were read.
-- `none` is out of fuel.
unfoldable pub read_loop : ℕ → ℕ → List ℕ → RingBuffer → Option (Rc × List ℕ × RingBuffer)
read_loop zero want out r = none
read_loop (suc fuel) want out r =
    let (p, together) = buffer r in
    let copied = min want together in
    let (rc, r') = forward (pos copied) r in
    let out' = out ++ slice r.buffer p copied in
    let rest = read_loop fuel (want - copied) out' r' in
    if ltb 0 want && ltb 0 r.data_size
    then if ob_succ rc then rest else some (rc, out', r')
    else some (Rc.success, out, r)

-- `RingBuffer::read`. A round reads a byte or more, or ends the loop.
unfoldable pub read : ℤ → RingBuffer → Option (Rc × List ℕ × RingBuffer)
read (negsuc n) r = some (Rc.invalid_argument, [], r)
read (pos n) r = read_loop (suc n) n [] r

-- The bytes that one round of `write` copies at most.
unfoldable pub room : RingBuffer → ℕ
room r =
    let p = read_pos r in if leb p r.write_pos then capacity r - r.write_pos else p - r.write_pos

-- One round of the loop of `RingBuffer::write`, with the bytes that are left to write.
unfoldable pub write_round : List ℕ → RingBuffer → RingBuffer
write_round bytes r =
    let copied = min (length bytes) (room r) in
    record {
      buffer = splice r.buffer r.write_pos (take copied bytes);
      data_size = r.data_size + copied;
      write_pos = (r.write_pos + copied) % capacity r;
    }

-- The loop of `RingBuffer::write`, with the number of bytes written.
unfoldable pub write_loop : ℕ → List ℕ → ℕ → RingBuffer → Option (Rc × ℕ × RingBuffer)
write_loop zero bytes written r = none
write_loop (suc fuel) bytes written r =
    let copied = min (length bytes) (room r) in
    let rest = write_loop fuel (drop copied bytes) (written + copied) (write_round bytes r) in
    if ltb 0 (length bytes) && ltb 0 (remain r) then rest else some (Rc.success, written, r)

-- `RingBuffer::write` of the first `size` bytes at a pointer.
unfoldable pub write : ℤ → List ℕ → RingBuffer → Option (Rc × ℕ × RingBuffer)
write (negsuc n) bytes r = some (Rc.invalid_argument, 0, r)
write (pos n) bytes r = write_loop (suc n) (take n bytes) 0 r
