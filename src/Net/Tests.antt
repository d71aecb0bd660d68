-- ===== src/Net/Tests.antt =====
-- A ring buffer at work.
use ob_htap.Prelude.{ℕ, ◌≡◌, refl, List, [], ◌∷◌, ◌++◌, length, take, some, true, arith}
use ob_htap.Prelude.Int.{pos}
use ob_htap.Rc.{Rc}
use ob_htap.Net.RingBuffer.{RingBuffer, capacity, read, write}
use ob_htap.Net.RingBuffer.Window.{IsValid, contents}
use ob_htap.Net.RingBuffer.Fifo.{write_lem}
use ob_htap.Net.RingBuffer.Reading.{read_lem}
use ob_htap.Net.BufferedWriter.{took, again, Progress, flush}
use ob_htap.Net.BufferedWriter.{BufferedWriter, writen}
use ob_htap.Net.BufferedWriter.Streamed.{Streamed, writen-Streamed}
use ob_htap.Net.BufferedWriter.Flush.{Flushed, flush-Moved}

-- Three bytes, of which the last two stand at the front.
abbrev wrapped : RingBuffer
wrapped = record { buffer = 71 ∷ 72 ∷ 0 ∷ 70 ∷ []; data_size = 3; write_pos = 2 }

wrapped-IsValid : IsValid wrapped
wrapped-IsValid = record {
  some_room = omega arith;
  data_fits = omega arith;
  write_in = omega arith;
}

write_lem_example :
    (m : ℕ) × (r' : RingBuffer) × (write (pos 2) (73 ∷ 74 ∷ []) wrapped ≡ some (Rc.success, m, r'))
    × (m ≡ 1)
    × (contents r' ≡ contents wrapped ++ take m (73 ∷ 74 ∷ []))
    × (capacity r' ≡ 4)
    × IsValid r'
write_lem_example = write_lem 2 (73 ∷ 74 ∷ []) wrapped wrapped-IsValid refl

read_lem_example :
    (bytes : List ℕ) × (r' : RingBuffer) × (read (pos 2) wrapped ≡ some (Rc.success, bytes, r'))
    × (length bytes ≡ 2)
    × (contents wrapped ≡ bytes ++ contents r')
    × (capacity r' ≡ 4)
    × IsValid r'
read_lem_example = read_lem 2 wrapped wrapped-IsValid

-- The connection takes one byte, asks to try again, and takes the rest.
flush-Moved_example :
    (q : Progress) × (flush
        (took 1 ∷ again ∷ took 9 ∷ took 9 ∷ [])
        (record { opened = true; ring = wrapped; sent = [] })
      ≡ some q)
    × Flushed (record { opened = true; ring = wrapped; sent = [] }) q
flush-Moved_example =
    flush-Moved (took 1 ∷ again ∷ took 9 ∷ took 9 ∷ [])
      (record { opened = true; ring = wrapped; sent = [] }) refl wrapped-IsValid

-- Six bytes to a buffer of four with a place left.
abbrev writer : BufferedWriter
writer = record { opened = true; ring = wrapped; sent = [] }

writen-Streamed_example :
    (p : Progress) × (writen (took 3 ∷ again ∷ took 9 ∷ []) (1 ∷ 2 ∷ 3 ∷ 4 ∷ 5 ∷ 6 ∷ []) writer
      ≡ some p)
    × Streamed writer (1 ∷ 2 ∷ 3 ∷ 4 ∷ 5 ∷ 6 ∷ []) p
writen-Streamed_example =
    writen-Streamed (took 3 ∷ again ∷ took 9 ∷ []) (1 ∷ 2 ∷ 3 ∷ 4 ∷ 5 ∷ 6 ∷ []) writer
      wrapped-IsValid refl
