-- ===== src/Net/BufferedWriter.antt =====
-- src/observer/net/buffered_writer.cpp. What the connection
-- answers to each `::write` is an argument; when the answers are at an end the call goes on waiting.
pub mod Flush
pub mod Writing
pub mod Streamed
use ob_htap.Prelude.{
  ℕ, zero, suc, ◌+◌, min, List, [], ◌∷◌, ◌++◌, Bool, false, ◌&&◌, Option, none, some, if◌then◌else◌,
  ltb, ◌==◌, length, drop,
}
use ob_htap.Prelude.Int.{pos}
use ob_htap.Rc.{Rc, ob_succ}
use ob_htap.Net.RingBuffer.{RingBuffer, buffer, forward, slice, remain, write}

-- `BufferedWriter`, with the bytes that the connection has taken. `opened` is `fd_ >= 0`.
pub record BufferedWriter : Type 0 where
  pub opened : Bool
  pub ring : RingBuffer
  pub sent : List ℕ

-- An answer of `::write`: it takes at most that many bytes, asks to try again (EAGAIN, EINTR), or
-- fails.
pub data Sent : Type 0 where
  took : ℕ → Sent
  again failed : Sent

pub data Progress : Type 0 where
  waiting : BufferedWriter → Progress
  returned : Rc → BufferedWriter → List Sent → Progress

-- `::write` of `k` bytes from the place that `buffer` gives, and `forward`, whose answer is not
-- looked at.
unfoldable pub send : ℕ → BufferedWriter → BufferedWriter
send k w = record w {
  ring = (forward (pos k) w.ring).1;
  sent = w.sent ++ slice w.ring.buffer (buffer w.ring).0 k;
}

-- The loops of `flush_internal`, with the number of bytes written: an answer of 0 bytes and a call to
-- try again lead to the same `::write` once more.
unfoldable pub flush_internal_loop : List Sent → ℕ → ℕ → BufferedWriter → Progress
flush_internal_loop [] size written w =
    if ltb 0 w.ring.data_size && ltb written size then waiting w else returned Rc.success w []
flush_internal_loop (again ∷ answers) size written w =
    let rest = flush_internal_loop answers size written w in
    if ltb 0 w.ring.data_size && ltb written size
    then rest
    else returned Rc.success w (again ∷ answers)
flush_internal_loop (failed ∷ answers) size written w =
    if ltb 0 w.ring.data_size && ltb written size
    then returned Rc.ioerr_write w answers
    else returned Rc.success w (failed ∷ answers)
flush_internal_loop (took zero ∷ answers) size written w =
    let rest = flush_internal_loop answers size written w in
    if ltb 0 w.ring.data_size && ltb written size
    then rest
    else returned Rc.success w (took zero ∷ answers)
flush_internal_loop (took (suc n) ∷ answers) size written w =
    let k = min (suc n) (buffer w.ring).1 in
    let rest = flush_internal_loop answers size (written + k) (send k w) in
    if ltb 0 w.ring.data_size && ltb written size
    then rest
    else returned Rc.success w (took (suc n) ∷ answers)

-- `BufferedWriter::flush_internal`
unfoldable pub flush_internal : List Sent → ℕ → BufferedWriter → Progress
flush_internal answers size w =
    if w.opened
    then flush_internal_loop answers size 0 w
    else returned Rc.invalid_argument w answers

-- The loop of `flush`. `none` is out of fuel.
unfoldable pub flush_loop : ℕ → List Sent → BufferedWriter → Option Progress
flush_loop zero answers w = none
flush_loop (suc fuel) answers w =
    if ltb 0 w.ring.data_size
    then elim (flush_internal answers w.ring.data_size w) [
      | waiting w' ↦ some (waiting w')
      | returned rc w' answers' ↦
          let rest = flush_loop fuel answers' w' in
          if ob_succ rc then rest else some (returned rc w' answers')
    ]
    else some (returned Rc.success w answers)

-- `BufferedWriter::flush`. One call of `flush_internal` empties the buffer or ends the loop.
unfoldable pub flush : List Sent → BufferedWriter → Option Progress
flush answers w =
    if w.opened then flush_loop 2 answers w else some (returned Rc.invalid_argument w answers)

-- `BufferedWriter::close`
unfoldable pub close : List Sent → BufferedWriter → Option Progress
close answers w =
    if w.opened
    then elim (flush answers w) [
      | none ↦ none
      | some (waiting w') ↦ some (waiting w')
      | some (returned rc w' answers') ↦
          some (returned rc (if ob_succ rc then record w' { opened = false } else w') answers')
    ]
    else some (returned Rc.success w answers)

-- Where a `write` ends, with the number of bytes that the buffer has taken.
pub data Written : Type 0 where
  held : BufferedWriter → Written
  wrote : Rc → ℕ → BufferedWriter → List Sent → Written

-- `buffer_.write`
unfoldable pub put_in : List Sent → List ℕ → BufferedWriter → Option Written
put_in answers bytes w = elim (write (pos (length bytes)) bytes w.ring) [
  | none ↦ none
  | some (rc, n, ring) ↦ some (wrote rc n (record w { ring = ring }) answers)
]

-- `BufferedWriter::write`
unfoldable pub write_some : List Sent → List ℕ → BufferedWriter → Option Written
write_some answers bytes w =
    if w.opened
    then if remain w.ring == 0
      then elim (flush_internal answers (length bytes) w) [
        | waiting w' ↦ some (held w')
        | returned rc w' answers' ↦
            let next = put_in answers' bytes w' in
            if ob_succ rc then next else some (wrote rc 0 w' answers')
      ]
      else put_in answers bytes w
    else some (wrote Rc.invalid_argument 0 w answers)

-- The loop of `writen`, with the bytes that are left. `none` is out of fuel.
unfoldable pub writen_loop : ℕ → List Sent → List ℕ → BufferedWriter → Option Progress
writen_loop zero answers bytes w = none
writen_loop (suc fuel) answers [] w = some (returned Rc.success w answers)
writen_loop (suc fuel) answers (b ∷ bytes) w = elim (write_some answers (b ∷ bytes) w) [
  | none ↦ none
  | some (held w') ↦ some (waiting w')
  | some (wrote rc n w' answers') ↦
      let rest = writen_loop fuel answers' (drop n (b ∷ bytes)) w' in
      if ob_succ rc then rest else some (returned rc w' answers')
]

-- `BufferedWriter::writen`. Each round but the last takes a byte or more.
unfoldable pub writen : List Sent → List ℕ → BufferedWriter → Option Progress
writen answers bytes w =
    if w.opened
    then writen_loop (suc (length bytes)) answers bytes w
    else some (returned Rc.invalid_argument w answers)
