-- ===== src/Clog/Buffer/Order.antt =====
-- The order of the log: LSNs rise by one with each append, and along the queue.
use ob_htap.Prelude.{
  ℕ, suc, ◌%◌, ◌^◌, ◌≡◌, ◌≤◌, ◌<◌, refl, List, [], ◌∷◌, ◌++◌, some, arith, length, Bool-cases, inl,
  inr, true, subst,
}
use ob_htap.Prelude.Int.{pos, ltb_ℤ, ◌+ℤ◌}
use ob_htap.Rc.{Rc}
use ob_htap.Clog.Entry.{LogEntry, init, max_payload_size, signed32}
use ob_htap.Clog.Buffer.{LogEntryBuffer, append}

-- The LSNs rise from above `lo` up to `hi` at most.
abbrev pub IsAscending : ℕ → List LogEntry → ℕ → Type 0
IsAscending lo [] hi = lo ≤ hi
IsAscending lo (e ∷ es) hi = (lo < e.header.lsn) × IsAscending e.header.lsn es hi

abbrev pub IsOrdered : LogEntryBuffer → Type 0
IsOrdered b = IsAscending b.flushed_lsn b.entries b.current_lsn

IsAscending-append :
    (lo : ℕ) (es : List LogEntry) (hi : ℕ) (e : LogEntry)
    → IsAscending lo es hi
    → e.header.lsn ≡ suc hi
    → IsAscending lo (es ++ e ∷ []) (suc hi)
IsAscending-append lo [] hi e a h = omega arith
IsAscending-append lo (d ∷ es) hi e a h = (a.0, IsAscending-append d.header.lsn es hi e a.1 h)

-- The length of a payload is more than the limit, as an `int32_t`. From 2 ^ 31 bytes on it may not be.
abbrev pub IsTooLarge : List ℕ → Type 0
IsTooLarge payload =
    (max_payload_size < length payload % 2 ^ 32) × (length payload % 2 ^ 32 < 2 ^ 31)

-- What an append that returns has done: the next LSN is given out, and the entry that carries it
-- stands at the end of the queue, with the payload unchanged; or the payload is too large, and
-- nothing has changed. It is refused only if it is too large, and queued only if it is not.
pub data Appended (module_id : ℕ) (payload : List ℕ) (b : LogEntryBuffer)
    : Rc × ℕ × LogEntryBuffer → Type 0 where
  queued :
      (lsn : ℕ) (b' : LogEntryBuffer)
      → lsn ≡ suc b.current_lsn
      → b'.current_lsn ≡ lsn
      → b'.flushed_lsn ≡ b.flushed_lsn
      → b'.entries
        ≡ b.entries
          ++ record {
            header = record { lsn = lsn; size = length payload % 2 ^ 32; module_id = module_id };
            bytes = payload;
          }
            ∷ []
      → ¬ IsTooLarge payload
      → Appended module_id payload b (Rc.success, lsn, b')
  refused :
      (lsn : ℕ) → IsTooLarge payload → Appended module_id payload b (Rc.invalid_argument, lsn, b)

-- The buffer after an append.
abbrev appended : ℕ → List ℕ → LogEntryBuffer → LogEntryBuffer
appended module_id payload b = record b {
  entries =
      b.entries
      ++ record {
        header = record {
          lsn = suc b.current_lsn;
          size = length payload % 2 ^ 32;
          module_id = module_id;
        };
        bytes = payload;
      }
        ∷ [];
  bytes = b.bytes +ℤ pos 16;
  current_lsn = suc b.current_lsn;
}

append_room :
    (module_id : ℕ) (payload : List ℕ) (lsn : ℕ) (b : LogEntryBuffer) {r : Rc × ℕ × LogEntryBuffer}
    → append module_id payload lsn b ≡ some r
    → ltb_ℤ b.bytes (pos b.max_bytes) ≡ true
unfolding append
append_room module_id payload lsn b h = ground arith

-- An append returns unless the buffer counts its limit of bytes or more. Either it has given out
-- the next LSN, and queued behind the others an entry with that LSN and the payload; or the length of
-- the payload, read as an `int32_t`, is above the limit, and it has changed nothing.
pub append-Appended :
    (module_id : ℕ) (payload : List ℕ) (lsn : ℕ) (b : LogEntryBuffer)
    → ltb_ℤ b.bytes (pos b.max_bytes) ≡ true
    → (r : Rc × ℕ × LogEntryBuffer) × (append module_id payload lsn b ≡ some r)
      × Appended module_id payload b r
unfolding append init
append-Appended module_id payload lsn b room =
    elim (Bool-cases (ltb_ℤ (pos max_payload_size) (signed32 (length payload % 2 ^ 32)))) [
      | inl big ↦ ((Rc.invalid_argument, lsn, b), ground arith, refused lsn (ground arith))
      | inr fits ↦ (
        (Rc.success, suc b.current_lsn, appended module_id payload b),
        ground arith,
        queued (suc b.current_lsn) (appended module_id payload b) refl refl refl refl
            (λ t. absurd (ground arith)),
      )
    ]

Appended-IsOrdered :
    (module_id : ℕ) (payload : List ℕ) (b : LogEntryBuffer) {r : Rc × ℕ × LogEntryBuffer}
    → Appended module_id payload b r
    → IsOrdered b
    → IsOrdered r.2
Appended-IsOrdered module_id payload b (queued lsn b' h c f e s) o =
    rw (c, f, e, h) (IsAscending-append b.flushed_lsn b.entries b.current_lsn _ o refl)
Appended-IsOrdered module_id payload b (refused lsn h) o = o

-- An append that returns, whatever it answers, keeps the queue in order: the LSNs in it rise, from
-- above the flushed one up to the current one.
pub append-IsOrdered :
    (module_id : ℕ) (payload : List ℕ) (lsn : ℕ) (b : LogEntryBuffer) {r : Rc × ℕ × LogEntryBuffer}
    → append module_id payload lsn b ≡ some r
    → IsOrdered b
    → IsOrdered r.2
append-IsOrdered module_id payload lsn b {r} h o =
    let (r', e, a) =
      append-Appended module_id payload lsn b (append_room module_id payload lsn b h) in
    let q : r' ≡ r = cc in subst (λ x. IsOrdered x.2) q (Appended-IsOrdered module_id payload b a o)
