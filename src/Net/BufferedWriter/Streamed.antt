-- ===== src/Net/BufferedWriter/Streamed.antt =====
-- What becomes of the bytes that `writen` is given.
use ob_htap.Prelude.{
  ℕ, zero, suc, ◌≡◌, ◌<◌, refl, ap, sym, ◌∙◌, List, [], ◌∷◌, ◌++◌, true, some, if◌then◌else◌, arith,
  append_assoc, append-nil, Bool-cases, inl, inr, length, take, drop, take-append-drop, length-drop,
}
use ob_htap.Rc.{Rc, ob_succ}
use ob_htap.Net.RingBuffer.Window.{IsValid}
use ob_htap.Net.BufferedWriter.{
  BufferedWriter, Sent, Progress, waiting, returned, Written, write_some, writen_loop, writen,
}
use ob_htap.Net.BufferedWriter.Writing.{stream, Took, Put, holds, puts, write_some-Put}

-- Where `writen` ends: the bytes that it has taken are a first part, and all of them if it succeeds.
pub data Streamed (w : BufferedWriter) (bytes : List ℕ) : Progress → Type 0 where
  stays :
      (w' : BufferedWriter) (taken left : List ℕ)
      → bytes ≡ taken ++ left
      → stream w' ≡ stream w ++ taken
      → Streamed w bytes (waiting w')
  ends :
      (rc : Rc) (w' : BufferedWriter) (answers : List Sent) (taken left : List ℕ)
      → bytes ≡ taken ++ left
      → stream w' ≡ stream w ++ taken
      → (ob_succ rc ≡ true → left ≡ [])
      → Streamed w bytes (returned rc w' answers)

joined :
    (w w' w'' : BufferedWriter) (bytes taken : List ℕ) (n : ℕ)
    → Took w bytes n w'
    → stream w'' ≡ stream w' ++ taken
    → stream w'' ≡ stream w ++ (take n bytes ++ taken)
joined w w' w'' bytes taken n t e =
    e ∙ ap (λ s. s ++ taken) t.streamed ∙ append_assoc (stream w) (take n bytes) taken

parted :
    (bytes taken left : List ℕ) (n : ℕ)
    → drop n bytes ≡ taken ++ left
    → bytes ≡ (take n bytes ++ taken) ++ left
parted bytes taken left n e =
    sym (take-append-drop n bytes)
    ∙ ap (◌++◌ (take n bytes)) e
    ∙ sym (append_assoc (take n bytes) taken left)

more_Streamed :
    (w w' : BufferedWriter) (bytes : List ℕ) (n : ℕ) (p : Progress)
    → Took w bytes n w'
    → Streamed w' (drop n bytes) p
    → Streamed w bytes p
more_Streamed w w' bytes n p t (stays w'' taken left e f) =
    stays w'' (take n bytes ++ taken) left (parted bytes taken left n e)
      (joined w w' w'' bytes taken n t f)
more_Streamed w w' bytes n p t (ends rc w'' answers taken left e f g) =
    ends rc w'' answers (take n bytes ++ taken) left (parted bytes taken left n e)
      (joined w w' w'' bytes taken n t f) g

Ends : ℕ → List Sent → List ℕ → BufferedWriter → Type 0
Ends fuel answers bytes w =
    (p : Progress) × (writen_loop fuel answers bytes w ≡ some p) × Streamed w bytes p

-- A round of the loop, where the rounds behind it end.
round-Ends :
    (fuel : ℕ) (answers : List Sent) (b : ℕ) (bytes : List ℕ) (w : BufferedWriter) (r : Written)
    → ((rest : List Sent) (n : ℕ) (w' : BufferedWriter)
        → 0 < n
        → Took w (b ∷ bytes) n w'
        → Ends fuel rest (drop n (b ∷ bytes)) w')
    → write_some answers (b ∷ bytes) w ≡ some r
    → Put w (b ∷ bytes) r
    → Ends (suc fuel) answers (b ∷ bytes) w
unfolding writen_loop Ends
round-Ends fuel answers b bytes w r next d (holds w' t) =
    (waiting w', rw (writen_loop, d) refl, stays w' [] (b ∷ bytes) refl t.streamed)
round-Ends fuel answers b bytes w r next d (puts rc n w' rest t g) =
    elim (Bool-cases (ob_succ rc)) [
      | inl y ↦
          let (p, e, s) = next rest n w' (g y) t in
          (p, rw (writen_loop, d, y) e, more_Streamed w w' (b ∷ bytes) n p t s)
      | inr f ↦ (
        returned rc w' rest,
        rw (writen_loop, d, f) refl,
        ends rc w' rest (take n (b ∷ bytes)) (drop n (b ∷ bytes))
            (sym (take-append-drop n (b ∷ bytes))) t.streamed (λ y. absurd (ground arith)),
      )
    ]

writen_loop-Streamed :
    (fuel : ℕ) (answers : List Sent) (bytes : List ℕ) (w : BufferedWriter)
    → length bytes < fuel
    → IsValid w.ring
    → w.opened ≡ true
    → Ends fuel answers bytes w
unfolding writen_loop Ends
writen_loop-Streamed zero answers bytes w l v o = absurd (omega arith)
writen_loop-Streamed (suc fuel) answers [] w l v o = (
  returned Rc.success w answers,
  refl,
  ends Rc.success w answers [] [] refl (sym (append-nil (stream w))) (λ y. refl),
)
writen_loop-Streamed (suc fuel) answers (b ∷ bytes) w l v o =
    let (r, d, q) = write_some-Put answers (b ∷ bytes) w (omega arith) v o in
    round-Ends fuel answers b bytes w r
      (λ rest n w' z t.
        writen_loop-Streamed fuel rest (drop n (b ∷ bytes)) w'
          (omega (arith, length-drop n (b ∷ bytes), z)) t.valid (t.still ∙ o))
      d q

opened_writen :
    (answers : List Sent) (bytes : List ℕ) (w : BufferedWriter)
    → w.opened ≡ true
    → writen answers bytes w ≡ writen_loop (suc (length bytes)) answers bytes w
unfolding writen
opened_writen answers bytes w o =
    ap
      (λ b.
        if b
        then writen_loop (suc (length bytes)) answers bytes w
        else some (returned Rc.invalid_argument w answers))
      o

-- `writen` to an open writer comes to an end, or waits for the connection, whatever that answers. What the
-- connection has taken and the buffer holds is then what it was before and a first part of the bytes
-- behind it, in order: all of them if it has succeeded.
pub writen-Streamed :
    (answers : List Sent) (bytes : List ℕ) (w : BufferedWriter)
    → IsValid w.ring
    → w.opened ≡ true
    → (p : Progress) × (writen answers bytes w ≡ some p) × Streamed w bytes p
unfolding Ends
writen-Streamed answers bytes w v o =
    let (p, e, s) = writen_loop-Streamed (suc (length bytes)) answers bytes w (omega arith) v o in
    (p, opened_writen answers bytes w o ∙ e, s)
