-- ===== src/Net/RingBuffer/Window.antt =====
-- The bytes of a ring buffer in the order of reading: a window that goes round the end.
use ob_htap.Prelude.{
  ℕ, zero, suc, ◌+◌, ◌-◌, ◌≡◌, ◌≤◌, ◌<◌, refl, ap, ap₂, ◌∙◌, List, [], ◌∷◌, ◌++◌, if◌then◌else◌,
  ltb, leb, ◌==◌, length, set, get_or, arith, length-set, get_or-set_self, get_or-set_ne,
  append_assoc, append-nil, Bool-cases, leb→le, inl, inr,
}
use native.Mathlib.Nat.{mod-eq_of_lt, mod-eq-sub-mod, add-zero}
use ob_htap.Net.RingBuffer.{RingBuffer, capacity, read_pos, splice, slice}

slice_step :
    (buf : List ℕ) (h k : ℕ)
    → h < length buf
    → slice buf h (suc k) ≡ get_or buf h 0 ∷ slice buf (suc h) k
slice_step [] h k l = absurd (omega arith)
slice_step (b ∷ buf) zero k l = refl
slice_step (b ∷ buf) (suc h) k l = slice_step buf h k (omega arith)

module _ (cap : ℕ) where
  -- The place behind a place, and the place `n` places on.
  abbrev pub bump : ℕ → ℕ
  bump h = if suc h == cap then 0 else suc h

  pub place : ℕ → ℕ → ℕ
  place h zero = h
  place h (suc n) = place (bump h) n

  pub place_lem :
      (h n : ℕ) → h < cap → n ≤ cap → place h n ≡ (if ltb (h + n) cap then h + n else h + n - cap)
  unfolding place
  place_lem h zero p q = ground arith
  place_lem h (suc n) p q = ground (arith, place_lem (bump h) n)

  -- The `n` bytes from the place `h` on.
  pub window : List ℕ → ℕ → ℕ → List ℕ
  window buf h zero = []
  window buf h (suc n) = get_or buf h 0 ∷ window buf (bump h) n

  pub length-window : (buf : List ℕ) (h n : ℕ) → length (window buf h n) ≡ n
  unfolding window
  length-window buf h zero = refl
  length-window buf h (suc n) = ap suc (length-window buf (bump h) n)

  -- A byte written just behind a window is its next byte.
  window-set :
      (buf : List ℕ) (x h n : ℕ)
      → length buf ≡ cap
      → h < cap
      → n < cap
      → window (set buf (place h n) x) h (suc n) ≡ window buf h n ++ x ∷ []
  unfolding window place
  window-set buf x h zero l p q = ap (λ b. b ∷ []) (get_or-set_self buf h x 0 (omega arith))
  window-set buf x h (suc n) l p q =
      ap₂ ◌∷◌ (get_or-set_ne buf x 0 (ground (arith, place_lem (bump h) n)))
        (window-set buf x (bump h) n l (ground arith) (omega arith))

  place_next : (h n : ℕ) → place h (suc n) ≡ bump (place h n)
  unfolding place
  place_next h zero = refl
  place_next h (suc n) = place_next (bump h) n

  -- So are several, up to the end of the buffer.
  pub window-splice :
      (buf xs : List ℕ) (h n i : ℕ)
      → length buf ≡ cap
      → h < cap
      → n + length xs ≤ cap
      → i + length xs ≤ cap
      → (0 < length xs → i ≡ place h n)
      → window (splice buf i xs) h (n + length xs) ≡ window buf h n ++ xs
  unfolding splice
  window-splice buf [] h n i l p q r e = rw (add-zero, append-nil) refl
  window-splice buf (x ∷ xs) h n i l p q r e =
      let i' : i ≡ place h n = e (omega arith) in
      ap (window (splice (set buf i x) (suc i) xs) h) (omega arith)
      ∙ window-splice (set buf i x) xs h (suc n) (suc i) (length-set buf i x ∙ l) p (omega arith)
          (omega arith) (λ more. ground (arith, i', place_next h n))
      ∙ ap (λ b. b ++ xs) (rw i' (window-set buf x h n l p (omega arith)))
      ∙ append_assoc (window buf h n) (x ∷ []) xs

  slice-bump :
      (buf : List ℕ) (h k : ℕ) → h + suc k ≤ cap → slice buf (bump h) k ≡ slice buf (suc h) k
  slice-bump buf h zero c = refl
  slice-bump buf h (suc k) c =
      let e : bump h ≡ suc h = ground arith in ap (λ i. slice buf i (suc k)) e

  -- A first part of a window that does not go round the end is a slice, and the rest a window.
  pub window-slice :
      (buf : List ℕ) (h n k : ℕ)
      → length buf ≡ cap
      → k ≤ n
      → n ≤ cap
      → h + k ≤ cap
      → h < cap
      → window buf h n ≡ slice buf h k ++ window buf (place h k) (n - k)
  unfolding window place
  window-slice buf h n zero l a b c d = ap (window buf h) (omega arith)
  window-slice buf h zero (suc k) l a b c d = absurd (omega arith)
  window-slice buf h (suc n) (suc k) l a b c d =
      let ih =
        window-slice buf (bump h) n k l (omega arith) (omega arith) (ground arith) (ground arith) in
      rw (slice_step buf h k (omega arith)) (
        ap (◌∷◌ (get_or buf h 0)) (
          ih
          ∙ ap₂ (λ s m. s ++ window buf (place (bump h) k) m) (slice-bump buf h k c) (omega arith)))

pub length-splice : (xs buf : List ℕ) (i : ℕ) → length (splice buf i xs) ≡ length buf
unfolding splice
length-splice [] buf i = refl
length-splice (x ∷ xs) buf i = length-splice xs (set buf i x) (suc i) ∙ length-set buf i x

-- The fields of a ring buffer in use.
pub record IsValid (r : RingBuffer) : Type 0 where
  pub some_room : 0 < capacity r
  pub data_fits : r.data_size ≤ capacity r
  pub write_in : r.write_pos < capacity r

pub read_pos_lem :
    (r : RingBuffer)
    → IsValid r
    → read_pos r ≡ (
        if leb r.data_size r.write_pos
        then r.write_pos - r.data_size
        else r.write_pos + capacity r - r.data_size)
unfolding read_pos
read_pos_lem r v = elim (Bool-cases (leb r.data_size r.write_pos)) [
  | inl y ↦ rw y (
      omega (
        arith,
        mod-eq-sub-mod {n = r.write_pos + capacity r - r.data_size} {m = capacity r} (ground arith),
        mod-eq_of_lt {n = r.write_pos + capacity r - r.data_size - capacity r} {m = capacity r}
            (ground arith),
        v.data_fits,
        leb→le r.data_size r.write_pos y,
      ))
  | inr n ↦ rw n (mod-eq_of_lt (ground arith))
]

-- The bytes that are to be read, oldest first.
abbrev pub contents : RingBuffer → List ℕ
contents r = window (capacity r) r.buffer (read_pos r) r.data_size

-- Reading begins inside the buffer, and the byte behind the last one is the one to write.
pub read_pos-place :
    (r : RingBuffer)
    → IsValid r
    → (read_pos r < capacity r) × (place (capacity r) (read_pos r) r.data_size ≡ r.write_pos)
read_pos-place r v =
    let q = read_pos_lem r v in
    let inside : read_pos r < capacity r = ground arith in
    (inside, ground (arith, place_lem (capacity r) (read_pos r) r.data_size inside v.data_fits))
