-- ===== src/Record/Bitmap/Search.antt =====
-- The search for the next bit of a kind, and the number of bits that are set.
use ob_htap.Prelude.{
  ℕ, zero, suc, ◌+◌, ◌-◌, ◌*◌, ◌/◌, ◌%◌, ◌≤◌, ◌<◌, ◌≡◌, refl, ◌∙◌, subst, List, Bool, true, false,
  not, Option, none, some, if◌then◌else◌, ltb, leb, ◌==◌, get_or, arith, Bool-cases, inl, inr,
}
use ob_htap.Record.Bitmap.{
  bit, same_bit, find_loop, find_first, bytes, get_bit, skipped, next_loop, next_bit,
}

-- What a search over the bits from `lo` up to `hi` answers: the first bit of the kind that is wanted, or
-- nothing, if there is none.
pub data Searched (wanted : Bool) (at : ℕ → Bool) (lo hi : ℕ) : Option ℕ → Type 0 where
  found :
      (r : ℕ)
      → lo ≤ r
      → r < hi
      → at r ≡ wanted
      → ((j : ℕ) → lo ≤ j → j < r → at j ≡ not wanted)
      → Searched wanted at lo hi (some r)
  absent : ((j : ℕ) → lo ≤ j → j < hi → at j ≡ not wanted) → Searched wanted at lo hi none

same_bit-true : (wanted b : Bool) → same_bit wanted b ≡ true → b ≡ wanted
same_bit-true true b h = h
same_bit-true false true h = cc
same_bit-true false false h = refl

same_bit-false : (wanted b : Bool) → same_bit wanted b ≡ false → b ≡ not wanted
same_bit-false true b h = h
same_bit-false false true h = refl
same_bit-false false false h = cc

-- One more bit in front, of the other kind.
in_front :
    (wanted : Bool) (at : ℕ → Bool) (lo mid hi : ℕ) (r : Option ℕ)
    → lo ≤ mid
    → ((j : ℕ) → lo ≤ j → j < mid → at j ≡ not wanted)
    → Searched wanted at mid hi r
    → Searched wanted at lo hi r
in_front wanted at lo mid hi r l f (found k a b e g) = found k (omega arith) b e λ j p q.
    elim (Bool-cases (ltb j mid)) [ inl y ↦ f j p (ground arith) | inr n ↦ g j (ground arith) q ]
in_front wanted at lo mid hi r l f (absent g) = absent λ j p q. elim (Bool-cases (ltb j mid)) [
  | inl y ↦ f j p (ground arith)
  | inr n ↦ g j (ground arith) q
]

find_loop-Searched :
    (wanted : Bool) (byte i rounds : ℕ)
    → Searched wanted (bit byte) i (i + rounds) (find_loop wanted byte i rounds)
unfolding find_loop
find_loop-Searched wanted byte i zero = absent λ j p q. absurd (omega arith)
find_loop-Searched wanted byte i (suc rounds) = elim (Bool-cases (same_bit wanted (bit byte i))) [
  | inl y ↦ rw y (
      found i (omega arith) (omega arith) (same_bit-true wanted (bit byte i) y)
        λ j p q. absurd (omega arith))
  | inr n ↦
      let z : suc i + rounds ≡ i + suc rounds = omega arith in
      let ih =
        subst (λ hi. Searched wanted (bit byte) (suc i) hi (find_loop wanted byte (suc i) rounds)) z
          (find_loop-Searched wanted byte (suc i) rounds) in
      rw n (
        in_front wanted (bit byte) i (suc i) (i + suc rounds) (find_loop wanted byte (suc i) rounds)
          (omega arith)
          (λ j p q. let e : j ≡ i = omega arith in rw e (same_bit-false wanted (bit byte i) n)) ih)
]

-- A byte that is passed over has no bit of the kind.
skipped_bits : (wanted : Bool) (j : ℕ) → j < 8 → bit (skipped wanted) j ≡ not wanted
unfolding bit
skipped_bits true zero h = refl
skipped_bits true (suc zero) h = refl
skipped_bits true (suc (suc zero)) h = refl
skipped_bits true (suc (suc (suc zero))) h = refl
skipped_bits true (suc (suc (suc (suc zero)))) h = refl
skipped_bits true (suc (suc (suc (suc (suc zero))))) h = refl
skipped_bits true (suc (suc (suc (suc (suc (suc zero)))))) h = refl
skipped_bits true (suc (suc (suc (suc (suc (suc (suc zero))))))) h = refl
skipped_bits true (suc (suc (suc (suc (suc (suc (suc (suc j)))))))) h = absurd (omega arith)
skipped_bits false zero h = refl
skipped_bits false (suc zero) h = refl
skipped_bits false (suc (suc zero)) h = refl
skipped_bits false (suc (suc (suc zero))) h = refl
skipped_bits false (suc (suc (suc (suc zero)))) h = refl
skipped_bits false (suc (suc (suc (suc (suc zero))))) h = refl
skipped_bits false (suc (suc (suc (suc (suc (suc zero)))))) h = refl
skipped_bits false (suc (suc (suc (suc (suc (suc (suc zero))))))) h = refl
skipped_bits false (suc (suc (suc (suc (suc (suc (suc (suc j)))))))) h = absurd (omega arith)

abbrev search_byte : Bool → ℕ → ℕ → Option ℕ
search_byte wanted byte start =
    if byte == skipped wanted then none else find_first wanted byte start

search_byte-Searched :
    (wanted : Bool) (byte start : ℕ)
    → start ≤ 8
    → Searched wanted (bit byte) start 8 (search_byte wanted byte start)
search_byte-Searched wanted byte start h = elim (Bool-cases (byte == skipped wanted)) [
  | inl y ↦
      let e : byte ≡ skipped wanted = ground arith in
      rw y (absent λ j p q. rw e (skipped_bits wanted j q))
  | inr n ↦
      let z : start + (8 - start) ≡ 8 = omega arith in
      rw n (
        subst (λ hi. Searched wanted (bit byte) start hi (find_first wanted byte start)) z
          (find_loop-Searched wanted byte start (8 - start)))
]

-- From the bits of one byte to those of the bitmap.
one_byte :
    (wanted : Bool) (bitmap : List ℕ) (iter start rounds : ℕ) (rest : Option ℕ) (r : Option ℕ)
    → start ≤ 8
    → Searched wanted (bit (get_or bitmap iter 0)) start 8 r
    → Searched wanted (get_bit bitmap) (suc iter * 8) ((suc iter + rounds) * 8) rest
    → Searched wanted
        (get_bit bitmap)
        (iter * 8 + start)
        ((suc iter + rounds) * 8)
        (elim r [ none ↦ rest | some k ↦ some (iter * 8 + k) ])
unfolding get_bit
one_byte wanted bitmap iter start rounds rest r h (found k a b e g) s =
    let q : (iter * 8 + k) / 8 ≡ iter = omega arith in
    let m : (iter * 8 + k) % 8 ≡ k = omega arith in
    found (iter * 8 + k) (omega arith) (omega arith) (rw (q, m) e)
      λ j c d. let q' : j / 8 ≡ iter = omega arith in rw q' (g (j % 8) (omega arith) (omega arith))
one_byte wanted bitmap iter start rounds rest r h (absent g) s =
    in_front wanted (get_bit bitmap) (iter * 8 + start) (suc iter * 8) ((suc iter + rounds) * 8)
      rest (omega arith)
      (λ j c d.
        let q' : j / 8 ≡ iter = omega arith in rw q' (g (j % 8) (omega arith) (omega arith)))
      s

next_loop-Searched :
    (wanted : Bool) (bitmap : List ℕ) (iter start rounds : ℕ)
    → start < 8
    → Searched wanted
        (get_bit bitmap)
        (iter * 8 + start)
        ((iter + rounds) * 8)
        (next_loop wanted bitmap iter start rounds)
unfolding next_loop
next_loop-Searched wanted bitmap iter start zero h = absent λ j p q. absurd (omega arith)
next_loop-Searched wanted bitmap iter start (suc rounds) h =
    let ih = next_loop-Searched wanted bitmap (suc iter) 0 rounds (omega arith) in
    let z : suc iter * 8 + 0 ≡ suc iter * 8 = omega arith in
    let w : suc iter + rounds ≡ iter + suc rounds = omega arith in
    let rest = next_loop wanted bitmap (suc iter) 0 rounds in
    subst
      (λ hi.
        Searched wanted (get_bit bitmap) (iter * 8 + start) (hi * 8)
          (elim (search_byte wanted (get_or bitmap iter 0) start) [
            | none ↦ rest
            | some k ↦ some (iter * 8 + k)
          ]))
      w
      (one_byte wanted bitmap iter start rounds rest
        (search_byte wanted (get_or bitmap iter 0) start) (omega arith)
        (search_byte-Searched wanted (get_or bitmap iter 0) start (omega arith))
        (subst (λ lo. Searched wanted (get_bit bitmap) lo ((suc iter + rounds) * 8) rest) z ih))

-- The bits behind `size` are cut off.
cut_off :
    (wanted : Bool) (bitmap : List ℕ) (start size hi : ℕ) (r : Option ℕ)
    → size ≤ hi
    → Searched wanted (get_bit bitmap) start hi r
    → Searched wanted
        (get_bit bitmap)
        start
        size
        (elim r [ none ↦ none | some k ↦ if leb size k then none else some k ])
cut_off wanted bitmap start size hi r h (found k a b e g) = elim (Bool-cases (leb size k)) [
  | inl y ↦ rw y (absent λ j p q. g j p (ground arith))
  | inr n ↦ rw n (found k a (ground arith) e g)
]
cut_off wanted bitmap start size hi r h (absent g) = absent λ j p q. g j p (omega arith)

-- The search from `start` on finds the first bit of the kind that is wanted below `size`, and finds
-- nothing only where there is no such bit.
pub next_bit-Searched :
    (wanted : Bool) (size : ℕ) (bitmap : List ℕ) (start : ℕ)
    → start ≤ size
    → Searched wanted (get_bit bitmap) start size (next_bit wanted size bitmap start)
unfolding next_bit bytes
next_bit-Searched wanted size bitmap start h =
    let z : start / 8 * 8 + start % 8 ≡ start = omega arith in
    let s =
      next_loop-Searched wanted bitmap (start / 8) (start % 8) (bytes size - start / 8)
        (omega arith) in
    cut_off wanted bitmap start size ((start / 8 + (bytes size - start / 8)) * 8)
      (next_loop wanted bitmap (start / 8) (start % 8) (bytes size - start / 8)) (ground arith)
      (subst
        (λ lo.
          Searched wanted (get_bit bitmap) lo ((start / 8 + (bytes size - start / 8)) * 8)
            (next_loop wanted bitmap (start / 8) (start % 8) (bytes size - start / 8)))
        z s)

-- The number of bits below `n` that are set.
abbrev pub count : (ℕ → Bool) → ℕ → ℕ
count at zero = 0
count at (suc n) = (if at n then 1 else 0) + count at n

pub count-le : (at : ℕ → Bool) (n : ℕ) → count at n ≤ n
count-le at zero = omega arith
count-le at (suc n) = ground (arith, count-le at n)

pub count_all : (at : ℕ → Bool) (n : ℕ) → ((j : ℕ) → j < n → at j ≡ true) → count at n ≡ n
count_all at zero f = refl
count_all at (suc n) f =
    rw (f n (omega arith)) (omega (arith, count_all at n (λ j h. f j (omega arith))))

pub count_none : (at : ℕ → Bool) (n : ℕ) → ((j : ℕ) → j < n → at j ≡ false) → count at n ≡ 0
count_none at zero f = refl
count_none at (suc n) f =
    rw (f n (omega arith)) (omega (arith, count_none at n (λ j h. f j (omega arith))))

-- Where two sets of bits agree below `n`, so do the numbers.
pub count_same :
    (at at' : ℕ → Bool) (n : ℕ) → ((j : ℕ) → j < n → at' j ≡ at j) → count at' n ≡ count at n
count_same at at' zero f = refl
count_same at at' (suc n) f =
    rw (f n (omega arith)) (omega (arith, count_same at at' n (λ j h. f j (omega arith))))

pub count_set :
    (at at' : ℕ → Bool) (i n : ℕ)
    → i < n
    → at i ≡ false
    → ((j : ℕ) → at' j ≡ (if i == j then true else at j))
    → count at' n ≡ suc (count at n)
count_set at at' i zero h e f = absurd (omega arith)
count_set at at' i (suc n) h e f = elim (Bool-cases (i == n)) [
  | inl y ↦
      let z : i ≡ n = ground arith in
      let here : at' n ≡ true = f n ∙ rw y refl in
      let before : at n ≡ false = rw (← z) e in
      let same =
        count_same at at' n (λ j l. let d : (i == j) ≡ false = ground arith in f j ∙ rw d refl) in
      rw (here, before) (omega (arith, same))
  | inr d ↦
      let here : at' n ≡ at n = f n ∙ rw d refl in
      rw here (omega (arith, count_set at at' i n (ground arith) e f))
]

pub count_clear :
    (at at' : ℕ → Bool) (i n : ℕ)
    → i < n
    → at i ≡ true
    → ((j : ℕ) → at' j ≡ (if i == j then false else at j))
    → suc (count at' n) ≡ count at n
count_clear at at' i zero h e f = absurd (omega arith)
count_clear at at' i (suc n) h e f = elim (Bool-cases (i == n)) [
  | inl y ↦
      let z : i ≡ n = ground arith in
      let here : at' n ≡ false = f n ∙ rw y refl in
      let before : at n ≡ true = rw (← z) e in
      let same =
        count_same at at' n (λ j l. let d : (i == j) ≡ false = ground arith in f j ∙ rw d refl) in
      rw (here, before) (omega (arith, same))
  | inr d ↦
      let here : at' n ≡ at n = f n ∙ rw d refl in
      rw here (omega (arith, count_clear at at' i n (ground arith) e f))
]
