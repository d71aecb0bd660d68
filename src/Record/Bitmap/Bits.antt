-- ===== src/Record/Bitmap/Bits.antt =====
-- Setting and clearing one bit.
use Prim.Native.Nat.{bit_and, bit_or}
use ob_htap.Prelude.{
  ℕ, zero, suc, ◌-◌, ◌/◌, ◌%◌, ◌^◌, ◌<◌, ◌≡◌, ◌≢◌, refl, ap, List, [], ◌∷◌, Bool, true, false, ◌&&◌,
  if◌then◌else◌, ◌==◌, ltb, get_or, set, length, arith, All, Bool-cases, inl, inr, get_or-set_self,
  get_or-set_ne, length-set,
}
use ob_htap.Record.Bitmap.{bit, get_bit, set_bit, clear_bit, same_bit}

-- A test that all numbers below a bound pass.
each_below : (ℕ → Bool) → ℕ → Bool
each_below test zero = true
each_below test (suc bound) = let rest = each_below test bound in if test bound then rest else false

module _ (test : ℕ → Bool) where
  passes : {bound : ℕ} (k : ℕ) → k < bound → each_below test bound ≡ true → test k ≡ true
  unfolding each_below
  passes {bound = zero} k l t = absurd (omega arith)
  passes {bound = suc bound} k l t = elim (Bool-cases (k == bound)) [
    | inl same ↦ ground arith
    | inr other ↦ passes {bound = bound} k (ground arith) (ground arith)
  ]

-- A test of a byte and two places in it.
abbrev for_bytes : (ℕ → ℕ → ℕ → Bool) → Bool
for_bytes test = each_below (λ b. each_below (λ i. each_below (λ j. test b i j) 8) 8) 256

for_bytes_sound :
    (test : ℕ → ℕ → ℕ → Bool) (b i j : ℕ)
    → for_bytes test ≡ true
    → b < 256
    → i < 8
    → j < 8
    → test b i j ≡ true
for_bytes_sound test b i j t hb hi hj =
    let byte = passes (λ b. each_below (λ i. each_below (λ j. test b i j) 8) 8) b hb t in
    let place = passes (λ i. each_below (λ j. test b i j) 8) i hi byte in
    passes (λ j. test b i j) j hj place

same_bit-eq : (a b : Bool) → same_bit a b ≡ true → b ≡ a
same_bit-eq true b h = h
same_bit-eq false true h = cc
same_bit-eq false false h = refl

set_table :
    for_bytes (λ b i j. same_bit (if i == j then true else bit b j) (bit (bit_or b (2 ^ i)) j))
    ≡ true
unfolding each_below bit
set_table = refl

clear_table :
    for_bytes
      (λ b i j. same_bit (if i == j then false else bit b j) (bit (bit_and b (255 - 2 ^ i)) j))
    ≡ true
unfolding each_below bit
clear_table = refl

byte_table :
    for_bytes (λ b i j. ltb (bit_or b (2 ^ i)) 256 && ltb (bit_and b (255 - 2 ^ i)) 256) ≡ true
unfolding each_below
byte_table = refl

bit-or :
    (b i j : ℕ)
    → b < 256
    → i < 8
    → j < 8
    → bit (bit_or b (2 ^ i)) j ≡ (if i == j then true else bit b j)
bit-or b i j hb hi hj = same_bit-eq (if i == j then true else bit b j) (bit (bit_or b (2 ^ i)) j) (
    for_bytes_sound
      (λ b i j. same_bit (if i == j then true else bit b j) (bit (bit_or b (2 ^ i)) j)) b i j
      set_table hb hi hj)

bit-and :
    (b i j : ℕ)
    → b < 256
    → i < 8
    → j < 8
    → bit (bit_and b (255 - 2 ^ i)) j ≡ (if i == j then false else bit b j)
bit-and b i j hb hi hj =
    same_bit-eq (if i == j then false else bit b j) (bit (bit_and b (255 - 2 ^ i)) j) (
      for_bytes_sound
        (λ b i j. same_bit (if i == j then false else bit b j) (bit (bit_and b (255 - 2 ^ i)) j)) b
        i j clear_table hb hi hj)

still_byte :
    (b i : ℕ) → b < 256 → i < 8 → (bit_or b (2 ^ i) < 256) × (bit_and b (255 - 2 ^ i) < 256)
still_byte b i hb hi =
    let t : (ltb (bit_or b (2 ^ i)) 256 && ltb (bit_and b (255 - 2 ^ i)) 256) ≡ true =
      for_bytes_sound (λ b i j. ltb (bit_or b (2 ^ i)) 256 && ltb (bit_and b (255 - 2 ^ i)) 256) b i
        0 byte_table hb hi (omega arith) in
    ground arith

-- The numbers of a bitmap are bytes.
abbrev pub AreBytes : List ℕ → Type 0
AreBytes bitmap = All (λ b. b < 256) bitmap

get_or-AreBytes : (bitmap : List ℕ) (i : ℕ) → AreBytes bitmap → get_or bitmap i 0 < 256
get_or-AreBytes [] i h = omega arith
get_or-AreBytes (b ∷ bitmap) zero h = h.0
get_or-AreBytes (b ∷ bitmap) (suc i) h = get_or-AreBytes bitmap i h.1

set-AreBytes : (bitmap : List ℕ) (i b : ℕ) → AreBytes bitmap → b < 256 → AreBytes (set bitmap i b)
set-AreBytes [] i b h l = h
set-AreBytes (c ∷ bitmap) zero b h l = (l, h.1)
set-AreBytes (c ∷ bitmap) (suc i) b h l = (h.0, set-AreBytes bitmap i b h.1 l)

pub set_bit-AreBytes : (bitmap : List ℕ) (i : ℕ) → AreBytes bitmap → AreBytes (set_bit bitmap i)
unfolding set_bit
set_bit-AreBytes bitmap i h =
    set-AreBytes bitmap (i / 8) _ h
      (still_byte (get_or bitmap (i / 8) 0) (i % 8) (get_or-AreBytes bitmap (i / 8) h)
        (omega arith)).0

pub clear_bit-AreBytes : (bitmap : List ℕ) (i : ℕ) → AreBytes bitmap → AreBytes (clear_bit bitmap i)
unfolding clear_bit
clear_bit-AreBytes bitmap i h =
    set-AreBytes bitmap (i / 8) _ h
      (still_byte (get_or bitmap (i / 8) 0) (i % 8) (get_or-AreBytes bitmap (i / 8) h)
        (omega arith)).1

-- A write of one byte, seen bit by bit.
get_bit-set :
    (bitmap : List ℕ) (i j b : ℕ) (v : Bool)
    → i / 8 < length bitmap
    → ((k : ℕ) → k < 8 → bit b k ≡ (if i % 8 == k then v else bit (get_or bitmap (i / 8) 0) k))
    → get_bit (set bitmap (i / 8) b) j ≡ (if i == j then v else get_bit bitmap j)
unfolding get_bit
get_bit-set bitmap i j b v l f = elim (Bool-cases (i / 8 == j / 8)) [
  | inl y ↦
      let e : j / 8 ≡ i / 8 = ground arith in
      rw (e, get_or-set_self bitmap (i / 8) b 0 l, f (j % 8) (omega arith))
        (ap (λ t. if t then v else bit (get_or bitmap (i / 8) 0) (j % 8)) (same i j e))
  | inr n ↦
      let e : i / 8 ≢ j / 8 = ground arith in
      let d : (i == j) ≡ false = ground arith in
      rw (get_or-set_ne bitmap {i = i / 8} {j = j / 8} b 0 e, d) refl
]
  where
    same : (i j : ℕ) → j / 8 ≡ i / 8 → (i % 8 == j % 8) ≡ (i == j)
    same i j e = ground arith

-- Setting a bit sets that bit and no other.
pub get_bit-set_bit :
    (bitmap : List ℕ) (i j : ℕ)
    → AreBytes bitmap
    → i / 8 < length bitmap
    → get_bit (set_bit bitmap i) j ≡ (if i == j then true else get_bit bitmap j)
unfolding set_bit
get_bit-set_bit bitmap i j h l = get_bit-set bitmap i j _ true l (λ k m.
    bit-or (get_or bitmap (i / 8) 0) (i % 8) k (get_or-AreBytes bitmap (i / 8) h) (omega arith) m)

-- Clearing a bit clears that bit and no other.
pub get_bit-clear_bit :
    (bitmap : List ℕ) (i j : ℕ)
    → AreBytes bitmap
    → i / 8 < length bitmap
    → get_bit (clear_bit bitmap i) j ≡ (if i == j then false else get_bit bitmap j)
unfolding clear_bit
get_bit-clear_bit bitmap i j h l = get_bit-set bitmap i j _ false l (λ k m.
    bit-and (get_or bitmap (i / 8) 0) (i % 8) k (get_or-AreBytes bitmap (i / 8) h) (omega arith) m)

pub length-set_bit : (bitmap : List ℕ) (i : ℕ) → length (set_bit bitmap i) ≡ length bitmap
unfolding set_bit
length-set_bit bitmap i = length-set bitmap (i / 8) _

pub length-clear_bit : (bitmap : List ℕ) (i : ℕ) → length (clear_bit bitmap i) ≡ length bitmap
unfolding clear_bit
length-clear_bit bitmap i = length-set bitmap (i / 8) _
