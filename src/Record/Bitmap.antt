-- ===== src/Record/Bitmap.antt =====
-- deps/common/lang/bitmap.cpp. A bitmap is the list of its bytes; a `char` is kept as its bit pattern,
-- so that -1 is 255. An answer of -1 is `none`.
pub mod Bits
pub mod Search
use Prim.Native.Nat.{bit_and, bit_or}
use ob_htap.Prelude.{
  ℕ, zero, suc, ◌+◌, ◌-◌, ◌*◌, ◌/◌, ◌%◌, ◌^◌, List, Bool, true, false, not, Option, none, some,
  if◌then◌else◌, leb, ◌==◌, get_or, set,
}

-- `byte & (1 << i)`, compared with 0
unfoldable pub bit : ℕ → ℕ → Bool
bit byte i = not (bit_and byte (2 ^ i) == 0)

abbrev pub same_bit : Bool → Bool → Bool
same_bit true b = b
same_bit false b = not b

-- The loop of `find_first_zero` (`wanted` is false) and of `find_first_setted` (true), with the rounds
-- that are left.
unfoldable pub find_loop : Bool → ℕ → ℕ → ℕ → Option ℕ
find_loop wanted byte i zero = none
find_loop wanted byte i (suc rounds) =
    let rest = find_loop wanted byte (suc i) rounds in
    if same_bit wanted (bit byte i) then some i else rest

abbrev pub find_first : Bool → ℕ → ℕ → Option ℕ
find_first wanted byte start = find_loop wanted byte start (8 - start)

-- The number of bytes for a number of bits.
unfoldable pub bytes : ℕ → ℕ
bytes size = if size % 8 == 0 then size / 8 else size / 8 + 1

unfoldable pub get_bit : List ℕ → ℕ → Bool
get_bit bitmap index = bit (get_or bitmap (index / 8) 0) (index % 8)

unfoldable pub set_bit : List ℕ → ℕ → List ℕ
set_bit bitmap index =
    set bitmap (index / 8) (bit_or (get_or bitmap (index / 8) 0) (2 ^ (index % 8)))

unfoldable pub clear_bit : List ℕ → ℕ → List ℕ
clear_bit bitmap index =
    set bitmap (index / 8) (bit_and (get_or bitmap (index / 8) 0) (255 - 2 ^ (index % 8)))

-- A byte in which the search need not look: all of its bits are the other ones.
abbrev pub skipped : Bool → ℕ
skipped true = 0
skipped false = 255

-- The loop of `next_unsetted_bit` and `next_setted_bit`, with the rounds that are left.
unfoldable pub next_loop : Bool → List ℕ → ℕ → ℕ → ℕ → Option ℕ
next_loop wanted bitmap iter start_in_byte zero = none
next_loop wanted bitmap iter start_in_byte (suc rounds) =
    let byte = get_or bitmap iter 0 in
    let rest = next_loop wanted bitmap (suc iter) 0 rounds in
    elim (if byte == skipped wanted then none else find_first wanted byte start_in_byte) [
      | none ↦ rest
      | some index_in_byte ↦ some (iter * 8 + index_in_byte)
    ]

unfoldable pub next_bit : Bool → ℕ → List ℕ → ℕ → Option ℕ
next_bit wanted size bitmap start =
    elim (next_loop wanted bitmap (start / 8) (start % 8) (bytes size - start / 8)) [
      | none ↦ none
      | some ret ↦ if leb size ret then none else some ret
    ]

-- `Bitmap::next_unsetted_bit` and `Bitmap::next_setted_bit`
abbrev pub next_unsetted_bit : ℕ → List ℕ → ℕ → Option ℕ
next_unsetted_bit = next_bit false

abbrev pub next_setted_bit : ℕ → List ℕ → ℕ → Option ℕ
next_setted_bit = next_bit true
