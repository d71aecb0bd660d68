-- ===== src/Clog/Entry/Codec.antt =====
-- A header is read back from its bytes.
use ob_htap.Prelude.{
  ℕ, zero, suc, ◌/◌, ◌^◌, ◌≡◌, ◌<◌, refl, ap, List, [], ◌++◌, arith, length, take, drop,
  length-append, take-append, drop-append, append_assoc, append-nil, sym,
}
use ob_htap.Clog.Entry.{LogHeader, header_size, le_bytes, le_number, header_bytes, header_of}
use native.Mathlib.Nat.{pow-suc}

pub length-le_bytes : (k n : ℕ) → length (le_bytes k n) ≡ k
unfolding le_bytes
length-le_bytes zero n = refl
length-le_bytes (suc k) n = ap suc (length-le_bytes k (n / 256))

pub le_number-le_bytes : (k n : ℕ) → n < 256 ^ k → le_number (le_bytes k n) ≡ n
unfolding le_bytes le_number
le_number-le_bytes zero n h = omega (arith, h)
le_number-le_bytes (suc k) n h =
    omega (arith, le_number-le_bytes k (n / 256) (omega (arith, pow-suc 256 k)))

pub length-header_bytes : (h : LogHeader) → length (header_bytes h) ≡ header_size
unfolding header_bytes
length-header_bytes h = omega (
  arith,
  length-append (le_bytes 8 h.lsn) (le_bytes 4 h.size ++ le_bytes 4 h.module_id),
  length-append (le_bytes 4 h.size) (le_bytes 4 h.module_id),
  length-le_bytes 8 h.lsn,
  length-le_bytes 4 h.size,
  length-le_bytes 4 h.module_id,
)

-- The fields of a header that fit their types.
pub record IsHeader (h : LogHeader) : Type 0 where
  pub lsn_fits : h.lsn < 2 ^ 64
  pub size_fits : h.size < 2 ^ 32
  pub module_fits : h.module_id < 2 ^ 32

field_at :
    (k n : ℕ) (before after : List ℕ) (at : ℕ)
    → n < 256 ^ k
    → length before ≡ at
    → le_number (take k (drop at (before ++ (le_bytes k n ++ after)))) ≡ n
field_at k n before after at h e =
    rw (drop-append before (le_bytes k n ++ after) at (sym e)) (
      rw (take-append (le_bytes k n) after k (sym (length-le_bytes k n)))
        (le_number-le_bytes k n h))

-- What was written as a header is read back as that header.
pub header_of-header_bytes : (h : LogHeader) → IsHeader h → header_of (header_bytes h) ≡ h
unfolding header_of header_bytes
header_of-header_bytes h v = λ i. record {
  lsn = field_at 8 h.lsn [] (s ++ m) 0 v.lsn_fits refl i;
  size = field_at 4 h.size l m 8 v.size_fits (length-le_bytes 8 h.lsn) i;
  module_id = last i;
}
  where
    l : List ℕ
    l = le_bytes 8 h.lsn

    s : List ℕ
    s = le_bytes 4 h.size

    m : List ℕ
    m = le_bytes 4 h.module_id

    last : le_number (take 4 (drop 12 (l ++ (s ++ m)))) ≡ h.module_id
    last = rw (← append_assoc l s m) (
        rw (← append-nil m) (
          field_at 4 h.module_id (l ++ s) [] 12 v.module_fits
            (omega (arith, length-append l s, length-le_bytes 8 h.lsn, length-le_bytes 4 h.size))))
