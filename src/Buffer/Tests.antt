-- ===== src/Buffer/Tests.antt =====
-- A file of pages whose bitmap has one byte, and two frames for the pages of all files.
use ob_htap.Prelude.{ℕ, ◌+◌, ◌≡◌, refl, [], ◌∷◌, true, false, some, arith, inr}
use ob_htap.Prelude.Int.{pos, ◌+ℤ◌, ◌-ℤ◌}
use ob_htap.Rc.{Rc}
use ob_htap.Record.Bitmap.{bit, get_bit, set_bit, clear_bit}
use ob_htap.Buffer.File.{
  HdrFrame, allocate, deallocate, free_loop, allocate_page, dispose_page, check_page_num,
  replay_all,
}
use ob_htap.Buffer.File.Valid.{IsValid}
use ob_htap.Buffer.File.Steps.{take, drop, perform, perform_all}
use ob_htap.Buffer.File.Recovery.{recover_header}
use ob_htap.Buffer.Frames.{FrameId, Frame, Manager, allocate_frame}
use ob_htap.Buffer.Frames.Allocate.{IsCoherent, IsGiven, some_unpinned, allocate_frame-IsGiven}

-- Page 0 of two is taken.
abbrev start : HdrFrame
start = record {
  lsn = 4;
  dirty = false;
  header = record { page_count = 2; allocated_pages = pos 1; bitmap = 1 ∷ [] };
}

-- Page 1 is taken, under the LSN 5.
abbrev on_disk : HdrFrame
on_disk = record {
  lsn = 5;
  dirty = true;
  header = record { page_count = 2; allocated_pages = pos 2; bitmap = 3 ∷ [] };
}

-- Page 1 is free again, under the LSN 7.
abbrev at_end : HdrFrame
at_end = record {
  lsn = 7;
  dirty = true;
  header = record { page_count = 2; allocated_pages = pos 1; bitmap = 1 ∷ [] };
}

bit_0 : get_bit (1 ∷ []) 0 ≡ true
unfolding get_bit bit
bit_0 = refl

bit_1 : get_bit (1 ∷ []) 1 ≡ false
unfolding get_bit bit
bit_1 = refl

start-IsValid : IsValid start.header
start-IsValid = record {
  fits = omega arith;
  are_bytes = omega arith;
  header_page = (omega arith, bit_0);
  counted = rw (bit_0, bit_1) refl;
}

taken : perform_all 8192 ((5, take) ∷ []) start ≡ some (on_disk, (5, allocate 1) ∷ [])
unfolding perform_all perform allocate_page free_loop get_bit set_bit bit ◌+ℤ◌
taken = refl

dropped : perform_all 8192 ((7, drop 1) ∷ []) on_disk ≡ some (at_end, (7, deallocate 1) ∷ [])
unfolding perform_all perform dispose_page check_page_num get_bit clear_bit bit ◌-ℤ◌
dropped = refl

recover_header_example :
    (g : HdrFrame) × (replay_all 8192 ((5, allocate 1) ∷ (7, deallocate 1) ∷ []) on_disk
      ≡ (Rc.success, g))
    × (g.header ≡ at_end.header)
    × (replay_all 8192 ((5, allocate 1) ∷ (7, deallocate 1) ∷ []) g ≡ (Rc.success, g))
recover_header_example =
    recover_header 8192 ((5, take) ∷ []) ((7, drop 1) ∷ []) start {disk = on_disk} {fn = at_end}
      {es₁ = (5, allocate 1) ∷ []} {es₂ = (7, deallocate 1) ∷ []} start-IsValid
      (omega arith, (omega arith, tt)) taken dropped

abbrev page_of : ℕ → FrameId
page_of k = record { buffer_pool_id = pos 1; page_num = pos k }

-- Both frames hold a page, and no frame is pinned.
abbrev both_held : Manager ℕ
both_held = record {
  frames = (page_of 5, 0) ∷ (page_of 6, 1) ∷ [];
  memory = λ i. record { dirty = false; pin_count = 0; frame_id = page_of (i + 5); page = 0 };
  frees = [];
  used = λ i. true;
}

both_held-IsCoherent : IsCoherent both_held
both_held-IsCoherent = record {
  distinct = ((refl, tt), (tt, tt));
  named = ((refl, refl), ((refl, refl), tt));
  unpinned = tt;
}

both_unpinned : some_unpinned both_held.frames both_held.memory ≡ true
unfolding some_unpinned
both_unpinned = refl

-- A purger that counts its calls.
abbrev counting : Frame ℕ → ℕ → Rc × Frame ℕ × ℕ
counting f w = (Rc.success, f, w + 1)

allocate_frame-IsGiven_example :
    (i : ℕ) × (w' : ℕ) × (m' : Manager ℕ) × (allocate_frame counting 2 (page_of 9) 0 both_held
      ≡ some (i, w', m'))
    × IsGiven (page_of 9) both_held i m'
allocate_frame-IsGiven_example =
    allocate_frame-IsGiven counting (page_of 9) 0 both_held both_held-IsCoherent (inr both_unpinned)
      (λ f. refl)
