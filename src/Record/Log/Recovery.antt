-- ===== src/Record/Log/Recovery.antt =====
-- Replaying the log of a page: from whatever state the page was written to disk in, the replay leads to
-- the state that it had when the log ended.
use ob_htap.Prelude.{
  ℕ, ◌≤◌, ◌<◌, ◌≡◌, refl, ◌∙◌, List, [], ◌∷◌, ◌++◌, true, some, leb, arith, Option-cases, inl, inr,
}
use ob_htap.Rc.{Rc}
use ob_htap.Record.Log.{RecordLog, Frame, Entries, replay, replay_all}
use ob_htap.Record.Log.Changes.{Change, perform, perform_all, Stepped, idle, once, perform-Stepped}

-- The LSNs rise from above `lo`.
abbrev pub AreRising : ℕ → List (ℕ × Change) → Type 0
AreRising lo [] = Unit {0}
AreRising lo ((lsn, c) ∷ cs) = (lo < lsn) × AreRising lsn cs

-- A run of changes under rising LSNs.
data Run : Frame → List (ℕ × Change) → Frame → Entries → Type 0 where
  done : {f : Frame} → Run f [] f []
  more :
      {f f' fn : Frame} {lsn : ℕ} {c : Change} {cs : List (ℕ × Change)} {es es' : Entries}
      → f.lsn < lsn
      → Stepped lsn f f' es
      → Run f' cs fn es'
      → Run f ((lsn, c) ∷ cs) fn (es ++ es')

rising_weaken : {lo hi : ℕ} (cs : List (ℕ × Change)) → lo ≤ hi → AreRising hi cs → AreRising lo cs
rising_weaken [] le r = r
rising_weaken ((lsn, c) ∷ cs) le (l, r) = (omega arith, r)

stepped_lsn :
    {lsn : ℕ} {f f' : Frame} {es : Entries} → f.lsn < lsn → Stepped lsn f f' es → f'.lsn ≤ lsn
stepped_lsn l idle = omega arith
stepped_lsn l (once e f' same h) = omega arith

perform_all-Run :
    (cs : List (ℕ × Change)) (f : Frame) {fn : Frame} {es : Entries}
    → AreRising f.lsn cs
    → perform_all cs f ≡ some (fn, es)
    → Run f cs fn es
unfolding perform_all
perform_all-Run [] f {fn} {es} r h =
    let a : fn ≡ f = ground arith in let b : es ≡ [] = ground arith in rw (a, b) done
perform_all-Run ((lsn, c) ∷ cs) f {fn} {es} (l, r) h = elim (Option-cases (perform lsn c f)) [
  | inl n ↦ absurd (ground arith)
  | inr ((f', es₁), e) ↦ elim (Option-cases (perform_all cs f')) [
    | inl n ↦ absurd (ground arith)
    | inr ((f'', es₂), e') ↦
        let step = perform-Stepped lsn f c l e in
        let rest = perform_all-Run cs f' (rising_weaken cs (stepped_lsn l step) r) e' in
        let a : fn ≡ f'' = ground arith in
        let b : es ≡ es₁ ++ es₂ = ground arith in rw (a, b) (more l step rest)
  ]
]

-- A run takes the LSN of the frame up, and no entry has a later one.
Run-bounded :
    {f fn : Frame} {cs : List (ℕ × Change)} {es : Entries} → Run f cs fn es → f.lsn ≤ fn.lsn
Run-bounded done = omega arith
Run-bounded (more l idle r) = Run-bounded r
Run-bounded (more l (once e f' same h) r) = omega (arith, Run-bounded r)

module _ (lsn : ℕ) (e : RecordLog) (es : Entries) (f : Frame) where
  replay_all_seen : lsn ≤ f.lsn → replay_all ((lsn, e) ∷ es) f ≡ replay_all es f
  unfolding replay_all replay
  replay_all_seen l =
      let seen : leb lsn f.lsn ≡ true = ground (arith, l) in rw (replay_all, replay, seen) refl

  replay_all_unseen :
      {f' : Frame}
      → replay lsn e f ≡ some (Rc.success, f')
      → replay_all ((lsn, e) ∷ es) f ≡ replay_all es f'
  unfolding replay_all
  replay_all_unseen h = rw (replay_all, h) refl

-- What a frame has seen is passed over.
Run-seen :
    {f fn : Frame} {cs : List (ℕ × Change)} {es : Entries} (r : Run f cs fn es) (g : Frame)
    (rest : Entries)
    → fn.lsn ≤ g.lsn
    → replay_all (es ++ rest) g ≡ replay_all rest g
unfolding replay_all replay
Run-seen done g rest l = refl
Run-seen (more l₁ idle r) g rest l = Run-seen r g rest l
Run-seen (more {lsn} {es'} l₁ (once e f' same h) r) g rest l =
    replay_all_seen lsn e (es' ++ rest) g (omega (arith, Run-bounded r)) ∙ Run-seen r g rest l

-- What it has not seen brings it to the end of the run.
Run-replayed :
    {f fn : Frame} {cs : List (ℕ × Change)} {es : Entries}
    → Run f cs fn es
    → replay_all es f ≡ some (Rc.success, fn)
unfolding replay_all
Run-replayed done = refl
Run-replayed (more l idle r) = Run-replayed r
Run-replayed {f} (more {lsn} {es'} l (once e f' same h) r) =
    replay_all_unseen lsn e es' f h ∙ Run-replayed r

Run-rising :
    {f fn : Frame} {cs₁ : List (ℕ × Change)} {es : Entries} (cs₂ : List (ℕ × Change))
    → Run f cs₁ fn es
    → AreRising f.lsn (cs₁ ++ cs₂)
    → AreRising fn.lsn cs₂
Run-rising cs₂ done a = a
Run-rising {cs₁ = (lsn, c) ∷ cs} cs₂ (more l step r) (l', a) =
    Run-rising cs₂ r (rising_weaken (cs ++ cs₂) (stepped_lsn l step) a)

rising_prefix :
    (lo : ℕ) (cs₁ : List (ℕ × Change)) (cs₂ : List (ℕ × Change))
    → AreRising lo (cs₁ ++ cs₂)
    → AreRising lo cs₁
rising_prefix lo [] cs₂ a = tt
rising_prefix lo ((lsn, c) ∷ cs) cs₂ (l, a) = (l, rising_prefix lsn cs cs₂ a)

-- A page changes under rising LSNs, and was written to disk somewhere on the way. From what the disk has,
-- the replay of the whole log succeeds and gives the page, with its LSN, that the run ended with.
pub recovery :
    (cs₁ cs₂ : List (ℕ × Change)) (f : Frame) {disk fn : Frame} {es₁ es₂ : Entries}
    → AreRising f.lsn (cs₁ ++ cs₂)
    → perform_all cs₁ f ≡ some (disk, es₁)
    → perform_all cs₂ disk ≡ some (fn, es₂)
    → replay_all (es₁ ++ es₂) disk ≡ some (Rc.success, fn)
recovery cs₁ cs₂ f {disk} {fn} {es₁} {es₂} a h₁ h₂ =
    let r₁ = perform_all-Run cs₁ f (rising_prefix f.lsn cs₁ cs₂ a) h₁ in
    let r₂ = perform_all-Run cs₂ disk (Run-rising cs₂ r₁ a) h₂ in
    Run-seen r₁ disk es₂ (omega arith) ∙ Run-replayed r₂
