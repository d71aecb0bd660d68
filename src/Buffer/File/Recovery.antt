-- ===== src/Buffer/File/Recovery.antt =====
-- Replaying the log of the header page, from whatever state of it was on disk, and replaying it again.
use ob_htap.Prelude.{
  ℕ, ◌≤◌, ◌<◌, ◌≡◌, refl, ◌∙◌, subst, List, [], ◌∷◌, ◌++◌, some, arith, inl, inr, Option-cases, All,
  All-append, All-mono, append-nil, append_assoc,
}
use ob_htap.Rc.{Rc}
use ob_htap.Buffer.File.{HdrFrame, Entries, replay_all}
use ob_htap.Buffer.File.Valid.{IsValid}
use ob_htap.Buffer.File.Steps.{
  PageOp, perform, perform_all, AreRising, Seen, Passed, Step, StepTo, perform-Step, Step-IsValid,
  Step-bounded,
}
use ob_htap.Buffer.File.Replay.{
  Caught, Passed-Seen, Passed-weaken, Step-Caught, Seen-replay_all, replay_all-append, caught,
}

module _ (data_size : ℕ) where
  -- A run of operations under rising LSNs.
  data Run : HdrFrame → List (ℕ × PageOp) → HdrFrame → Entries → Type 0 where
    done : {f : HdrFrame} → Run f [] f []
    more :
        {f f' fn : HdrFrame} {lsn : ℕ} {op : PageOp} {ops : List (ℕ × PageOp)} {es es' : Entries}
        → IsValid f.header
        → f.lsn < lsn
        → Step data_size lsn f f' es
        → Run f' ops fn es'
        → Run f ((lsn, op) ∷ ops) fn (es ++ es')

  rising_weaken :
      {lo hi : ℕ} (ops : List (ℕ × PageOp)) → lo ≤ hi → AreRising hi ops → AreRising lo ops
  rising_weaken [] le r = tt
  rising_weaken ((lsn, op) ∷ ops) le (l, r) = (omega arith, r)

  perform_all-Run :
      (ops : List (ℕ × PageOp)) (f : HdrFrame) {fn : HdrFrame} {es : Entries}
      → IsValid f.header
      → AreRising f.lsn ops
      → perform_all data_size ops f ≡ some (fn, es)
      → Run f ops fn es
  unfolding perform_all
  perform_all-Run [] f {fn} {es} v r h =
      let a : fn ≡ f = ground arith in let b : es ≡ [] = ground arith in rw (a, b) done
  perform_all-Run ((lsn, op) ∷ ops) f {fn} {es} v (l, r) h =
      elim (Option-cases (perform data_size lsn op f)) [
        | inl n ↦ absurd (ground arith)
        | inr ((f', es₁), e) ↦ elim (Option-cases (perform_all data_size ops f')) [
          | inl n ↦ absurd (ground arith)
          | inr ((f'', es₂), e') ↦
              let step : Step data_size lsn f f' es₁ =
                subst (StepTo data_size lsn f) e (perform-Step data_size lsn op f v) in
              let bounds = Step-bounded data_size l step in
              let rest =
                perform_all-Run ops f' (Step-IsValid data_size v step)
                  (rising_weaken ops bounds.1 r) e' in
              let a : fn ≡ f'' = ground arith in
              let b : es ≡ es₁ ++ es₂ = ground arith in rw (a, b) (more v l step rest)
        ]
      ]

  -- A run takes the LSN up, and its entries are not above it.
  Run-bounded :
      {f fn : HdrFrame} {ops : List (ℕ × PageOp)} {es : Entries}
      → Run f ops fn es
      → (f.lsn ≤ fn.lsn) × All (Passed fn.lsn) es
  Run-bounded done = (omega arith, tt)
  Run-bounded {fn} (more {f'} {es} {es'} v l step r) =
      let (le, le', a) = Step-bounded data_size l step in
      let (up, b) = Run-bounded r in
      (
        omega arith,
        All-append (Passed fn.lsn) es es'
            (All-mono (Passed f'.lsn) (Passed fn.lsn) es (Passed-weaken data_size f'.lsn fn.lsn up)
              a)
            b,
      )

  Run-rising :
      {f fn : HdrFrame} {ops₁ : List (ℕ × PageOp)} {es : Entries} (ops₂ : List (ℕ × PageOp))
      → IsValid f.header
      → Run f ops₁ fn es
      → AreRising f.lsn (ops₁ ++ ops₂)
      → IsValid fn.header × AreRising fn.lsn ops₂
  Run-rising ops₂ v done a = (v, a)
  Run-rising {ops₁ = (lsn, op) ∷ ops} ops₂ v (more v' l step r) (l', a) =
      Run-rising ops₂ (Step-IsValid data_size v step) r
        (rising_weaken (ops ++ ops₂) (Step-bounded data_size l step).1 a)

  rising_prefix :
      (lo : ℕ) (ops₁ ops₂ : List (ℕ × PageOp)) → AreRising lo (ops₁ ++ ops₂) → AreRising lo ops₁
  rising_prefix lo [] ops₂ a = tt
  rising_prefix lo ((lsn, op) ∷ ops) ops₂ (l, a) = (l, rising_prefix lsn ops ops₂ a)

  Run-Caught :
      {f fn : HdrFrame} {ops : List (ℕ × PageOp)} {es : Entries} (past : Entries) (g : HdrFrame)
      → Run f ops fn es
      → Caught data_size f past g
      → (gn : HdrFrame) × (replay_all data_size es g ≡ (Rc.success, gn))
        × Caught data_size fn (past ++ es) gn
  unfolding replay_all
  Run-Caught past g done c = (g, refl, rw (append-nil past) c)
  Run-Caught {fn} past g (more {es} {es'} v l step r) c =
      let (g', h, c') = Step-Caught data_size v l step c in
      let (gn, h', cn) = Run-Caught (past ++ es) g' r c' in
      (
        gn,
        replay_all-append data_size es es' g h ∙ h',
        subst (λ p. Caught data_size fn p gn) (append_assoc past es es') cn,
      )

  Caught-header :
      {f g : HdrFrame} {past : Entries} → Caught data_size f past g → g.header ≡ f.header
  Caught-header (caught l d le a b) = refl

  Caught-Seen : {f g : HdrFrame} {past : Entries} → Caught data_size f past g → All (Seen g) past
  Caught-Seen (caught l d le a b) = a

-- The pages of a file are allocated and disposed of under rising LSNs, and its header page was written
-- to disk somewhere on the way. From what the disk has, the replay of the whole log succeeds and gives the
-- header that the run ended with; and a second replay of the whole log, after a crash, changes nothing.
pub recover_header :
    (data_size : ℕ) (ops₁ ops₂ : List (ℕ × PageOp)) (f : HdrFrame) {disk fn : HdrFrame}
    {es₁ es₂ : Entries}
    → IsValid f.header
    → AreRising f.lsn (ops₁ ++ ops₂)
    → perform_all data_size ops₁ f ≡ some (disk, es₁)
    → perform_all data_size ops₂ disk ≡ some (fn, es₂)
    → (g : HdrFrame) × (replay_all data_size (es₁ ++ es₂) disk ≡ (Rc.success, g))
      × (g.header ≡ fn.header)
      × (replay_all data_size (es₁ ++ es₂) g ≡ (Rc.success, g))
recover_header data_size ops₁ ops₂ f {disk} {fn} {es₁} {es₂} v a h₁ h₂ =
    let r₁ = perform_all-Run data_size ops₁ f v (rising_prefix data_size f.lsn ops₁ ops₂ a) h₁ in
    let (v', a') = Run-rising data_size ops₂ v r₁ a in
    let r₂ = perform_all-Run data_size ops₂ disk v' a' h₂ in
    let p = (Run-bounded data_size r₁).1 in
    let seen =
      All-mono (Passed disk.lsn) (Seen disk) es₁ (Passed-Seen data_size disk disk.lsn (omega arith))
        p in
    let start = caught disk.lsn disk.dirty (omega arith) seen p in
    let (g, h, c) = Run-Caught data_size es₁ disk r₂ start in
    (
      g,
      replay_all-append data_size es₁ es₂ disk (Seen-replay_all data_size es₁ disk seen) ∙ h,
      Caught-header data_size c,
      Seen-replay_all data_size (es₁ ++ es₂) g (Caught-Seen data_size c),
    )
