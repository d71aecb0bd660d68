-- ===== src/Index/LowerBound.antt =====
-- deps/common/lang/lower_bound.h: binary search among sorted elements that differ from each other.
use ob_htap.Prelude.{
  ℕ, zero, suc, ◌+◌, ◌-◌, ◌/◌, ◌≡◌, ◌≤◌, ◌<◌, refl, Bool, true, false, Option, none, some, ltb,
  arith, Bool-cases, inl, inr, subst,
}
use ob_htap.Prelude.Int.{ℤ, pos, negsuc, eqb_ℤ, ltb_ℤ}

-- The loop of `lower_bound`. The comparison of the element at a place with the value is an argument;
-- places count from the first element. `none` is out of fuel.
unfoldable pub search : (ℕ → ℤ) → ℕ → ℕ → ℕ → Option (ℕ × Bool)
search comp zero first last_count = none
search comp (suc fuel) first last_count = elim (ltb 0 last_count) [
  | false ↦ some (first, false)
  | true ↦ elim (eqb_ℤ (comp (first + last_count / 2)) (pos 0)) [
    | true ↦ some (first + last_count / 2, true)
    | false ↦ elim (ltb_ℤ (comp (first + last_count / 2)) (pos 0)) [
      | true ↦ search comp fuel (suc (first + last_count / 2)) (last_count - (last_count / 2 + 1))
      | false ↦ search comp fuel first (last_count / 2)
    ]
  ]
]

-- `lower_bound` over `count` elements. Each round but the last looks at one element.
unfoldable pub lower_bound : (ℕ → ℤ) → ℕ → Option (ℕ × Bool)
lower_bound comp count = search comp (suc count) 0 count

not_less : (c : ℤ) → eqb_ℤ c (pos 0) ≡ false → ltb_ℤ c (pos 0) ≡ false → ltb_ℤ (pos 0) c ≡ true
not_less (pos n) e l = ground arith
not_less (negsuc n) e l = ground arith

less_not_above : (c : ℤ) → ltb_ℤ c (pos 0) ≡ true → ltb_ℤ (pos 0) c ≡ false
less_not_above (pos n) l = ground arith
less_not_above (negsuc n) l = ground arith

above_not_less : (c : ℤ) → ltb_ℤ (pos 0) c ≡ true → ltb_ℤ c (pos 0) ≡ false
above_not_less (pos n) l = ground arith
above_not_less (negsuc n) l = ground arith

equal_not_less :
    (c : ℤ) → eqb_ℤ c (pos 0) ≡ true → (ltb_ℤ c (pos 0) ≡ false) × (ltb_ℤ (pos 0) c ≡ false)
equal_not_less (pos n) e = ground arith
equal_not_less (negsuc n) e = ground arith

-- The elements are sorted, and no two are equal: before one that is not above the value all are below.
abbrev pub IsSearchable : (ℕ → ℤ) → ℕ → Type 0
IsSearchable comp count =
    (i j : ℕ) → i < j → j < count → ltb_ℤ (pos 0) (comp j) ≡ false → ltb_ℤ (comp i) (pos 0) ≡ true

-- A place in the range from `first` up to `last`, and whether the value is there.
pub record Bound (comp : ℕ → ℤ) (first last place : ℕ) (found : Bool) : Type 0 where
  pub from : first ≤ place
  pub upto : place ≤ last
  pub below : (i : ℕ) → first ≤ i → i < place → ltb_ℤ (comp i) (pos 0) ≡ true
  pub above : (i : ℕ) → place ≤ i → i < last → ltb_ℤ (comp i) (pos 0) ≡ false
  pub hit : found ≡ true → (place < last) × (eqb_ℤ (comp place) (pos 0) ≡ true)
  pub miss : found ≡ false → (i : ℕ) → place ≤ i → i < last → ltb_ℤ (pos 0) (comp i) ≡ true

module _ (comp : ℕ → ℤ) (count : ℕ) (s : IsSearchable comp count) where
  -- Behind an element that is not below the value, all are above.
  behind :
      (i j : ℕ) → i < j → j < count → ltb_ℤ (comp i) (pos 0) ≡ false → ltb_ℤ (pos 0) (comp j) ≡ true
  behind i j l h n = elim (Bool-cases (ltb_ℤ (pos 0) (comp j))) [
    | inl y ↦ y
    | inr f ↦ absurd (ground (arith, s i j l h f))
  ]

  found-Bound :
      (first last place : ℕ)
      → first ≤ place
      → place < last
      → last ≤ count
      → eqb_ℤ (comp place) (pos 0) ≡ true
      → Bound comp first last place true
  found-Bound first last place a b c e =
      let q = equal_not_less (comp place) e in
      record {
        from = a;
        upto = omega arith;
        below = λ i f l. s i place l (omega arith) q.1;
        above = λ i f l. elim (Bool-cases (ltb place i)) [
          | inl y ↦ above_not_less (comp i) (behind place i (ground arith) (omega arith) q.0)
          | inr n ↦ let z : i ≡ place = ground arith in rw z q.0
        ];
        hit = λ y. (b, e);
        miss = λ n. absurd (ground arith);
      }

  right-Bound :
      (first last place iter : ℕ) (found : Bool)
      → first ≤ iter
      → iter < count
      → ltb_ℤ (comp iter) (pos 0) ≡ true
      → Bound comp (suc iter) last place found
      → Bound comp first last place found
  right-Bound first last place iter found a h l b = record {
    from = omega (arith, b.from);
    upto = b.upto;
    below = λ i f g. elim (Bool-cases (ltb iter i)) [
      | inl y ↦ b.below i (ground arith) g
      | inr n ↦ elim (Bool-cases (ltb i iter)) [
        | inl y ↦ s i iter (ground arith) h (less_not_above (comp iter) l)
        | inr m ↦ let z : i ≡ iter = ground arith in rw z l
      ]
    ];
    above = b.above;
    hit = b.hit;
    miss = b.miss;
  }

  left-Bound :
      (first last place iter : ℕ) (found : Bool)
      → iter ≤ last
      → last ≤ count
      → eqb_ℤ (comp iter) (pos 0) ≡ false
      → ltb_ℤ (comp iter) (pos 0) ≡ false
      → Bound comp first iter place found
      → Bound comp first last place found
  left-Bound first last place iter found a h e l b =
      let beyond : (i : ℕ) → iter ≤ i → i < last → ltb_ℤ (pos 0) (comp i) ≡ true = λ i f g.
        elim (Bool-cases (ltb iter i)) [
          | inl y ↦ behind iter i (ground arith) (omega arith) l
          | inr n ↦ let z : i ≡ iter = ground arith in rw z (not_less (comp iter) e l)
        ] in
      record {
        from = b.from;
        upto = omega (arith, b.upto);
        below = b.below;
        above = λ i f g. elim (Bool-cases (ltb i iter)) [
          | inl y ↦ b.above i f (ground arith)
          | inr n ↦ above_not_less (comp i) (beyond i (ground arith) g)
        ];
        hit = λ y. (omega (arith, (b.hit y).0), (b.hit y).1);
        miss = λ n i f g. elim (Bool-cases (ltb i iter)) [
          | inl y ↦ b.miss n i f (ground arith)
          | inr m ↦ beyond i (ground arith) g
        ];
      }

  search-Bound :
      (fuel first last_count : ℕ)
      → last_count < fuel
      → first + last_count ≤ count
      → (place : ℕ) × (found : Bool) × (search comp fuel first last_count ≡ some (place, found))
        × Bound comp first (first + last_count) place found
  unfolding search
  search-Bound zero first last_count h k = absurd (omega arith)
  search-Bound (suc fuel) first last_count h k = elim (Bool-cases (ltb 0 last_count)) [
    | inr n ↦ (
      first,
      false,
      rw (n, search) refl,
      record {
        from = omega arith;
        upto = omega arith;
        below = λ i f g. absurd (omega arith);
        above = λ i f g. absurd (ground arith);
        hit = λ y. absurd (ground arith);
        miss = λ m i f g. absurd (ground arith);
      },
    )
    | inl y ↦
        let iter = first + last_count / 2 in
        let inside : iter < first + last_count = ground arith in
        elim (Bool-cases (eqb_ℤ (comp iter) (pos 0))) [
          | inl e ↦ (
            iter,
            true,
            rw (y, e, search) refl,
            found-Bound first (first + last_count) iter (omega arith) inside k e,
          )
          | inr n ↦ elim (Bool-cases (ltb_ℤ (comp iter) (pos 0))) [
            | inl l ↦
                let (place, found, e, b) =
                  search-Bound fuel (suc iter) (last_count - (last_count / 2 + 1)) (omega arith)
                    (ground arith) in
                let same : suc iter + (last_count - (last_count / 2 + 1)) ≡ first + last_count =
                  ground arith in
                (
                  place,
                  found,
                  rw (y, n, l, search) e,
                  right-Bound first (first + last_count) place iter found (omega arith)
                      (omega arith) l (rw (← same) b),
                )
            | inr m ↦
                let (place, found, e, b) =
                  search-Bound fuel first (last_count / 2) (ground arith) (omega arith) in
                (
                  place,
                  found,
                  rw (y, n, m, search) e,
                  left-Bound first (first + last_count) place iter found (omega arith) k n m b,
                )
          ]
        ]
  ]

-- Among sorted elements that differ from each other `lower_bound` finds the place: the elements
-- before it are below the value and none from there on is. It says that the value was found where
-- the element at the place is equal to it, and otherwise all from there on are above.
pub lower_bound-Bound :
    (comp : ℕ → ℤ) (count : ℕ)
    → IsSearchable comp count
    → (place : ℕ) × (found : Bool) × (lower_bound comp count ≡ some (place, found))
      × Bound comp 0 count place found
unfolding lower_bound
lower_bound-Bound comp count s =
    let (place, found, e, b) =
      search-Bound comp count s (suc count) 0 count (omega arith) (omega arith) in
    let z : 0 + count ≡ count = omega arith in
    (place, found, e, subst (λ n. Bound comp 0 n place found) z b)
