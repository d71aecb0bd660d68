-- ===== src/Index/Keys/Order.antt =====
-- Keys without floating-point fields are ordered by their comparison.
use ob_htap.Prelude.{
  ℕ, zero, suc, ◌+◌, ◌^◌, ◌≡◌, ◌<◌, refl, List, [], ◌∷◌, Bool, true, false, ltb, ◌==◌, arith, drop,
  Bool-cases, inl, inr, if◌then◌else◌, All,
}
use ob_htap.Prelude.Int.{ℤ, pos, negsuc, ltb_ℤ, eqb_ℤ}
use ob_htap.Index.Node.Sorted.{IsOrder}
use ob_htap.Index.Keys.{
  AttrType, ints, dates, floats, chars, Field, word_at, compare_int, strncmp, compare_string,
  minus32, compare_rid, total_attr_length, compare_key, compare_attrs, compare_keys,
}

-- Neither below nor above is both, and what is not above is so along a chain.
pub record IsPreorder (P : List ℕ → Type 0) (cmp : List ℕ → List ℕ → ℤ) : Type 0 where
  pub opposed : (a b : List ℕ) → P a → P b → ltb_ℤ (cmp a b) (pos 0) ≡ ltb_ℤ (pos 0) (cmp b a)
  pub chained :
      (a b c : List ℕ)
      → P a
      → P b
      → P c
      → ltb_ℤ (pos 0) (cmp a b) ≡ false
      → ltb_ℤ (pos 0) (cmp b c) ≡ false
      → ltb_ℤ (pos 0) (cmp a c) ≡ false

compare_int-opposed : (x y : ℤ) → ltb_ℤ (compare_int x y) (pos 0) ≡ ltb_ℤ (pos 0) (compare_int y x)
unfolding compare_int
compare_int-opposed x y = ground arith

compare_int-chained :
    (x y z : ℤ)
    → ltb_ℤ (pos 0) (compare_int x y) ≡ false
    → ltb_ℤ (pos 0) (compare_int y z) ≡ false
    → ltb_ℤ (pos 0) (compare_int x z) ≡ false
unfolding compare_int
compare_int-chained x y z h k = ground arith

strncmp-opposed :
    (n : ℕ) (s t : List ℕ) → ltb_ℤ (strncmp n s t) (pos 0) ≡ ltb_ℤ (pos 0) (strncmp n t s)
unfolding strncmp
strncmp-opposed zero s t = refl
strncmp-opposed (suc n) s t = ground (arith, strncmp-opposed n (drop 1 s) (drop 1 t))

strncmp-chained :
    (n : ℕ) (s t u : List ℕ)
    → ltb_ℤ (pos 0) (strncmp n s t) ≡ false
    → ltb_ℤ (pos 0) (strncmp n t u) ≡ false
    → ltb_ℤ (pos 0) (strncmp n s u) ≡ false
unfolding strncmp
strncmp-chained zero s t u h k = refl
strncmp-chained (suc n) s t u h k =
    ground (arith, strncmp-chained n (drop 1 s) (drop 1 t) (drop 1 u))

-- `compare_string` has the sign of `strncmp`.
compare_string_sign :
    (size : ℕ) (s t : List ℕ)
    → (ltb_ℤ (compare_string size s t) (pos 0) ≡ ltb_ℤ (strncmp size s t) (pos 0))
      × (ltb_ℤ (pos 0) (compare_string size s t) ≡ ltb_ℤ (pos 0) (strncmp size s t))
unfolding compare_string
compare_string_sign size s t = (ground arith, ground arith)

-- The sign of a difference of two numbers that are not negative.
minus32_sign :
    (a b : ℕ)
    → a < 2 ^ 31
    → b < 2 ^ 31
    → (ltb_ℤ (minus32 a b) (pos 0) ≡ ltb a b)
      × (ltb_ℤ (pos 0) (minus32 a b) ≡ ltb b a)
      × (eqb_ℤ (minus32 a b) (pos 0) ≡ (a == b))
unfolding minus32
minus32_sign a b h k = (ground arith, ground arith, ground arith)

-- The page and the slot behind the fields are not negative.
unfoldable pub IsKey : List Field → List ℕ → Type 0
IsKey fields key =
    (word_at (total_attr_length fields) key < 2 ^ 31)
    × (word_at (total_attr_length fields + 4) key < 2 ^ 31)

compare_rid-IsPreorder :
    (fields : List Field) → IsPreorder (IsKey fields) (compare_rid (total_attr_length fields))
unfolding compare_rid IsKey
compare_rid-IsPreorder fields =
    let page = λ (k : List ℕ). word_at (total_attr_length fields) k in
    let slot = λ (k : List ℕ). word_at (total_attr_length fields + 4) k in
    record {
      opposed = λ a b p q. ground (
        arith,
        minus32_sign (page a) (page b),
        minus32_sign (page b) (page a),
        minus32_sign (slot a) (slot b),
        minus32_sign (slot b) (slot a),
      );
      chained = λ a b c p q r h k. ground (
        arith,
        minus32_sign (page a) (page b),
        minus32_sign (page b) (page c),
        minus32_sign (page a) (page c),
        minus32_sign (slot a) (slot b),
        minus32_sign (slot b) (slot c),
        minus32_sign (slot a) (slot c),
      );
    }

-- Comparing by one order and then by another.
pub then_by : (List ℕ → List ℕ → ℤ) → (List ℕ → List ℕ → ℤ) → List ℕ → List ℕ → ℤ
then_by f g a b = if eqb_ℤ (f a b) (pos 0) then g a b else f a b

zero_sign : (c : ℤ) → eqb_ℤ c (pos 0) ≡ true → ltb_ℤ (pos 0) c ≡ false
zero_sign c h = ground arith

nonzero_sign : (c : ℤ) → eqb_ℤ c (pos 0) ≡ false → ltb_ℤ (pos 0) c ≡ false → ltb_ℤ c (pos 0) ≡ true
nonzero_sign (pos n) h k = ground arith
nonzero_sign (negsuc n) h k = ground arith

module _ {P : List ℕ → Type 0} {f g : List ℕ → List ℕ → ℤ} (u : IsPreorder P f)
    (v : IsPreorder P g) where
  -- What is equal both ways round.
  equal_back : (a b : List ℕ) → P a → P b → eqb_ℤ (f a b) (pos 0) ≡ eqb_ℤ (f b a) (pos 0)
  equal_back a b p q = ground (arith, u.opposed a b p q, u.opposed b a q p)

  then_by-opposed :
      (a b : List ℕ) → P a → P b → ltb_ℤ (then_by f g a b) (pos 0) ≡ ltb_ℤ (pos 0) (then_by f g b a)
  unfolding then_by
  then_by-opposed a b p q = ground (arith, equal_back a b p q, u.opposed a b p q, v.opposed a b p q)

  -- A chain that ends where it began, by the first order, is one of equals.
  equal_chain :
      (a b c : List ℕ)
      → P a
      → P b
      → P c
      → ltb_ℤ (pos 0) (f a b) ≡ false
      → ltb_ℤ (pos 0) (f b c) ≡ false
      → eqb_ℤ (f a c) (pos 0) ≡ true
      → (eqb_ℤ (f a b) (pos 0) ≡ true) × (eqb_ℤ (f b c) (pos 0) ≡ true)
  equal_chain a b c p q r h k e =
      let back : ltb_ℤ (pos 0) (f c a) ≡ false = ground (arith, equal_back a c p r) in
      let ba = u.chained b c a q r p k back in
      let cb = u.chained c a b r p q back h in
      (
        ground (arith, u.opposed a b p q, u.opposed b a q p),
        ground (arith, u.opposed b c q r, u.opposed c b r q),
      )

  then_by_first :
      (a b : List ℕ) → ltb_ℤ (pos 0) (then_by f g a b) ≡ false → ltb_ℤ (pos 0) (f a b) ≡ false
  unfolding then_by
  then_by_first a b h = ground arith

  then_by_second :
      (a b : List ℕ)
      → ltb_ℤ (pos 0) (then_by f g a b) ≡ false
      → eqb_ℤ (f a b) (pos 0) ≡ true
      → ltb_ℤ (pos 0) (g a b) ≡ false
  unfolding then_by
  then_by_second a b h e = ground arith

  then_by-chained :
      (a b c : List ℕ)
      → P a
      → P b
      → P c
      → ltb_ℤ (pos 0) (then_by f g a b) ≡ false
      → ltb_ℤ (pos 0) (then_by f g b c) ≡ false
      → ltb_ℤ (pos 0) (then_by f g a c) ≡ false
  unfolding then_by
  then_by-chained a b c p q r h k =
      let ab = then_by_first a b h in
      let bc = then_by_first b c k in
      let ac = u.chained a b c p q r ab bc in
      elim (Bool-cases (eqb_ℤ (f a c) (pos 0))) [
        | inr n ↦ rw n ac
        | inl e ↦
            let (x, y) = equal_chain a b c p q r ab bc e in
            rw e (v.chained a b c p q r (then_by_second a b h x) (then_by_second b c k y))
      ]

  pub then_by-IsPreorder : IsPreorder P (then_by f g)
  then_by-IsPreorder = record { opposed = then_by-opposed; chained = then_by-chained }

-- No field is a floating-point number.
abbrev pub is_exact : AttrType → Bool
is_exact floats = false
is_exact _ = true

abbrev pub AreExact : List Field → Type 0
AreExact fields = All (λ f. is_exact f.type ≡ true) fields

module _ (above below : List ℕ → List ℕ → Bool) (P : List ℕ → Type 0) where
  compare_key-IsPreorder :
      (type : AttrType) (size offset : ℕ)
      → is_exact type ≡ true
      → IsPreorder P (compare_key above below type size offset)
  unfolding compare_key
  compare_key-IsPreorder ints size offset h = record {
    opposed = λ a b _ _. compare_int-opposed _ _;
    chained = λ a b c _ _ _ x y. compare_int-chained _ _ _ x y;
  }
  compare_key-IsPreorder dates size offset h = record {
    opposed = λ a b _ _. compare_int-opposed _ _;
    chained = λ a b c _ _ _ x y. compare_int-chained _ _ _ x y;
  }
  compare_key-IsPreorder floats size offset h = absurd (ground arith)
  compare_key-IsPreorder chars size offset h =
      let sign = λ (a b : List ℕ). compare_string_sign size (drop offset a) (drop offset b) in
      record {
        opposed = λ a b _ _.
            ground
              (arith, sign a b, sign b a, strncmp-opposed size (drop offset a) (drop offset b));
        chained = λ a b c _ _ _ x y. ground (
          arith,
          sign a b,
          sign b c,
          sign a c,
          strncmp-chained size (drop offset a) (drop offset b) (drop offset c),
        );
      }

  compare_attrs-IsPreorder :
      (fields : List Field) (offset : ℕ)
      → AreExact fields
      → IsPreorder P (compare_attrs above below fields offset)
  unfolding compare_attrs then_by
  compare_attrs-IsPreorder [] offset h = record {
    opposed = λ a b _ _. refl;
    chained = λ a b c _ _ _ _ _. refl;
  }
  compare_attrs-IsPreorder (f ∷ fields) offset h =
      then_by-IsPreorder (compare_key-IsPreorder f.type f.size offset h.0)
        (compare_attrs-IsPreorder fields (offset + f.size) h.1)

pub compare_keys-IsPreorder :
    (above below : List ℕ → List ℕ → Bool) (fields : List Field)
    → AreExact fields
    → IsPreorder (IsKey fields) (compare_keys above below fields)
unfolding compare_keys then_by
compare_keys-IsPreorder above below fields h =
    then_by-IsPreorder (compare_attrs-IsPreorder above below (IsKey fields) fields 0 h)
      (compare_rid-IsPreorder fields)

-- What is below a key is below all that are not below that key.
pub IsPreorder-IsOrder :
    {P : List ℕ → Type 0} {cmp : List ℕ → List ℕ → ℤ} → IsPreorder P cmp → IsOrder cmp P
IsPreorder-IsOrder {P} {cmp} u a b c p q r h k = elim (Bool-cases (ltb_ℤ (cmp a c) (pos 0))) [
  | inl y ↦ y
  | inr n ↦
      let ca : ltb_ℤ (pos 0) (cmp c a) ≡ false = ground (arith, u.opposed a c p r) in
      absurd (ground (arith, u.chained b c a q r p k ca, u.opposed a b p q))
]
