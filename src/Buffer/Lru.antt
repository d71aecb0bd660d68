-- ===== src/Buffer/Lru.antt =====
-- deps/common/lang/lru_cache.h. The linked list of the nodes is the list of their keys and values from
-- `lru_tail_`, the least recently used, to `lru_front_`; the hash set finds a node by its key.
use ob_htap.Prelude.{
  ◌≡◌, refl, sym, subst, ap, ◌∙◌, List, [], ◌∷◌, ◌++◌, Bool, true, false, Option, none, some,
  if◌then◌else◌, All, Bool-cases, inl, inr, arith,
}

module _ {K V : Type 0} (same : K → K → Bool) where
  -- `searcher_.find`
  unfoldable pub find : K → List (K × V) → Option V
  find key [] = none
  find key (e ∷ es) = let rest = find key es in if same key e.0 then some e.1 else rest

  -- `LruCache::remove`
  unfoldable pub remove : K → List (K × V) → List (K × V)
  remove key [] = []
  remove key (e ∷ es) = let rest = remove key es in if same key e.0 then es else e ∷ rest

  -- `LruCache::get`, with the node moved to the front
  unfoldable pub get : K → List (K × V) → Option V × List (K × V)
  get key cache = elim (find key cache) [
    | none ↦ (none, cache)
    | some v ↦ (some v, remove key cache ++ (key, v) ∷ [])
  ]

  -- `LruCache::put`
  unfoldable pub put : K → V → List (K × V) → List (K × V)
  put key v cache = elim (find key cache) [
    | none ↦ cache ++ (key, v) ∷ []
    | some old ↦ remove key cache ++ (key, v) ∷ []
  ]

  -- No key stands twice, and none is among these.
  abbrev pub IsNew : K → List (K × V) → Type 0
  IsNew key es = All (λ e. same key e.0 ≡ false) es

  abbrev pub AreDistinct : List (K × V) → Type 0
  AreDistinct [] = Unit {0}
  AreDistinct (e ∷ es) = IsNew e.0 es × AreDistinct es

  pub find_new : (key : K) (es : List (K × V)) → IsNew key es → find key es ≡ none
  unfolding find
  find_new key [] h = refl
  find_new key (e ∷ es) (h, hs) = rw (find, h) (find_new key es hs)

  pub find-append_new :
      (key : K) (es fs : List (K × V)) → IsNew key es → find key (es ++ fs) ≡ find key fs
  unfolding find
  find-append_new key [] fs h = refl
  find-append_new key (e ∷ es) fs (h, hs) = rw (find, h) (find-append_new key es fs hs)

  pub remove-append_new :
      (key : K) (es fs : List (K × V)) → IsNew key es → remove key (es ++ fs) ≡ es ++ remove key fs
  unfolding remove
  remove-append_new key [] fs h = refl
  remove-append_new key (e ∷ es) fs (h, hs) =
      rw (remove, h) (ap (◌∷◌ e) (remove-append_new key es fs hs))

  pub IsNew-remove : (key k : K) (es : List (K × V)) → IsNew key es → IsNew key (remove k es)
  unfolding remove
  IsNew-remove key k [] h = tt
  IsNew-remove key k (e ∷ es) (h, hs) = elim (Bool-cases (same k e.0)) [
    | inl y ↦ rw (remove, y) hs
    | inr n ↦ rw (remove, n) (h, IsNew-remove key k es hs)
  ]

  pub AreDistinct-remove : (k : K) (es : List (K × V)) → AreDistinct es → AreDistinct (remove k es)
  unfolding remove
  AreDistinct-remove k [] h = tt
  AreDistinct-remove k (e ∷ es) (h, hs) = elim (Bool-cases (same k e.0)) [
    | inl y ↦ rw (remove, y) hs
    | inr n ↦ rw (remove, n) (IsNew-remove e.0 k es h, AreDistinct-remove k es hs)
  ]

  pub find-append_none :
      (key : K) (es fs : List (K × V)) → find key es ≡ none → find key (es ++ fs) ≡ find key fs
  unfolding find
  find-append_none key [] fs h = refl
  find-append_none key (e ∷ es) fs h = elim (Bool-cases (same key e.0)) [
    | inl y ↦ absurd (ground arith)
    | inr n ↦ rw (find, n) (find-append_none key es fs (rw n at h))
  ]

  pub find-without :
      (key : K) (es : List (K × V)) (e : K × V) (fs : List (K × V))
      → find key (es ++ e ∷ fs) ≡ none
      → find key (es ++ fs) ≡ none
  unfolding find
  find-without key [] e fs h = elim (Bool-cases (same key e.0)) [
    | inl y ↦ absurd (ground arith)
    | inr n ↦ rw n at h
  ]
  find-without key (x ∷ es) e fs h = elim (Bool-cases (same key x.0)) [
    | inl y ↦ absurd (ground arith)
    | inr n ↦ rw (find, n) (find-without key es e fs (rw n at h))
  ]

  -- A key that is removed is gone, where equal keys are the same.
  pub IsNew_removed :
      ((a b : K) → same a b ≡ true → a ≡ b)
      → (key : K) (es : List (K × V)) → AreDistinct es
      → IsNew key (remove key es)
  unfolding remove
  IsNew_removed same_eq key [] d = tt
  IsNew_removed same_eq key (e ∷ es) (h, d) = elim (Bool-cases (same key e.0)) [
    | inl y ↦ rw (remove, y) (subst (λ k. IsNew k es) (sym (same_eq key e.0 y)) h)
    | inr n ↦ rw (remove, n) (n, IsNew_removed same_eq key es d)
  ]

  module _ (same_sym : (a b : K) → same a b ≡ same b a) where
    -- The keys before an entry are others.
    pub AreDistinct-before :
        (es : List (K × V)) (e : K × V) (fs : List (K × V))
        → AreDistinct (es ++ e ∷ fs)
        → IsNew e.0 es
    AreDistinct-before [] e fs d = tt
    AreDistinct-before (x ∷ es) e fs (h, d) =
        (same_sym e.0 x.0 ∙ at_entry es e fs h, AreDistinct-before es e fs d)
      where
        at_entry :
            {key : K} (es : List (K × V)) (e : K × V) (fs : List (K × V))
            → IsNew key (es ++ e ∷ fs)
            → same key e.0 ≡ false
        at_entry [] e fs h = h.0
        at_entry (y ∷ es) e fs h = at_entry es e fs h.1
