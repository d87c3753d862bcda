-- ===== src/CppStd/Map.antt =====
-- `std::unordered_map` as the list of its pairs: `find` and `map[key] = value`, by the equality of keys.
use real_time_system_metrics.Base.{
  ◌≡◌, ◌≢◌, ◌↔◌, refl, Bool, true, List, [], ◌∷◌, Option, none, some, if◌then◌else◌, All, arith,
  Bool-cases, inl, inr,
}

-- The test is equality.
abbrev pub Decides : {K : Type 0} → (K → K → Bool) → Type 0
Decides {K} same = (a b : K) → (same a b ≡ true) ↔ (a ≡ b)

-- No key stands twice.
abbrev pub IsMap : {K V : Type 0} → List (K × V) → Type 0
IsMap [] = Unit
IsMap ((k, v) ∷ m) = All (λ e. e.0 ≢ k) m × IsMap m

module _ {K V : Type 0} (same : K → K → Bool) where
  unfoldable pub find : K → List (K × V) → Option V
  find key [] = none
  find key ((k, v) ∷ m) = if same k key then some v else find key m

  unfoldable pub assign : K → V → List (K × V) → List (K × V)
  assign key value [] = (key, value) ∷ []
  assign key value ((k, v) ∷ m) = if same k key then (k, value) ∷ m else (k, v) ∷ assign key value m

  module _ (decides : Decides same) where
    -- What is found behind an assignment.
    pub find-assign :
        (k key : K) (value : V) (m : List (K × V))
        → find k (assign key value m) ≡ (if same key k then some value else find k m)
    unfolding find assign
    find-assign k key value [] = refl
    find-assign k key value ((j, v) ∷ m) =
        ground (arith, find-assign k key value m, decides j key, decides j k, decides key k)

    assign-All :
        (k key : K) (value : V) (m : List (K × V))
        → key ≢ k
        → All (λ e. e.0 ≢ k) m
        → All (λ e. e.0 ≢ k) (assign key value m)
    unfolding assign
    assign-All k key value [] n h = (n, tt)
    assign-All k key value ((j, v) ∷ m) n (p, h) = elim (Bool-cases (same j key)) [
      | inl e ↦ rw e (p, h)
      | inr e ↦ rw e (p, assign-All k key value m n h)
    ]

    -- An assignment keeps the keys distinct.
    pub assign-IsMap :
        (key : K) (value : V) (m : List (K × V)) → IsMap m → IsMap (assign key value m)
    unfolding assign
    assign-IsMap key value [] h = (tt, tt)
    assign-IsMap key value ((j, v) ∷ m) (p, h) = elim (Bool-cases (same j key)) [
      | inl e ↦ rw e (p, h)
      | inr e ↦
          rw e
            (assign-All j key value m (ground (arith, decides j key)) p, assign-IsMap key value m h)
    ]
