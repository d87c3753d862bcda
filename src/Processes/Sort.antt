-- ===== src/Processes/Sort.antt =====
-- `std::sort` by a strict weak order: a permutation of the input in which nothing ranks before what
-- stands ahead of it.
use mathlib.Core.List.{Perm}
use mathlib.Core.List.Perm
use real_time_system_metrics.Base.{
  ◌≡◌, Bool, true, false, List, [], ◌∷◌, All, All-take, All-drop, All-each, All-zip, Bool-cases,
  inl, inr, if◌then◌else◌, take, drop, ℕ, zero, suc,
}

module _ {A : Type 0} (before : A → A → Bool) where
  unfoldable pub insert : A → List A → List A
  insert a [] = a ∷ []
  insert a (b ∷ l) = if before b a then b ∷ insert a l else a ∷ b ∷ l

  unfoldable pub sort : List A → List A
  unfolding insert
  sort [] = []
  sort (a ∷ l) = insert a (sort l)

  insert-perm : (a : A) (l : List A) → Perm (insert a l) (a ∷ l)
  unfolding insert
  insert-perm a [] = Perm.refl (a ∷ [])
  insert-perm a (b ∷ l) = elim (Bool-cases (before b a)) [
    | inl e ↦ rw e (Perm.trans (Perm.cons b (insert-perm a l)) (Perm.swap a b l))
    | inr e ↦ rw e (Perm.refl (a ∷ b ∷ l))
  ]

  pub sort-perm : (l : List A) → Perm (sort l) l
  unfolding sort
  sort-perm [] = Perm.refl []
  sort-perm (a ∷ l) = Perm.trans (insert-perm a (sort l)) (Perm.cons a (sort-perm l))

  module _ (P : A → Type 0) where
    insert-All : (a : A) (l : List A) → P a → All P l → All P (insert a l)
    unfolding insert
    insert-All a [] p ps = (p, tt)
    insert-All a (b ∷ l) p (q, ps) = elim (Bool-cases (before b a)) [
      | inl e ↦ rw e (q, insert-All a l p ps)
      | inr e ↦ rw e (p, (q, ps))
    ]

    pub sort-All : (l : List A) → All P l → All P (sort l)
    unfolding sort
    sort-All [] _ = tt
    sort-All (a ∷ l) (p, ps) = insert-All a (sort l) p (sort-All l ps)

  -- Nothing in the list ranks before `a`.
  abbrev pub IsAhead : A → List A → Type 0
  IsAhead a = All λ b. before b a ≡ false

  -- Nothing ranks before what stands ahead of it.
  abbrev pub IsRanked : List A → Type 0
  IsRanked [] = Unit
  IsRanked (a ∷ l) = IsAhead a l × IsRanked l

  -- A strict weak order, on the elements that satisfy `P`.
  pub record IsWeakOrder (P : A → Type 0) : Type 0 where
    pub asymm : (a b : A) → P a → P b → before a b ≡ true → before b a ≡ false
    pub weak :
        (a b c : A) → P a → P b → P c → before b a ≡ false → before c b ≡ false → before c a ≡ false

  module _ {P : A → Type 0} (order : IsWeakOrder P) where
    insert-IsAhead :
        (b a : A) (l : List A) → before a b ≡ false → IsAhead b l → IsAhead b (insert a l)
    unfolding insert
    insert-IsAhead b a [] h k = (h, tt)
    insert-IsAhead b a (c ∷ l) h (k, ks) = elim (Bool-cases (before c a)) [
      | inl e ↦ rw e (k, insert-IsAhead b a l h ks)
      | inr e ↦ rw e (h, (k, ks))
    ]

    IsAhead-trans :
        (a b : A) (l : List A)
        → P a
        → P b
        → All P l
        → before b a ≡ false
        → IsAhead b l
        → IsAhead a l
    IsAhead-trans a b [] pa pb ps h k = tt
    IsAhead-trans a b (c ∷ l) pa pb (pc, ps) h (k, ks) =
        (order.weak a b c pa pb pc h k, IsAhead-trans a b l pa pb ps h ks)

    insert-IsRanked : (a : A) (l : List A) → P a → All P l → IsRanked l → IsRanked (insert a l)
    unfolding insert
    insert-IsRanked a [] p ps r = (tt, tt)
    insert-IsRanked a (b ∷ l) p (q, ps) (h, r) = elim (Bool-cases (before b a)) [
      | inl e ↦ rw e (insert-IsAhead b a l (order.asymm b a q p e) h, insert-IsRanked a l p ps r)
      | inr e ↦ rw e ((e, IsAhead-trans a b l p q ps e h), (h, r))
    ]

    pub sort-IsRanked : (l : List A) → All P l → IsRanked (sort l)
    unfolding sort
    sort-IsRanked [] _ = tt
    sort-IsRanked (a ∷ l) (p, ps) =
        insert-IsRanked a (sort l) p (sort-All P l ps) (sort-IsRanked l ps)

  pub IsRanked-take : (n : ℕ) (l : List A) → IsRanked l → IsRanked (take n l)
  IsRanked-take zero l r = tt
  IsRanked-take (suc n) [] r = tt
  IsRanked-take (suc n) (a ∷ l) (h, r) = (All-take _ n l h, IsRanked-take n l r)

  pub All-ahead :
      (n : ℕ) (l : List A)
      → IsRanked l
      → All (λ b. All (λ a. before b a ≡ false) (take n l)) (drop n l)
  All-ahead zero l r = All-each _ l (λ a. tt)
  All-ahead (suc n) [] r = tt
  All-ahead (suc n) (a ∷ l) (h, r) =
      All-zip _ _ _ (drop n l) (λ b p q. (p, q)) (All-drop _ n l h) (All-ahead n l r)
