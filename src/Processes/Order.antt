-- ===== src/Processes/Order.antt =====
-- The comparison of `get_top_processes` is a strict weak order, away from NaN: by CPU usage, and by memory
-- where that is equal.
use real_time_system_metrics.Base.{◌≡◌, ◌⊎◌, List, [], ◌∷◌, All, All-mono, true, false, arith}
use real_time_system_metrics.Double.{Double, IsIeee, IsNum}
use real_time_system_metrics.Processes.{ProcessMetrics, ranks_before}
use real_time_system_metrics.Processes.Sort.{IsWeakOrder, IsRanked}

-- Neither the usage nor the memory is NaN.
pub record IsComparable {W : Type 0} ⦃d : Double W⦄ (p : ProcessMetrics W) : Type 0 where
  pub cpu : IsNum p.cpu_percent
  pub memory : IsNum p.memory_mb

module _ {W : Type 0} ⦃d : Double W⦄ where
  -- A higher usage, or the same usage and more memory.
  abbrev pub Outranks : ProcessMetrics W → ProcessMetrics W → Type 0
  Outranks q p =
      (d.lt p.cpu_percent q.cpu_percent ≡ true)
      ⊎ ((d.eq q.cpu_percent p.cpu_percent ≡ true) × (d.lt p.memory_mb q.memory_mb ≡ true))

  -- Nobody outranks a process that stands before it.
  abbrev pub IsDescending : List (ProcessMetrics W) → Type 0
  IsDescending [] = Unit
  IsDescending (p ∷ ps) = All (λ q. ¬ Outranks q p) ps × IsDescending ps

module _ {W : Type 0} ⦃d : Double W⦄ (laws : IsIeee W) where
  open laws use {lt_irrefl, lt_trans, lt_total, eq_symm, eq_trans, lt_of_eq_left, lt_of_eq_right}

  not-lt_of_eq : (x y : W) → d.eq x y ≡ true → d.lt x y ≡ false
  not-lt_of_eq x y h = ground (arith, eq_symm x y, lt_of_eq_right x y x, lt_irrefl x)

  not-lt_of_lt : (x y : W) → d.lt x y ≡ true → d.lt y x ≡ false
  not-lt_of_lt x y h = ground (arith, lt_trans x y x, lt_irrefl x)

  -- "Not less" is transitive.
  not-lt_trans :
      (x y z : W)
      → IsNum x
      → IsNum y
      → IsNum z
      → d.lt y x ≡ false
      → d.lt z y ≡ false
      → d.lt z x ≡ false
  not-lt_trans x y z nx ny nz h k =
      ground (arith, lt_total y z ny nz, lt_of_eq_left y z x, lt_trans y z x)

  not-lt_of_not_before :
      (a b : ProcessMetrics W)
      → IsComparable a
      → IsComparable b
      → ranks_before b a ≡ false
      → d.lt a.cpu_percent b.cpu_percent ≡ false
  unfolding ranks_before
  not-lt_of_not_before a b pa pb h =
      ground (arith, not-lt_of_eq a.cpu_percent b.cpu_percent, eq_symm b.cpu_percent a.cpu_percent)

  ranks_before-asymm :
      (a b : ProcessMetrics W)
      → IsComparable a
      → IsComparable b
      → ranks_before a b ≡ true
      → ranks_before b a ≡ false
  unfolding ranks_before
  ranks_before-asymm a b pa pb h = ground (
    arith,
    eq_symm a.cpu_percent b.cpu_percent,
    eq_symm b.cpu_percent a.cpu_percent,
    not-lt_of_lt b.cpu_percent a.cpu_percent,
    not-lt_of_lt b.memory_mb a.memory_mb,
  )

  ranks_before-weak :
      (a b c : ProcessMetrics W)
      → IsComparable a
      → IsComparable b
      → IsComparable c
      → ranks_before b a ≡ false
      → ranks_before c b ≡ false
      → ranks_before c a ≡ false
  unfolding ranks_before
  ranks_before-weak a b c pa pb pc h k =
      let cpu =
        not-lt_trans c.cpu_percent b.cpu_percent a.cpu_percent pc.cpu pb.cpu pa.cpu
          (not-lt_of_not_before b c pb pc k) (not-lt_of_not_before a b pa pb h) in
      let ab = not-lt_of_not_before a b pa pb h in
      let bc = not-lt_of_not_before b c pb pc k in
      let memory = not-lt_trans c.memory_mb b.memory_mb a.memory_mb pc.memory pb.memory pa.memory in
      ground (
        arith,
        eq_trans c.cpu_percent a.cpu_percent b.cpu_percent,
        eq_symm b.cpu_percent a.cpu_percent,
        eq_symm c.cpu_percent b.cpu_percent,
        lt_total b.cpu_percent a.cpu_percent pb.cpu pa.cpu,
        eq_symm c.cpu_percent a.cpu_percent,
        lt_of_eq_right b.cpu_percent a.cpu_percent c.cpu_percent,
      )

  pub ranks_before-IsWeakOrder : IsWeakOrder (ranks_before {W = W}) IsComparable
  ranks_before-IsWeakOrder = record { asymm = ranks_before-asymm; weak = ranks_before-weak }

  pub not-Outranks : (q p : ProcessMetrics W) → ranks_before q p ≡ false → ¬ Outranks q p
  unfolding ranks_before
  not-Outranks q p h =
      ground
        (arith, lt_of_eq_right p.cpu_percent q.cpu_percent p.cpu_percent, lt_irrefl p.cpu_percent)

  pub IsRanked-IsDescending :
      (ps : List (ProcessMetrics W)) → IsRanked ranks_before ps → IsDescending ps
  IsRanked-IsDescending [] h = tt
  IsRanked-IsDescending (p ∷ ps) (h, hs) =
      (All-mono _ _ ps (λ q. not-Outranks q p) h, IsRanked-IsDescending ps hs)
