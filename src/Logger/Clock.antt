-- ===== src/Logger/Clock.antt =====
-- agent/src/structured_logger.cpp: `now_utc_iso8601`.
-- `gmtime_r` (`gmtime_s` on Windows) and `std::put_time` are outside: they are arguments.
use real_time_system_metrics.Base.{
  ℕ, ◌+◌, ◌/◌, ◌%◌, ◌<◌, ◌≡◌, ◌≢◌, ◌∙◌, List, [], ◌∷◌, ◌++◌, Bytes, bytes_lt, codes, arith, ℤ,
}

-- The fields of `std::tm` that the format names.
pub record Tm : Type 0 where
  pub tm_year : ℕ  -- since 1900
  pub tm_mon : ℕ  -- since January
  pub tm_mday : ℕ
  pub tm_hour : ℕ
  pub tm_min : ℕ
  pub tm_sec : ℕ

-- The text of the time that the clock shows.
unfoldable pub now_utc_iso8601 : (ℤ → Tm) → (Bytes → Tm → Bytes) → ℤ → Bytes
now_utc_iso8601 gmtime put_time current_time =
    let time_info = gmtime current_time in put_time (codes "%Y-%m-%dT%H:%M:%SZ") time_info

-- two digits
abbrev pub two : ℕ → Bytes
two n = (b'0' + n / 10) ∷ (b'0' + n % 10) ∷ []

-- A date of the years from 1900 to 9999, and a time with its leap second.
pub record IsDate (t : Tm) : Type 0 where
  pub year : t.tm_year + 1900 < 10_000
  pub month : t.tm_mon < 12
  pub day : t.tm_mday < 32
  pub hour : t.tm_hour < 24
  pub minute : t.tm_min < 60
  pub second : t.tm_sec < 61

-- What `std::put_time` is documented to write, piece by piece of its format.
pub record IsPutTime (put_time : Bytes → Tm → Bytes) : Type 0 where
  pub at_end : (t : Tm) → put_time [] t ≡ []
  pub plain : (c : ℕ) (f : Bytes) (t : Tm) → c ≢ b'%' → put_time (c ∷ f) t ≡ c ∷ put_time f t
  pub year :
      (f : Bytes) (t : Tm)
      → IsDate t
      → put_time (codes "%Y" ++ f) t
        ≡ two ((t.tm_year + 1900) / 100) ++ (two ((t.tm_year + 1900) % 100) ++ put_time f t)
  pub month :
      (f : Bytes) (t : Tm)
      → IsDate t
      → put_time (codes "%m" ++ f) t ≡ two (t.tm_mon + 1) ++ put_time f t
  pub day :
      (f : Bytes) (t : Tm) → IsDate t → put_time (codes "%d" ++ f) t ≡ two t.tm_mday ++ put_time f t
  pub hour :
      (f : Bytes) (t : Tm) → IsDate t → put_time (codes "%H" ++ f) t ≡ two t.tm_hour ++ put_time f t
  pub minute :
      (f : Bytes) (t : Tm) → IsDate t → put_time (codes "%M" ++ f) t ≡ two t.tm_min ++ put_time f t
  pub second :
      (f : Bytes) (t : Tm) → IsDate t → put_time (codes "%S" ++ f) t ≡ two t.tm_sec ++ put_time f t

-- From the year down to the second.
abbrev pub date : Tm → List ℕ
date t = (t.tm_year + 1900) ∷ (t.tm_mon + 1) ∷ t.tm_mday ∷ t.tm_hour ∷ t.tm_min ∷ t.tm_sec ∷ []

abbrev iso : Tm → Bytes
iso t =
    two ((t.tm_year + 1900) / 100)
    ++ (two ((t.tm_year + 1900) % 100)
        ++ b'-'
          ∷ (two (t.tm_mon + 1)
              ++ b'-'
                ∷ (two t.tm_mday
                    ++ b'T'
                      ∷ (two t.tm_hour
                          ++ b':' ∷ (two t.tm_min ++ b':' ∷ (two t.tm_sec ++ b'Z' ∷ []))))))

put_time-iso :
    (put_time : Bytes → Tm → Bytes) (t : Tm)
    → IsPutTime put_time
    → IsDate t
    → put_time (codes "%Y-%m-%dT%H:%M:%SZ") t ≡ iso t
put_time-iso put_time t p h = cc (
  p.year (codes "-%m-%dT%H:%M:%SZ") t h,
  p.plain b'-' (codes "%m-%dT%H:%M:%SZ") t (omega arith),
  p.month (codes "-%dT%H:%M:%SZ") t h,
  p.plain b'-' (codes "%dT%H:%M:%SZ") t (omega arith),
  p.day (codes "T%H:%M:%SZ") t h,
  p.plain b'T' (codes "%H:%M:%SZ") t (omega arith),
  p.hour (codes ":%M:%SZ") t h,
  p.plain b':' (codes "%M:%SZ") t (omega arith),
  p.minute (codes ":%SZ") t h,
  p.plain b':' (codes "%SZ") t (omega arith),
  p.second (codes "Z") t h,
  p.plain b'Z' [] t (omega arith),
  p.at_end t,
)

-- One field before others: the order of its digits is that of its values.
two_lt :
    (m n : ℕ) (s t s' t' : Bytes)
    → m < 100
    → n < 100
    → bytes_lt s t ≡ bytes_lt s' t'
    → bytes_lt (two m ++ s) (two n ++ t) ≡ bytes_lt (m ∷ s') (n ∷ t')
unfolding bytes_lt
two_lt m n s t s' t' hm hn e = ground (arith, e)

year_lt :
    (m n : ℕ) (s t s' t' : Bytes)
    → m < 10_000
    → n < 10_000
    → bytes_lt s t ≡ bytes_lt s' t'
    → bytes_lt (two (m / 100) ++ (two (m % 100) ++ s)) (two (n / 100) ++ (two (n % 100) ++ t))
      ≡ bytes_lt (m ∷ s') (n ∷ t')
unfolding bytes_lt
year_lt m n s t s' t' hm hn e =
    two_lt (m / 100) (n / 100) (two (m % 100) ++ s) (two (n % 100) ++ t) ((m % 100) ∷ s')
      ((n % 100) ∷ t') (omega (arith, hm)) (omega (arith, hn))
      (two_lt (m % 100) (n % 100) s t s' t' (omega arith) (omega arith) e)
    ∙ ground arith

same_lt : (c : ℕ) (s t : Bytes) → bytes_lt (c ∷ s) (c ∷ t) ≡ bytes_lt s t
unfolding bytes_lt
same_lt c s t = ground arith

-- A separator and a field behind it.
behind_lt :
    (c m n : ℕ) (s t s' t' : Bytes)
    → m < 100
    → n < 100
    → bytes_lt s t ≡ bytes_lt s' t'
    → bytes_lt (c ∷ (two m ++ s)) (c ∷ (two n ++ t)) ≡ bytes_lt (m ∷ s') (n ∷ t')
behind_lt c m n s t s' t' hm hn e =
    same_lt c (two m ++ s) (two n ++ t) ∙ two_lt m n s t s' t' hm hn e

iso_lt : (a b : Tm) → IsDate a → IsDate b → bytes_lt (iso a) (iso b) ≡ bytes_lt (date a) (date b)
iso_lt a b x y = year_lt _ _ _ _ _ _ x.year y.year (
    behind_lt b'-' _ _ _ _ _ _ (omega (arith, x.month)) (omega (arith, y.month)) (
      behind_lt b'-' _ _ _ _ _ _ (omega (arith, x.day)) (omega (arith, y.day)) (
        behind_lt b'T' _ _ _ _ _ _ (omega (arith, x.hour)) (omega (arith, y.hour)) (
          behind_lt b':' _ _ _ _ _ _ (omega (arith, x.minute)) (omega (arith, y.minute)) (
            behind_lt b':' a.tm_sec b.tm_sec (b'Z' ∷ []) (b'Z' ∷ []) [] [] (omega (arith, x.second))
              (omega (arith, y.second)) (same_lt b'Z' [] []))))))

-- The texts of two times are ordered, byte by byte, as their dates are, from the year down to the second,
-- if `std::put_time` works as documented and both are dates of the years from 1900 to 9999.
pub now_utc_iso8601_order :
    (gmtime : ℤ → Tm) (put_time : Bytes → Tm → Bytes) (now later : ℤ)
    → IsPutTime put_time
    → IsDate (gmtime now)
    → IsDate (gmtime later)
    → bytes_lt (now_utc_iso8601 gmtime put_time now) (now_utc_iso8601 gmtime put_time later)
      ≡ bytes_lt (date (gmtime now)) (date (gmtime later))
unfolding now_utc_iso8601
now_utc_iso8601_order gmtime put_time now later p x y =
    rw (put_time-iso put_time (gmtime now) p x, put_time-iso put_time (gmtime later) p y)
      (iso_lt (gmtime now) (gmtime later) x y)
