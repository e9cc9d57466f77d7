-- ===== src/Etl/Windows/Buckets.antt =====
-- The month buckets serve every window that is built.
use crime_prevention_and_per.Prelude.{ltb, ℕ, ◌≤◌, ◌≡◌, arith}
use crime_prevention_and_per.Etl.Windows.{
  Span, months, years, window_months, bucket, window_bucket_limit,
}

-- Months up to a year, or whole years.
abbrev pub IsBuilt : Span → Type 0
IsBuilt (months n) = n ≤ 12
IsBuilt (years n) = 1 ≤ n

-- A month that lies so many months back is in a window exactly if its bucket is below the window's
-- limit: to sum the buckets below the limit is to sum the window. Months are kept apart for a year,
-- and by the year after that, which no window cuts.
pub bucket-lt :
    (name : Span) (month_index : ℕ)
    → IsBuilt name
    → ltb (bucket month_index) (window_bucket_limit name) ≡ ltb month_index (window_months name)
unfolding bucket window_bucket_limit
bucket-lt (months n) k h = ground arith
bucket-lt (years n) k h = ground arith
