-- ===== src/Statistics/Ranges.antt =====
-- crates/app/src/consumer/stats/accumulator.rs: the classes of file sizes and of ages.
use terrasync_rs.Base.{
  ℕ, ◌*◌, ◌+◌, ◌-◌, ◌^◌, ◌%◌, ◌≤◌, ◌<◌, Bool, ltb, if◌then◌else◌, ◌≡◌, ◌↔◌, arith,
}

pub data FileSizeRange : Type 0 where
  less_than_4k between_4k_and_64k between_64k_and_128k between_128k_and_256k : FileSizeRange
  between_256k_and_512k between_512k_and_1m between_1m_and_2m between_2m_and_16m : FileSizeRange
  between_16m_and_64m between_64m_and_128m between_128m_and_512m over_512m : FileSizeRange

unfoldable pub calculate_file_size_range : ℕ → FileSizeRange
calculate_file_size_range s =
    if ltb s (4 * 1024)
    then less_than_4k
    else if ltb s (64 * 1024)
    then between_4k_and_64k
    else if ltb s (128 * 1024)
    then between_64k_and_128k
    else if ltb s (256 * 1024)
    then between_128k_and_256k
    else if ltb s (512 * 1024)
    then between_256k_and_512k
    else if ltb s (1024 * 1024)
    then between_512k_and_1m
    else if ltb s (2 * 1024 * 1024)
    then between_1m_and_2m
    else if ltb s (16 * 1024 * 1024)
    then between_2m_and_16m
    else if ltb s (64 * 1024 * 1024)
    then between_16m_and_64m
    else if ltb s (128 * 1024 * 1024)
    then between_64m_and_128m
    else if ltb s (512 * 1024 * 1024)
    then between_128m_and_512m
    else over_512m

-- The sizes that a class is named for: at least the first bound, and below the second if it has one.
abbrev pub Within : FileSizeRange → ℕ → Type 0
Within less_than_4k s = s < 4096
Within between_4k_and_64k s = (4096 ≤ s) × (s < 65536)
Within between_64k_and_128k s = (65536 ≤ s) × (s < 131072)
Within between_128k_and_256k s = (131072 ≤ s) × (s < 262144)
Within between_256k_and_512k s = (262144 ≤ s) × (s < 524288)
Within between_512k_and_1m s = (524288 ≤ s) × (s < 1048576)
Within between_1m_and_2m s = (1048576 ≤ s) × (s < 2097152)
Within between_2m_and_16m s = (2097152 ≤ s) × (s < 16777216)
Within between_16m_and_64m s = (16777216 ≤ s) × (s < 67108864)
Within between_64m_and_128m s = (67108864 ≤ s) × (s < 134217728)
Within between_128m_and_512m s = (134217728 ≤ s) × (s < 536870912)
Within over_512m s = 536870912 ≤ s

-- A size is put into a class exactly if it lies within the bounds that the class is named for.
pub calculate_file_size_range-Within :
    (s : ℕ) (r : FileSizeRange) → (calculate_file_size_range s ≡ r) ↔ Within r s
unfolding calculate_file_size_range
calculate_file_size_range-Within s less_than_4k = ground arith
calculate_file_size_range-Within s between_4k_and_64k = ground arith
calculate_file_size_range-Within s between_64k_and_128k = ground arith
calculate_file_size_range-Within s between_128k_and_256k = ground arith
calculate_file_size_range-Within s between_256k_and_512k = ground arith
calculate_file_size_range-Within s between_512k_and_1m = ground arith
calculate_file_size_range-Within s between_1m_and_2m = ground arith
calculate_file_size_range-Within s between_2m_and_16m = ground arith
calculate_file_size_range-Within s between_16m_and_64m = ground arith
calculate_file_size_range-Within s between_64m_and_128m = ground arith
calculate_file_size_range-Within s between_128m_and_512m = ground arith
calculate_file_size_range-Within s over_512m = ground arith

pub data TimeRange : Type 0 where
  within_day day_to_week week_to_month month_to_half_year half_year_to_year over_year : TimeRange

-- The nanoseconds from `mtime` to `now`, both the bit patterns of signed numbers, `now` of one that
-- is not negative; 0 for a time to come.
unfoldable pub time_diff : ℕ → ℕ → ℕ
time_diff now mtime =
    if ltb mtime (2 ^ 63)
    then (if ltb mtime now then now - mtime else 0)
    else (now + (2 ^ 64 - mtime)) % 2 ^ 64

-- The quotient by the nanoseconds of a day is a floating-point number, which `days_below` compares
-- with a number of days.
unfoldable pub calculate_time_range : (days_below : ℕ → ℕ → Bool) → ℕ → ℕ → TimeRange
unfolding time_diff
calculate_time_range days_below now mtime =
    if days_below (time_diff now mtime) 1
    then within_day
    else if days_below (time_diff now mtime) 7
    then day_to_week
    else if days_below (time_diff now mtime) 30
    then week_to_month
    else if days_below (time_diff now mtime) 180
    then month_to_half_year
    else if days_below (time_diff now mtime) 365
    then half_year_to_year
    else over_year

-- The derived equalities, by the constructors' positions.
unfoldable pub size_index : FileSizeRange → ℕ
size_index less_than_4k = 0
size_index between_4k_and_64k = 1
size_index between_64k_and_128k = 2
size_index between_128k_and_256k = 3
size_index between_256k_and_512k = 4
size_index between_512k_and_1m = 5
size_index between_1m_and_2m = 6
size_index between_2m_and_16m = 7
size_index between_16m_and_64m = 8
size_index between_64m_and_128m = 9
size_index between_128m_and_512m = 10
size_index over_512m = 11

unfoldable pub time_index : TimeRange → ℕ
time_index within_day = 0
time_index day_to_week = 1
time_index week_to_month = 2
time_index month_to_half_year = 3
time_index half_year_to_year = 4
time_index over_year = 5
