-- ===== src/MedianTime.antt =====
-- mediantime.go: the offset of the network's time to the local clock, from samples of peers. Source
-- names are compared for equality only, so a number stands for each. The mutex makes each method
-- one step.
pub mod Offsets
use btcchain.Common.{
  ℕ, suc, ◌+◌, ◌-◌, ◌*◌, ◌/◌, ◌%◌, ◌^◌, Option, none, some, List, [], ◌∷◌, ◌++◌, Bool, true, false,
  ◌||◌, ◌&&◌, not, ◌==◌, ltb, if◌then◌else◌, length, drop, any, get_elem?, Result, ok, or_panic,
  ◌>>=◌,
}
use btcchain.Common.Int.{
  ℤ, pos, negsuc, pos_part, neg_part, ltb_ℤ, leb_ℤ, ◌+ℤ◌, ◌-ℤ◌, ◌*ℤ◌, int64, quot,
}
use btcchain.Common.Sort.{sort}
use btcchain.Wire.{nano}

abbrev pub max_allowed_offset_secs : ℕ
max_allowed_offset_secs = 70 * 60

-- The source's initial maxMedianTimeEntries, a variable that its tests change.
abbrev pub default_max_entries : ℕ
default_max_entries = 200

pub record MedianTime : Type 0 where
  pub known_ids : List ℕ
  pub offsets : List ℤ
  pub offset_secs : ℤ
  pub invalid_time_checked : Bool

abbrev pub new_median_time : MedianTime
new_median_time = record {
  known_ids = [];
  offsets = [];
  offset_secs = pos 0;
  invalid_time_checked = false;
}

-- `t.Sub(u)` of package time: the difference in nanoseconds, or the nearest int64.
abbrev pub sub_time : ℤ → ℤ → ℤ
sub_time t u =
    let d = t -ℤ u in
    if ltb_ℤ (pos (2 ^ 63 - 1)) d
    then pos (2 ^ 63 - 1)
    else if ltb_ℤ d (negsuc (2 ^ 63 - 1))
    then negsuc (2 ^ 63 - 1)
    else d

-- `math.Abs(float64(a)) < bound`, for bounds that a float64 holds exactly.
abbrev pub abs_below : ℤ → ℕ → Bool
abs_below a bound = ltb (pos_part a + neg_part a) bound

-- The offset is only set for an odd number of samples, five at least.
unfoldable pub update_offset : List ℤ → MedianTime → Result MedianTime
update_offset sorted m =
    let n = length sorted in
    if ltb n 5 || not (n % 2 == 1)
    then ok m
    else or_panic (get_elem? sorted (n / 2)) >>= λ median. ok (
        if abs_below median max_allowed_offset_secs
        then record m { offset_secs = median }
        else record m { offset_secs = pos 0; invalid_time_checked = true })

-- The samples with the new one: at the limit the oldest makes room.
unfoldable pub push_offset : ℕ → ℤ → List ℤ → List ℤ
push_offset max_entries offset offsets =
    (if (length offsets == max_entries) && ltb 0 max_entries then drop 1 offsets else offsets)
    ++ (offset ∷ [])

-- AddTimeSample, with the clock in whole seconds, as the source cuts it, and the sample's time in
-- nanoseconds.
unfoldable pub add_time_sample : ℕ → ℕ → ℕ → ℤ → MedianTime → Result MedianTime
add_time_sample max_entries now source_id time_val m =
    if any (λ i. i == source_id) m.known_ids
    then ok m
    else let offset = quot (sub_time (pos (now * nano)) time_val) (pos nano) in
      let offsets = push_offset max_entries offset m.offsets in
      update_offset (sort leb_ℤ offsets)
        (record m { known_ids = source_id ∷ m.known_ids; offsets = offsets })

-- Offset: nanoseconds in an int64.
unfoldable pub offset : MedianTime → ℤ
offset m = int64 (m.offset_secs *ℤ pos nano)

-- AdjustedTime, with the clock in whole seconds.
unfoldable pub adjusted_time : ℕ → MedianTime → ℤ
adjusted_time now m = pos (now * nano) +ℤ offset m
