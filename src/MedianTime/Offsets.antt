-- ===== src/MedianTime/Offsets.antt =====
-- The offset: bounded, a median of the samples, and fixed once the samples are as many as allowed.
use btcchain.Common.{
  ℕ, suc, ◌*◌, ◌/◌, ◌%◌, ◌≤◌, ◌<◌, ◌≡◌, refl, sym, ◌∙◌, ap, arith, inl, inr, true, false, ◌||◌, not,
  ◌==◌, ltb, Bool-cases, if◌then◌else◌, if_true, if_false, List, [], ◌∷◌, length, length-append,
  any, ==_refl, ok, or_panic, ok_inj, >>=-ok_then, get_elem?, subst,
}
use btcchain.Common.Int.{ℤ, pos, leb_ℤ, quot}
use btcchain.Wire.{nano}
use btcchain.Common.Sort.{sort, count, IsTotalOrder, sort-get_elem?, length-sort}
use btcchain.MedianTime.{
  MedianTime, abs_below, max_allowed_offset_secs, update_offset, push_offset, add_time_sample,
  sub_time,
}

-- At least half of the list is at most m, and at least half of it is at least m.
abbrev pub IsMedian : ℤ → List ℤ → Type 0
IsMedian m l = (length l ≤ 2 * count (λ y. leb_ℤ y m) l) × (length l ≤ 2 * count (leb_ℤ m) l)

abbrev pub IsValid : ℕ → MedianTime → Type 0
IsValid max_entries m =
    (length m.offsets ≤ max_entries)
    × (abs_below m.offset_secs max_allowed_offset_secs ≡ true)
    × (length m.offsets ≤ length m.known_ids)

leb_ℤ-IsTotalOrder : IsTotalOrder leb_ℤ
leb_ℤ-IsTotalOrder = record { total = λ a b h. ground arith; trans = λ a b c h k. ground arith }

-- The two outcomes of the update.
update_offset-cases :
    (l : List ℤ) (m : MedianTime)
    → (ltb (length l) 5 || not (length l % 2 == 1)) ≡ false
    → (median : ℤ) × IsMedian median l
      × (update_offset (sort leb_ℤ l) m
          ≡ ok (
              if abs_below median max_allowed_offset_secs
              then record m { offset_secs = median }
              else record m { offset_secs = pos 0; invalid_time_checked = true }))
unfolding update_offset
update_offset-cases l m enough =
    let (median, e, low, high) =
      sort-get_elem? leb_ℤ leb_ℤ-IsTotalOrder l (length l / 2) (ground arith) in
    (median, ground arith, rw (length-sort leb_ℤ l, enough, e) refl)

length-push_offset :
    (max_entries : ℕ) (offset : ℤ) (l : List ℤ)
    → 0 < max_entries
    → length (push_offset max_entries offset l)
      ≡ (if length l == max_entries then max_entries else suc (length l))
unfolding push_offset
length-push_offset max_entries offset [] k = ground arith
length-push_offset max_entries offset (x ∷ l) k =
    elim (Bool-cases (suc (length l) == max_entries)) [
      | inl e ↦ rw (e) (ground (arith, length-append l (offset ∷ [])))
      | inr e ↦ rw (e) (ground (arith, length-append (x ∷ l) (offset ∷ [])))
    ]

-- AddTimeSample for a source that is not known.
add_new :
    (max_entries now source_id : ℕ) (time_val : ℤ) (m : MedianTime)
    → any (λ i. i == source_id) m.known_ids ≡ false
    → (offset : ℤ) × (add_time_sample max_entries now source_id time_val m ≡ (
        let offsets = push_offset max_entries offset m.offsets in
        update_offset
          (sort leb_ℤ offsets)
          (record m { known_ids = source_id ∷ m.known_ids; offsets = offsets })))
unfolding add_time_sample
add_new max_entries now source_id time_val m fresh =
    (quot (sub_time (pos (now * nano)) time_val) (pos nano), if_false _ _ fresh)

-- A step of the update keeps the bound on the offset, and nothing else matters to IsValid.
update_offset-IsValid :
    (max_entries : ℕ) (m : MedianTime)
    → IsValid max_entries m
    → (m' : MedianTime) × (update_offset (sort leb_ℤ m.offsets) m ≡ ok m') × IsValid max_entries m'
unfolding update_offset
update_offset-IsValid max_entries m (len, small, known) =
    elim (Bool-cases (ltb (length m.offsets) 5 || not (length m.offsets % 2 == 1))) [
      | inl e ↦ (m, rw (length-sort leb_ℤ m.offsets, e) refl, (len, small, known))
      | inr e ↦
          let (median, at, done) = update_offset-cases m.offsets m e in
          let new : MedianTime = record m { offset_secs = median } in
          let reset : MedianTime = record m { offset_secs = pos 0; invalid_time_checked = true } in
          elim (Bool-cases (abs_below median max_allowed_offset_secs)) [
            | inl ok_median ↦ (
              new,
              done ∙ ap (λ b. ok (if b then new else reset)) ok_median,
              (len, ok_median, known),
            )
            | inr bad ↦
                (reset, done ∙ ap (λ b. ok (if b then new else reset)) bad, (len, refl, known))
          ]
    ]

-- For a positive limit, AddTimeSample never panics, and keeps the samples within the limit and the
-- offset below 70 minutes, with a known source for each sample.
pub add_time_sample-IsValid :
    (max_entries now source_id : ℕ) (time_val : ℤ) (m : MedianTime)
    → 0 < max_entries
    → IsValid max_entries m
    → (m' : MedianTime) × (add_time_sample max_entries now source_id time_val m ≡ ok m')
      × IsValid max_entries m'
unfolding add_time_sample
add_time_sample-IsValid max_entries now source_id time_val m positive (len, small, known) =
    elim (Bool-cases (any (λ i. i == source_id) m.known_ids)) [
      | inl old ↦ (m, if_true _ _ old, (len, small, known))
      | inr fresh ↦
          let (offset, added) = add_new max_entries now source_id time_val m fresh in
          let offsets = push_offset max_entries offset m.offsets in
          let grown = length-push_offset max_entries offset m.offsets positive in
          let next : MedianTime = record m {
            known_ids = source_id ∷ m.known_ids;
            offsets = offsets;
          } in
          let (m', done, valid) =
            update_offset-IsValid max_entries next (ground arith, small, ground arith) in
          (m', added ∙ done, valid)
    ]

-- A sample from a new source that makes the samples an odd number, five at least, sets the offset to
-- a median of the samples, or to zero where that median is 70 minutes or more away.
pub add_time_sample-IsMedian :
    (max_entries now source_id : ℕ) (time_val : ℤ) (m : MedianTime)
    → any (λ i. i == source_id) m.known_ids ≡ false
    → length m.offsets < max_entries
    → 4 ≤ length m.offsets
    → length m.offsets % 2 ≡ 0
    → (m' : MedianTime) × (median : ℤ) × (add_time_sample max_entries now source_id time_val m
        ≡ ok m')
      × (length m'.offsets ≡ suc (length m.offsets))
      × IsMedian median m'.offsets
      × (m'.offset_secs ≡ (if abs_below median max_allowed_offset_secs then median else pos 0))
add_time_sample-IsMedian max_entries now source_id time_val m fresh room enough even =
    let (offset, added) = add_new max_entries now source_id time_val m fresh in
    let offsets = push_offset max_entries offset m.offsets in
    let grown : length offsets ≡ suc (length m.offsets) =
      ground (arith, length-push_offset max_entries offset m.offsets) in
    let next : MedianTime = record m { known_ids = source_id ∷ m.known_ids; offsets = offsets } in
    let (median, at, done) = update_offset-cases offsets next (ground arith) in
    let new : MedianTime = record next { offset_secs = median } in
    let reset : MedianTime = record next { offset_secs = pos 0; invalid_time_checked = true } in
    elim (Bool-cases (abs_below median max_allowed_offset_secs)) [
      | inl e ↦ (
        new,
        median,
        added ∙ done ∙ ap (λ b. ok (if b then new else reset)) e,
        grown,
        at,
        rw (e) refl,
      )
      | inr e ↦ (
        reset,
        median,
        added ∙ done ∙ ap (λ b. ok (if b then new else reset)) e,
        grown,
        at,
        rw (e) refl,
      )
    ]

-- Once the samples are as many as an even positive limit allows, the offset never changes again.
pub add_time_sample-frozen :
    (max_entries now source_id : ℕ) (time_val : ℤ) (m : MedianTime)
    → 0 < max_entries
    → max_entries % 2 ≡ 0
    → length m.offsets ≡ max_entries
    → (m' : MedianTime) × (add_time_sample max_entries now source_id time_val m ≡ ok m')
      × (m'.offset_secs ≡ m.offset_secs)
      × (length m'.offsets ≡ max_entries)
unfolding add_time_sample update_offset
add_time_sample-frozen max_entries now source_id time_val m positive even full =
    elim (Bool-cases (any (λ i. i == source_id) m.known_ids)) [
      | inl old ↦ (m, if_true _ _ old, refl, full)
      | inr fresh ↦
          let (offset, added) = add_new max_entries now source_id time_val m fresh in
          let offsets = push_offset max_entries offset m.offsets in
          let same : length offsets ≡ max_entries =
            ground (arith, length-push_offset max_entries offset m.offsets) in
          let next : MedianTime = record m {
            known_ids = source_id ∷ m.known_ids;
            offsets = offsets;
          } in
          let skip : (ltb (length (sort leb_ℤ offsets)) 5
                || not (length (sort leb_ℤ offsets) % 2 == 1))
              ≡ true =
            ground (arith, length-sort leb_ℤ offsets) in
          (next, added ∙ if_true _ _ skip, refl, same)
    ]

update_offset-known_ids :
    (l : List ℤ) (m m' : MedianTime) → update_offset l m ≡ ok m' → m'.known_ids ≡ m.known_ids
unfolding update_offset
update_offset-known_ids l m m' =
    let n = length l in
    elim (Bool-cases (ltb n 5 || not (n % 2 == 1))) [
      | inl few ↦ λ h. sym (ap MedianTime.known_ids (ok_inj (sym (if_true _ _ few) ∙ h)))
      | inr enough ↦ λ h.
          >>=-ok_then (or_panic (get_elem? l (n / 2))) _
            (λ median e k. elim (Bool-cases (abs_below median max_allowed_offset_secs)) [
              | inl near ↦
                  ap MedianTime.known_ids (sym (ok_inj k))
                  ∙ ap MedianTime.known_ids (if_true _ _ near)
              | inr far ↦
                  ap MedianTime.known_ids (sym (ok_inj k))
                  ∙ ap MedianTime.known_ids (if_false _ _ far)
            ])
            (sym (if_false _ _ enough) ∙ h)
    ]

-- A source counts once: after a sample of it, a later one at any time changes nothing.
pub add_time_sample-once :
    (max_entries now later source_id : ℕ) (time_val later_val : ℤ) (m m' : MedianTime)
    → add_time_sample max_entries now source_id time_val m ≡ ok m'
    → add_time_sample max_entries later source_id later_val m' ≡ ok m'
unfolding add_time_sample
add_time_sample-once max_entries now later source_id time_val later_val m m' h =
    elim (Bool-cases (any (λ i. i == source_id) m.known_ids)) [
      | inl old ↦
          let same : m ≡ m' = ok_inj (sym (if_true _ _ old) ∙ h) in
          if_true _ _ (subst (λ x. any (λ i. i == source_id) x.known_ids ≡ true) same old)
      | inr fresh ↦
          let (offset, added) = add_new max_entries now source_id time_val m fresh in
          let offsets = push_offset max_entries offset m.offsets in
          let next : MedianTime = record m {
            known_ids = source_id ∷ m.known_ids;
            offsets = offsets;
          } in
          let ids : m'.known_ids ≡ source_id ∷ m.known_ids =
            update_offset-known_ids (sort leb_ℤ offsets) next m' (sym added ∙ h) in
          if_true _ _ (
            ap (any (λ i. i == source_id)) ids
            ∙ ap (λ b. b || any (λ i. i == source_id) m.known_ids) (==_refl source_id))
    ]
