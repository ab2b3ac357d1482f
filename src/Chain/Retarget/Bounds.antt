-- ===== src/Chain/Retarget/Bounds.antt =====
-- How far one retarget may move the target.
use native.Mathlib.Nat.{pow-suc, one-le-pow, mul-div_cancel}
use btcchain.Common.{
  ℕ, zero, suc, ◌+◌, ◌-◌, ◌*◌, ◌/◌, ◌^◌, ◌≤◌, ◌<◌, ◌≡◌, refl, ◌∙◌, ap, ◌⊎◌, inl, inr, arith, Bool,
  true, false, ◌&&◌, ◌||◌, Bool-cases, ltb, if◌then◌else◌, ok,
}
use btcchain.Common.Int.{
  ℤ, pos, negsuc, pos_part, ltb_ℤ, eq_ℤ, int64, int64-eq, ◌-ℤ◌, ◌+ℤ◌, pos-*ℤ, pos-+ℤ, pos--ℤ,
}
use btcchain.Common.Order.{mul_mono}
use btcchain.Difficulty.Compact.{compact_to_big, big_to_compact}
use btcchain.Chain.Retarget.{
  RetargetParams, limit_target, raise_target, calc_easiest_difficulty, adjusted_timespan, retarget,
  ppc_retarget, ppc_target_timespan, target_timespan, min_retarget_timespan, max_retarget_timespan,
}

abbrev pub min_ℕ : ℕ → ℕ → ℕ
min_ℕ a b = if ltb b a then b else a

-- The number of retargets in a duration, each started one counted.
abbrev pub retargets_in : ℕ → ℕ
retargets_in duration = (duration + (max_retarget_timespan - 1)) / max_retarget_timespan

pub limit_target_eq :
    (params : RetargetParams) (n : ℕ) → limit_target params (pos n) ≡ pos (min_ℕ n params.pow_limit)
limit_target_eq params n = ground arith

adjusted_timespan-range :
    (actual : ℤ)
    → (t : ℕ) × (adjusted_timespan actual ≡ pos t)
      × (min_retarget_timespan ≤ t)
      × (t ≤ max_retarget_timespan)
unfolding adjusted_timespan
adjusted_timespan-range (pos n) =
    let small = ltb n min_retarget_timespan in
    let large = ltb max_retarget_timespan n in
    (
      if small then min_retarget_timespan else if large then max_retarget_timespan else n,
      ground arith,
      ground arith,
      ground arith,
    )
adjusted_timespan-range (negsuc n) = (min_retarget_timespan, ground arith, omega arith, omega arith)

div_quarter : (n t : ℕ) → min_retarget_timespan ≤ t → n ≤ 4 * (n * t / target_timespan) + 3
div_quarter n t h = omega (arith, mul_mono n n min_retarget_timespan t (omega arith) h)

div_four : (n t : ℕ) → t ≤ max_retarget_timespan → n * t / target_timespan ≤ 4 * n
div_four n t h = omega (arith, mul_mono n n t max_retarget_timespan (omega arith) h)

-- Where the old target is positive or zero, the new target is at most the limit and at most four
-- times the old one, and, unless it is the limit, at least a quarter of the old one, rounded down,
-- whatever time the blocks took.
pub retarget_bounds :
    (params : RetargetParams) (n : ℕ) (actual : ℤ)
    → (t : ℕ) × (retarget params (pos n) actual ≡ pos t)
      × (t ≤ params.pow_limit)
      × (t ≤ 4 * n)
      × ((n ≤ 4 * t + 3) ⊎ (t ≡ params.pow_limit))
unfolding retarget
retarget_bounds params n actual =
    let (d, e, lo, hi) = adjusted_timespan-range actual in
    let raw : ℕ = n * d / target_timespan in
    let value : retarget params (pos n) actual ≡ pos (min_ℕ raw params.pow_limit) =
      rw (e, pos-*ℤ n d) (limit_target_eq params raw) in
    let low = div_quarter n d lo in
    let high = div_four n d hi in
    (min_ℕ raw params.pow_limit, value, ground arith, ground arith, ground arith)

one_more_round :
    (d : ℕ)
    → retargets_in (suc d)
      ≡ suc (retargets_in (pos_part (pos (suc d) -ℤ pos max_retarget_timespan)))
unfolding ◌-ℤ◌
one_more_round d = ground arith

min_ℕ_of_large : (n k limit : ℕ) → limit ≤ n → min_ℕ n limit ≡ min_ℕ (n * 4 ^ k) limit
min_ℕ_of_large n k limit h =
    ground (arith, mul_mono n n 1 (4 ^ k) (omega arith) (one-le-pow k 4 (omega arith)))

-- The loop stops early only at a target that the limit then cuts.
raise_target_eq :
    (fuel : ℕ) (params : RetargetParams) (duration : ℤ) (n : ℕ)
    → retargets_in (pos_part duration) < fuel
    → (t : ℕ) × (raise_target fuel params duration (pos n) ≡ ok (pos t))
      × (min_ℕ t params.pow_limit
          ≡ min_ℕ (n * 4 ^ retargets_in (pos_part duration)) params.pow_limit)
unfolding raise_target
raise_target_eq zero params duration n h = absurd (omega arith)
raise_target_eq (suc fuel) params (negsuc d) n h =
    let stop : (ltb_ℤ (pos 0) (negsuc d) && ltb_ℤ (pos n) (pos params.pow_limit)) ≡ false =
      ground arith in
    (n, rw (stop, raise_target) refl, ground arith)
raise_target_eq (suc fuel) params (pos zero) n h = (n, refl, ground arith)
raise_target_eq (suc fuel) params (pos (suc d)) n h = elim (Bool-cases (ltb n params.pow_limit)) [
  | inl below ↦
      let go : (ltb_ℤ (pos 0) (pos (suc d)) && ltb_ℤ (pos n) (pos params.pow_limit)) ≡ true =
        ground arith in
      let rest : ℤ = pos (suc d) -ℤ pos max_retarget_timespan in
      let k : ℕ = retargets_in (pos_part rest) in
      let one : retargets_in (suc d) ≡ suc k = one_more_round d in
      let (t, e, least) = raise_target_eq fuel params rest (n * 4) (omega arith) in
      let power : n * 4 * 4 ^ k ≡ n * 4 ^ retargets_in (suc d) =
        rw (one, pow-suc 4 k) (omega arith) in
      (t, rw (go, pos-*ℤ n 4, raise_target) e, least ∙ ap (λ m. min_ℕ m params.pow_limit) power)
  | inr above ↦
      let stop : (ltb_ℤ (pos 0) (pos (suc d)) && ltb_ℤ (pos n) (pos params.pow_limit)) ≡ false =
        ground arith in
      (
        n,
        rw (stop, raise_target) refl,
        min_ℕ_of_large n (retargets_in (suc d)) params.pow_limit (ground arith),
      )
]

when_off : {A : Type 0} (x y : A) (b c : Bool) → b ≡ false → (if b && c then x else y) ≡ y
when_off x y true c h = absurd (cc)
when_off x y false c h = refl

-- Where the test net's rule for slow blocks does not apply and the compact form stands for no
-- negative number n, calcEasiestDifficulty ends, with the compact form of n times four for each
-- started interval of 56 days, or of the limit where that is less.
pub calc_easiest_difficulty-eq :
    (params : RetargetParams) (bits n : ℕ) (duration : ℤ)
    → params.reset_min_difficulty ≡ false
    → compact_to_big bits ≡ pos n
    → calc_easiest_difficulty params bits duration
      ≡ ok
          (big_to_compact (pos (min_ℕ (n * 4 ^ retargets_in (pos_part duration)) params.pow_limit)))
unfolding calc_easiest_difficulty
calc_easiest_difficulty-eq params bits n duration off e =
    let fuel : ℕ = pos_part duration / max_retarget_timespan + 2 in
    let (t, looped, least) = raise_target_eq fuel params duration n (omega arith) in
    rw (e, looped, limit_target_eq params t, least) (when_off _ _ params.reset_min_difficulty _ off)

pub when_nonzero :
    {A : Type 0} (x y : A) (a b : ℕ)
    → 0 < a
    → 0 < b
    → (if eq_ℤ (pos a) (pos 0) || eq_ℤ (pos b) (pos 0) then x else y) ≡ y
when_nonzero x y a b h k = ground arith

-- The formula, where the interval is at least one spacing.
ppc_retarget_eq :
    (params : RetargetParams) (n spacing actual i : ℕ)
    → 0 < spacing
    → ppc_target_timespan / spacing ≡ i + 1
    → actual < 2 ^ 62
    → ppc_retarget params (pos n) (pos spacing) (pos actual)
      ≡ ok (
          pos
            (min_ℕ (n * (i * spacing + (actual + actual)) / ((i + 2) * spacing)) params.pow_limit))
unfolding ppc_retarget
ppc_retarget_eq params n spacing actual i positive interval small =
    let minus : (pos (i + 1) -ℤ pos 1) ≡ pos i =
      pos--ℤ (i + 1) 1 (omega arith) ∙ ap pos (omega arith) in
    let twice : int64 (pos actual +ℤ pos actual) ≡ pos (actual + actual) =
      rw (pos-+ℤ actual actual) (int64-eq (pos (actual + actual)) (omega arith, omega arith)) in
    let plus : (pos (i + 1) +ℤ pos 1) ≡ pos (i + 2) = pos-+ℤ (i + 1) 1 ∙ ap pos (omega arith) in
    let nonzero : 0 < (i + 2) * spacing = mul_mono 1 (i + 2) 1 spacing (omega arith) positive in
    rw
      (
        interval,
        minus,
        twice,
        plus,
        pos-*ℤ i spacing,
        pos-*ℤ (i + 2) spacing,
        pos-+ℤ (i * spacing) (actual + actual),
        pos-*ℤ n (i * spacing + (actual + actual)),
        limit_target_eq params (n * (i * spacing + (actual + actual)) / ((i + 2) * spacing)),
      )
      (when_nonzero _ _ spacing ((i + 2) * spacing) positive nonzero)

interval_pos :
    (spacing : ℕ)
    → 0 < spacing
    → spacing ≤ ppc_target_timespan
    → ppc_target_timespan / spacing ≡ ppc_target_timespan / spacing - 1 + 1
interval_pos spacing positive small = grind arith

-- On schedule the target stays as it is, up to the limit: for a spacing meant that is positive and
-- at most a week, and blocks exactly that far apart.
pub ppc_retarget-on_schedule :
    (params : RetargetParams) (n spacing : ℕ)
    → 0 < spacing
    → spacing ≤ ppc_target_timespan
    → ppc_retarget params (pos n) (pos spacing) (pos spacing) ≡ ok (pos (min_ℕ n params.pow_limit))
ppc_retarget-on_schedule params n spacing positive small =
    let i : ℕ = ppc_target_timespan / spacing - 1 in
    let interval : ppc_target_timespan / spacing ≡ i + 1 = interval_pos spacing positive small in
    let d : ℕ = (i + 2) * spacing in
    let nonzero : 0 < d = mul_mono 1 (i + 2) 1 spacing (omega arith) positive in
    let sum : i * spacing + (spacing + spacing) ≡ d = omega arith in
    let ratio : n * d / d ≡ n = mul-div_cancel n nonzero in
    ppc_retarget_eq params n spacing spacing i positive interval (omega arith)
    ∙ rw (sum, ratio) refl
