-- ===== src/Chain/Retarget.antt =====
-- The target that a block must have: difficulty.go, from calcEasiestDifficulty on, which bitcoin
-- nets use, and getLastBlockIndex and ppcCalcNextRequiredDifficulty of ppc.go.
pub mod Bounds
pub mod Walks
pub mod Total
pub mod Next
use btcchain.Common.{
  ℕ, zero, suc, ◌+◌, ◌-◌, ◌*◌, ◌/◌, ◌%◌, Option, none, some, Bool, true, false, ◌&&◌, ◌||◌, not,
  ◌==◌, ltb, if◌then◌else◌, Result, ok, err, failure, panic, divergence,
}
use btcchain.Common.Int.{
  ℤ, pos, pos_part, int64, ◌+ℤ◌, ◌-ℤ◌, ◌*ℤ◌, ltb_ℤ, eq_ℤ, euclid_div, quot, min_ℤ,
}
use btcchain.Wire.{nano, unix}
use btcchain.Difficulty.Compact.{compact_to_big, big_to_compact}
use btcchain.Chain.State.{BlockNode, BlockChain, Env, M, bind}
use btcchain.Chain.Nodes.{get_prev_node_from_node, is_proof_of_stake}

-- The fields of btcnet.Params that are read here.
pub record RetargetParams : Type 0 where
  pub pow_limit : ℕ
  pub pow_limit_bits : ℕ
  pub reset_min_difficulty : Bool
  pub initial_hash_target_bits : ℕ

-- Durations in nanoseconds, like time.Duration.
abbrev pub target_timespan : ℕ
target_timespan = 14 * 24 * 3600 * nano

abbrev pub target_spacing : ℕ
target_spacing = 600 * nano

abbrev pub blocks_per_retarget : ℕ
blocks_per_retarget = target_timespan / target_spacing

abbrev pub retarget_adjustment_factor : ℕ
retarget_adjustment_factor = 4

abbrev pub min_retarget_timespan : ℕ
min_retarget_timespan = target_timespan / retarget_adjustment_factor

abbrev pub max_retarget_timespan : ℕ
max_retarget_timespan = target_timespan * retarget_adjustment_factor

-- `if newTarget.Cmp(b.netParams.PowLimit) > 0 { newTarget.Set(b.netParams.PowLimit) }`
abbrev pub limit_target : RetargetParams → ℤ → ℤ
limit_target params target =
    if ltb_ℤ (pos params.pow_limit) target then pos params.pow_limit else target

-- The loop of calcEasiestDifficulty, on fuel.
unfoldable pub raise_target : ℕ → RetargetParams → ℤ → ℤ → Result ℤ
raise_target zero params duration target = err divergence
raise_target (suc fuel) params duration target =
    elim (ltb_ℤ (pos 0) duration && ltb_ℤ target (pos params.pow_limit)) [
      | true ↦
          raise_target fuel params (duration -ℤ pos max_retarget_timespan)
            (target *ℤ pos retarget_adjustment_factor)
      | false ↦ ok target
    ]

unfoldable pub calc_easiest_difficulty : RetargetParams → ℕ → ℤ → Result ℕ
calc_easiest_difficulty params bits duration =
    if params.reset_min_difficulty && ltb_ℤ (pos (target_spacing * 2)) duration
    then ok params.pow_limit_bits
    else elim (raise_target (pos_part duration / max_retarget_timespan + 2) params duration
        (compact_to_big bits)) [
          | err e ↦ err e
          | ok target ↦ ok (big_to_compact (limit_target params target))
        ]

-- The clamp of the time that the last 2016 blocks took.
unfoldable pub adjusted_timespan : ℤ → ℤ
adjusted_timespan actual =
    if ltb_ℤ actual (pos min_retarget_timespan)
    then pos min_retarget_timespan
    else if ltb_ℤ (pos max_retarget_timespan) actual
    then pos max_retarget_timespan
    else actual

unfoldable pub retarget : RetargetParams → ℤ → ℤ → ℤ
retarget params old_target actual =
    limit_target params (euclid_div (old_target *ℤ adjusted_timespan actual) (pos target_timespan))

-- int64 of ppc.go, in seconds.
abbrev pub stake_target_spacing : ℕ
stake_target_spacing = 600

abbrev pub target_spacing_work_max : ℕ
target_spacing_work_max = stake_target_spacing * 12

abbrev pub ppc_target_timespan : ℕ
ppc_target_timespan = 7 * 24 * 60 * 60

-- The new target from the previous one, the spacing meant and the spacing seen.
unfoldable pub ppc_retarget : RetargetParams → ℤ → ℤ → ℤ → Result ℤ
ppc_retarget params old_target spacing actual =
    let interval = quot (pos ppc_target_timespan) spacing in
    let numerator = (((interval -ℤ pos 1) *ℤ spacing) +ℤ int64 (actual +ℤ actual)) in
    let denominator = (interval +ℤ pos 1) *ℤ spacing in
    if eq_ℤ spacing (pos 0) || eq_ℤ denominator (pos 0)
    then err panic
    else ok (limit_target params (euclid_div (old_target *ℤ numerator) denominator))

abbrev same : Bool → Bool → Bool
same true b = b
same false b = not b

-- `block, _ = b.getPrevNodeFromNode(block)`: nil where the call fails.
unfoldable pub or_nil {ℓ} :
    {S : Type 0} {B : Type ℓ} → Result (Option ℕ) × BlockChain S → (Option ℕ → BlockChain S → B) → B
or_nil (ok p, s) f = f p s
or_nil (err e, s) f = f none s

-- Heights fall along parents.
abbrev pub fuel_from : (ℕ → BlockNode) → Option ℕ → ℕ
fuel_from heap none = 0
fuel_from heap (some r) = (heap r).height + 1

-- Where getLastBlockIndex ends: at height 0, or at a block of the kind that is looked for.
unfoldable pub stops_at : Bool → BlockNode → Bool
stops_at proof_of_stake node = node.height == 0 || same (is_proof_of_stake node.meta) proof_of_stake

-- The spacing meant for the next block of this kind.
unfoldable pub spacing_for : Bool → ℕ → ℕ → ℤ
spacing_for true last_height prev_height = pos stake_target_spacing
spacing_for false last_height prev_height =
    min_ℤ (pos target_spacing_work_max)
      (int64 (pos stake_target_spacing *ℤ (pos (1 + last_height) -ℤ pos prev_height)))

module _ {S : Type 0} (env : Env S) where
  -- The walk to the first block of the interval: at most `rounds` steps.
  unfoldable pub first_node : ℕ → Option ℕ → M S (Option ℕ)
  first_node zero node s = (ok node, s)
  first_node (suc rounds) none s = (ok none, s)
  first_node (suc rounds) (some r) s = bind (get_prev_node_from_node env r s) (first_node rounds)

  -- getLastBlockIndex, on fuel. The error of getPrevNodeFromNode is dropped.
  unfoldable pub get_last_block_index : ℕ → Option ℕ → Bool → M S (Option ℕ)
  get_last_block_index fuel none proof_of_stake s = (ok none, s)
  get_last_block_index zero (some r) proof_of_stake s = (err divergence, s)
  get_last_block_index (suc fuel) (some r) proof_of_stake s =
      elim (stops_at proof_of_stake (s.heap r)) [
        | true ↦ (ok (some r), s)
        | false ↦
            or_nil (get_prev_node_from_node env r s)
              λ p s'. get_last_block_index fuel p proof_of_stake s'
      ]

module _ {S : Type 0} (env : Env S) (params : RetargetParams) where
  open env use {genesis_hash}

  -- findPrevTestNetDifficulty, on fuel.
  unfoldable pub find_prev_test_net_difficulty : ℕ → Option ℕ → M S ℕ
  find_prev_test_net_difficulty fuel none s = (ok params.pow_limit_bits, s)
  find_prev_test_net_difficulty zero (some r) s = (err divergence, s)
  find_prev_test_net_difficulty (suc fuel) (some r) s =
      let node = s.heap r in
      elim (not (node.height % blocks_per_retarget == 0) && (node.bits == params.pow_limit_bits)) [
        | false ↦ (ok node.bits, s)
        | true ↦ bind (get_prev_node_from_node env r s) (find_prev_test_net_difficulty fuel)
      ]

  unfoldable pub calc_next_required_difficulty : Option ℕ → ℕ → M S ℕ
  calc_next_required_difficulty none new_block_time s = (ok params.pow_limit_bits, s)
  calc_next_required_difficulty (some r) new_block_time s =
      let last = s.heap r in
      elim ((last.height + 1) % blocks_per_retarget == 0) [
        | false ↦ elim params.reset_min_difficulty [
          | true ↦ elim (ltb (last.timestamp + target_spacing * 2) new_block_time) [
            | true ↦ (ok params.pow_limit_bits, s)
            | false ↦ find_prev_test_net_difficulty (last.height + 1) (some r) s
          ]
          | false ↦ (ok last.bits, s)
        ]
        | true ↦ bind (first_node env (blocks_per_retarget - 1) (some r) s) λ first s'. elim first [
          | none ↦ (err failure, s')
          | some f ↦
              let actual = int64 (pos (s'.heap r).timestamp -ℤ pos (s'.heap f).timestamp) in
              (ok (big_to_compact (retarget params (compact_to_big last.bits) actual)), s')
        ]
      ]

  -- CalcNextRequiredDifficulty
  unfoldable pub best_next_required_difficulty : ℕ → M S ℕ
  best_next_required_difficulty timestamp s = calc_next_required_difficulty s.best_chain timestamp s

  -- The part of ppcCalcNextRequiredDifficulty after both blocks of the kind are found.
  unfoldable pub ppc_bits_after : Bool → BlockNode → BlockNode → BlockNode → Result ℕ
  ppc_bits_after proof_of_stake last prev prev_prev = elim (prev_prev.hash == genesis_hash) [
    | true ↦ ok params.initial_hash_target_bits
    | false ↦
        elim (ppc_retarget params (compact_to_big prev.bits)
          (spacing_for proof_of_stake last.height prev.height)
          (pos (unix prev.timestamp) -ℤ pos (unix prev_prev.timestamp))) [
            | err e ↦ err e
            | ok target ↦ ok (big_to_compact target)
          ]
  ]

  -- ppcCalcNextRequiredDifficulty after its second and after its first search.
  unfoldable pub ppc_second : ℕ → ℕ → Bool → Option ℕ → M S ℕ
  ppc_second r prev proof_of_stake none s = (err panic, s)
  ppc_second r prev proof_of_stake (some prev_prev) s =
      (ppc_bits_after proof_of_stake (s.heap r) (s.heap prev) (s.heap prev_prev), s)

  unfoldable pub ppc_first : ℕ → Bool → Option ℕ → M S ℕ
  ppc_first r proof_of_stake none s = (err panic, s)
  ppc_first r proof_of_stake (some prev) s = elim ((s.heap prev).hash == genesis_hash) [
    | true ↦ (ok params.initial_hash_target_bits, s)
    | false ↦ or_nil (get_prev_node_from_node env prev s) λ start s'.
        bind (get_last_block_index env (fuel_from s'.heap start) start proof_of_stake s')
          (ppc_second r prev proof_of_stake)
  ]

  unfoldable pub ppc_calc_next_required_difficulty : Option ℕ → Bool → M S ℕ
  ppc_calc_next_required_difficulty none proof_of_stake s = (ok params.pow_limit_bits, s)
  ppc_calc_next_required_difficulty (some r) proof_of_stake s =
      bind (get_last_block_index env (fuel_from s.heap (some r)) (some r) proof_of_stake s)
        (ppc_first r proof_of_stake)
