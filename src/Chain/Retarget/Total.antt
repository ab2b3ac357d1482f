-- ===== src/Chain/Retarget/Total.antt =====
-- ppcCalcNextRequiredDifficulty returns, where the nodes are in memory.
use btcchain.Common.{
  ℕ, ◌+◌, ◌-◌, ◌*◌, ◌/◌, ◌^◌, ◌≤◌, ◌<◌, ◌≡◌, refl, ap, inl, inr, arith, Bool, true, false, ◌==◌,
  ltb, Bool-cases, ltb→lt, ==_iff, some, ok, if◌then◌else◌,
}
use btcchain.Common.Order.{mul_mono}
use btcchain.Common.Int.{
  ℤ, pos, int64, int64-eq, ◌-ℤ◌, ◌+ℤ◌, ◌*ℤ◌, pos-*ℤ, pos--ℤ, pos-+ℤ, euclid_div,
}
use btcchain.Wire.{unix}
use btcchain.Difficulty.Compact.{compact_to_big, big_to_compact}
use btcchain.Chain.State.{BlockNode, BlockChain, Env, bind_step}
use btcchain.Chain.Retarget.{
  RetargetParams, or_nil, ppc_first, ppc_second, limit_target, ppc_retarget, spacing_for,
  ppc_bits_after, ppc_calc_next_required_difficulty, stake_target_spacing, target_spacing_work_max,
  ppc_target_timespan,
}
use btcchain.Chain.Retarget.Bounds.{when_nonzero}
use btcchain.Chain.Retarget.Walks.{InMemory, get_last_block_index-stops_at, get_prev_of_parent}

-- The spacing lies between ten minutes and two hours.
spacing_for-range :
    (kind : Bool) (last prev : ℕ)
    → prev ≤ last
    → last < 2 ^ 50
    → (n : ℕ) × (spacing_for kind last prev ≡ pos n)
      × (stake_target_spacing ≤ n)
      × (n ≤ target_spacing_work_max)
unfolding spacing_for
spacing_for-range true last prev h k = (stake_target_spacing, refl, omega arith, omega arith)
spacing_for-range false last prev h k =
    let d : ℕ = stake_target_spacing * (1 + last - prev) in
    let e : int64 (pos stake_target_spacing *ℤ (pos (1 + last) -ℤ pos prev)) ≡ pos d =
      rw (pos--ℤ (1 + last) prev (omega arith), pos-*ℤ stake_target_spacing (1 + last - prev))
        (int64-eq (pos d) (omega arith, omega arith)) in
    (
      if ltb target_spacing_work_max d then target_spacing_work_max else d,
      rw e (ground arith),
      ground arith,
      ground arith,
    )

ppc_retarget-returns :
    (params : RetargetParams) (old actual : ℤ) (spacing : ℕ)
    → 0 < spacing
    → (target : ℤ) × (ppc_retarget params old (pos spacing) actual ≡ ok target)
unfolding ppc_retarget
ppc_retarget-returns params old actual spacing h =
    let i : ℕ = ppc_target_timespan / spacing in
    let d : ℕ = (i + 1) * spacing in
    let nonzero : 0 < d = mul_mono 1 (i + 1) 1 spacing (omega arith) h in
    let numerator : ℤ = ((pos i -ℤ pos 1) *ℤ pos spacing) +ℤ int64 (actual +ℤ actual) in
    let target : ℤ = limit_target params (euclid_div (old *ℤ numerator) (pos d)) in
    (target, rw (pos-+ℤ i 1, pos-*ℤ (i + 1) spacing) (when_nonzero _ _ spacing d h nonzero))

ppc_bits_after-returns :
    {S : Type 0} (env : Env S) (params : RetargetParams) (kind : Bool)
    (last prev prev_prev : BlockNode)
    → prev.height ≤ last.height
    → last.height < 2 ^ 50
    → (bits : ℕ) × (ppc_bits_after env params kind last prev prev_prev ≡ ok bits)
unfolding ppc_bits_after
ppc_bits_after-returns env params kind last prev prev_prev le small =
    elim (Bool-cases (prev_prev.hash == env.genesis_hash)) [
      | inl e ↦ (params.initial_hash_target_bits, rw (e, ppc_bits_after) refl)
      | inr e ↦
          let (n, at, lo, hi) = spacing_for-range kind last.height prev.height le small in
          let actual : ℤ = pos (unix prev.timestamp) -ℤ pos (unix prev_prev.timestamp) in
          let (target, got) =
            ppc_retarget-returns params (compact_to_big prev.bits) actual n (omega arith) in
          (big_to_compact target, rw (e, at, got, ppc_bits_after) refl)
    ]

zero_of : (n : ℕ) → ltb 0 n ≡ false → n ≡ 0
zero_of n h = ground arith

above_genesis :
    (node : BlockNode) (genesis_hash : ℕ)
    → (node.height ≡ 0 → node.hash ≡ genesis_hash)
    → (node.hash == genesis_hash) ≡ false
    → 0 < node.height
above_genesis node genesis_hash only e = elim (Bool-cases (ltb 0 node.height)) [
  | inl h ↦ ltb→lt 0 node.height h
  | inr h ↦ absurd (ground (arith, only (zero_of node.height h), ==_iff node.hash genesis_hash))
]

module _ {S : Type 0} (env : Env S) (params : RetargetParams) where
  -- From a node in memory with parents down to height 0, where the genesis block is the only one at
  -- height 0, and below height 2 ^ 50, ppcCalcNextRequiredDifficulty returns and loads nothing.
  pub ppc_calc_next_required_difficulty-returns :
      (r : ℕ) (kind : Bool) (s : BlockChain S)
      → InMemory s.heap
      → ((q : ℕ) → (s.heap q).height ≡ 0 → (s.heap q).hash ≡ env.genesis_hash)
      → (s.heap r).height < 2 ^ 50
      → (bits : ℕ) × (ppc_calc_next_required_difficulty env params (some r) kind s ≡ (ok bits, s))
  unfolding ppc_calc_next_required_difficulty ppc_first ppc_second or_nil
  ppc_calc_next_required_difficulty-returns r kind s mem genesis small =
      let (prev, found, stop, below, _) =
        get_last_block_index-stops_at env ((s.heap r).height + 1) r kind s mem (omega arith) in
      elim (Bool-cases ((s.heap prev).hash == env.genesis_hash)) [
        | inl e ↦ (params.initial_hash_target_bits, bind_step _ found (rw (e, ppc_first) refl))
        | inr e ↦
            let (p, up, lower) =
              mem prev (above_genesis (s.heap prev) env.genesis_hash (genesis prev) e) in
            let (prev_prev, found', stop', below', _) =
              get_last_block_index-stops_at env ((s.heap p).height + 1) p kind s mem
                (omega arith) in
            let (bits, got) =
              ppc_bits_after-returns env params kind (s.heap r) (s.heap prev) (s.heap prev_prev)
                below small in
            (
              bits,
              bind_step _ found (
                  rw (e, get_prev_of_parent env prev p s up, ppc_first)
                    (bind_step _ found' (ap (λ x. (x, s)) got))),
            )
      ]
