-- ===== src/StakeModifier/Next.antt =====
-- computeNextStakeModifier of kernel.go. The errors of calls are passed on as they are, where the
-- source puts a text around them.
use btcchain.Common.{
  ℕ, zero, suc, ◌+◌, ◌*◌, ◌/◌, ◌^◌, ◌≤◌, ◌<◌, ◌≡◌, arith, Option, none, some, List, [], ◌∷◌, length,
  Bool, true, false, ◌&&◌, ◌==◌, leb, if◌then◌else◌, Result, ok, err, panic, divergence, inl, inr,
  ok_inj, ap, sym, subst, Bool-cases,
}
use btcchain.Common.Int.{ℤ, pos, int64, ◌+ℤ◌, ◌-ℤ◌, leb_ℤ}
use btcchain.Common.Sort.{sort}
use btcchain.Wire.{Block, Meta, unix}
use btcchain.Chain.State.{BlockChain, Env, M, bind, bind_ok}
use btcchain.Chain.Nodes.{get_prev_node_from_node, get_prev_node_from_block}
use btcchain.StakeModifier.{
  StakeParams, BlockTimeHash, Chosen, in_order, is_protocol_v04, get_meta_stake_entropy_bit,
  selection_interval_section, selection_interval, select_block, get_last_stake_modifier,
}

module _ {S : Type 0} (env : Env S) where
  -- The nodes from one down that are not before the start, on fuel, and the outcome of the last call:
  -- a node that cannot be loaded ends the loop, and its error is kept.
  unfoldable pub candidates : ℕ → Option ℕ → ℤ → M S (List BlockTimeHash × Result (Unit {0}))
  candidates fuel none start s = (ok ([], ok tt), s)
  candidates zero (some r) start s = (err divergence, s)
  candidates (suc fuel) (some r) start s =
      let node = s.heap r in
      let item : BlockTimeHash = record { time = unix node.timestamp; hash = node.hash } in
      elim (leb_ℤ start (pos (unix node.timestamp))) [
        | false ↦ (ok ([], ok tt), s)
        | true ↦
            let (prev, s') = get_prev_node_from_node env r s in
            elim prev [
              | err e ↦ (ok (item ∷ [], err e), s')
              | ok p ↦
                  bind (candidates fuel p start s')
                    λ (items, outcome) s''. (ok (item ∷ items, outcome), s'')
            ]
      ]

abbrev pub and_chosen : Chosen → List ℕ → List ℕ
and_chosen none selected = selected
and_chosen (some (h, r)) selected = r ∷ selected

-- The number of rounds: minInt(64, n).
abbrev pub rounds_for : ℕ → ℕ
rounds_for n = if leb 64 n then 64 else n

module _ (double_sha256 : List ℕ → ℕ) {S : Type 0} (env : Env S) (params : StakeParams) where
  open params use {modifier_interval}

  -- What a round leaves: the modifier with the bit of the chosen block, which is not yet set, so
  -- that | is +, and the chosen nodes. Without a chosen block the source dereferences nil.
  unfoldable pub add_bit : ℕ → ℕ → Chosen → M S ℕ
  add_bit round modifier none s = (err panic, s)
  add_bit round modifier (some (h, r)) s =
      (ok (modifier + get_meta_stake_entropy_bit (s.heap r).meta * 2 ^ round), s)

  -- The rounds that are left, from number `round` on.
  unfoldable pub select_rounds : ℕ → ℕ → List BlockTimeHash → List ℕ → ℤ → ℕ → ℕ → M S ℕ
  select_rounds zero round sorted selected stop prev modifier s = (ok modifier, s)
  select_rounds (suc n) round sorted selected stop prev modifier s =
      let stop' = int64 (stop +ℤ selection_interval_section params round) in
      bind (select_block double_sha256 env sorted selected stop' prev none s) λ chosen s'.
        bind (add_bit round modifier chosen s') λ modifier' s''.
          select_rounds n (suc round) sorted (and_chosen chosen selected) stop' prev modifier' s''

  unfoldable pub finish : Result (Unit {0}) → ℕ → M S (ℕ × Bool)
  finish (ok _) modifier s = (ok (modifier, true), s)
  finish (err e) modifier s = (err e, s)

  unfoldable pub after_candidates : ℤ → ℕ → List BlockTimeHash × Result (Unit {0}) → M S (ℕ × Bool)
  after_candidates start prev (items, outcome) s =
      bind (select_rounds (rounds_for (length items)) 0 (sort in_order items) [] start prev 0 s)
        (finish outcome)

  unfoldable pub generate : ℕ → ℕ → M S (ℕ × Bool)
  generate p prev s =
      let node = s.heap p in
      let start = int64 (
        pos (unix node.timestamp / modifier_interval * modifier_interval)
        -ℤ selection_interval params) in
      bind (candidates env (node.height + 1) (some p) start s) (after_candidates start prev)

  -- From the last modifier and the time of its block.
  unfoldable pub after_last : Block → ℕ → ℕ × ℕ → M S (ℕ × Bool)
  after_last block p (modifier, time) s =
      let interval = time / modifier_interval in
      let current = unix block.header.timestamp in
      elim (modifier_interval == 0) [
        | true ↦ (err panic, s)
        | false ↦ elim (leb (unix (s.heap p).timestamp / modifier_interval) interval) [
          | true ↦ (ok (modifier, false), s)
          | false ↦
              elim (leb (current / modifier_interval) interval && is_protocol_v04 params current) [
                | true ↦ (ok (modifier, false), s)
                | false ↦ generate p modifier s
              ]
        ]
      ]

  unfoldable pub after_prev : Block → Option ℕ → M S (ℕ × Bool)
  after_prev block none s = (ok (0, true), s)
  after_prev block (some p) s =
      bind (get_last_stake_modifier env ((s.heap p).height + 1) (some p) s) (after_last block p)

  -- The modifier, and whether it was generated.
  unfoldable pub compute_next_stake_modifier : Block → M S (ℕ × Bool)
  compute_next_stake_modifier block s =
      bind (get_prev_node_from_block env block s) (after_prev block)

module _ (double_sha256 : List ℕ → ℕ) {S : Type 0} (env : Env S) (params : StakeParams) where
  open params use {modifier_interval}

  pow2_pos : (b : ℕ) → 0 < 2 ^ b
  pow2_pos zero = omega arith
  pow2_pos (suc b) = omega (arith, pow2_pos b)

  pow2_mono : (a b : ℕ) → a ≤ b → 2 ^ a ≤ 2 ^ b
  pow2_mono zero b h = pow2_pos b
  pow2_mono (suc a) zero h = absurd (omega arith)
  pow2_mono (suc a) (suc b) h = omega (arith, pow2_mono a b (omega arith))

  entropy_bit_bound : (meta : Meta) → get_meta_stake_entropy_bit meta ≤ 1
  entropy_bit_bound meta = omega arith

  add_bit_bound :
      (round modifier m : ℕ) (chosen : Chosen) (s : BlockChain S)
      → modifier < 2 ^ round
      → (add_bit double_sha256 env params round modifier chosen s).0 ≡ ok m
      → m < 2 ^ suc round
  unfolding add_bit
  add_bit_bound round modifier m none s h e = absurd (cc)
  add_bit_bound round modifier m (some (x, r)) s h e = rw⁻¹ (ok_inj e) (
      omega (
        arith,
        bit_times (get_meta_stake_entropy_bit (s.heap r).meta) (2 ^ round)
            (entropy_bit_bound (s.heap r).meta),
      ))
    where
      bit_times : (b w : ℕ) → b ≤ 1 → b * w ≤ w
      bit_times zero w h = omega arith
      bit_times (suc zero) w h = omega arith
      bit_times (suc (suc b)) w h = absurd (omega arith)

  select_rounds_bound :
      (n round prev modifier m : ℕ) (sorted : List BlockTimeHash) (selected : List ℕ) (stop : ℤ)
      (s : BlockChain S)
      → modifier < 2 ^ round
      → (select_rounds double_sha256 env params n round sorted selected stop prev modifier s).0
        ≡ ok m
      → m < 2 ^ (n + round)
  unfolding select_rounds
  select_rounds_bound zero round prev modifier m sorted selected stop s h =
      λ e. let q : 0 + round ≡ round = omega arith in rw q (rw⁻¹ (ok_inj e) h)
  select_rounds_bound (suc n) round prev modifier m sorted selected stop s h =
      bind_ok (λ _. m < 2 ^ (suc n + round)) m
        (select_block double_sha256 env sorted selected
          (int64 (stop +ℤ selection_interval_section params round)) prev none s)
        _
        λ chosen _.
          bind_ok (λ _. m < 2 ^ (suc n + round)) m
            (add_bit double_sha256 env params round modifier chosen _) _
            λ modifier' done rest.
              let r : m < 2 ^ (n + suc round) =
                select_rounds_bound n (suc round) prev modifier' m sorted
                  (and_chosen chosen selected) _ _
                  (add_bit_bound round modifier modifier' chosen _ h done) rest in
              let q : n + suc round ≡ suc n + round = omega arith in subst (λ t. m < 2 ^ t) q r

  rounds_bound : (n : ℕ) → 2 ^ rounds_for n ≤ 2 ^ 64
  rounds_bound n = pow2_mono (rounds_for n) 64 (ground arith)

  finish_bound :
      (outcome : Result (Unit {0})) (m' m : ℕ) (s : BlockChain S)
      → m' < 2 ^ 64
      → (finish double_sha256 env params outcome m' s).0 ≡ ok (m, true)
      → m < 2 ^ 64
  unfolding finish
  finish_bound (ok _) m' m s h e = rw⁻¹ (ap (λ x. x.0) (ok_inj e)) h
  finish_bound (err _) m' m s h e = absurd (cc)

  not_generated : {m m' : ℕ} → Path (ℕ × Bool) (m, false) (m', true) → ⊥
  not_generated e = cc (ap (λ x. x.1) e)

  after_candidates_bound :
      (start : ℤ) (prev m : ℕ) (found : List BlockTimeHash × Result (Unit {0})) (s : BlockChain S)
      → (after_candidates double_sha256 env params start prev found s).0 ≡ ok (m, true)
      → m < 2 ^ 64
  unfolding after_candidates
  after_candidates_bound start prev m (items, outcome) s =
      bind_ok (λ _. m < 2 ^ 64) (m, true)
        (select_rounds double_sha256 env params (rounds_for (length items)) 0 (sort in_order items)
          [] start prev 0 s)
        _
        λ m' done e.
          let q : rounds_for (length items) ≡ rounds_for (length items) + 0 = omega arith in
          let r : m' < 2 ^ rounds_for (length items) =
            subst (λ n. m' < 2 ^ n) (sym q)
              (select_rounds_bound (rounds_for (length items)) 0 prev 0 m' (sort in_order items) []
                start s (omega arith) done) in
          finish_bound outcome m' m _ (omega (arith, rounds_bound (length items), r)) e

  after_last_bound :
      (block : Block) (p m : ℕ) (last : ℕ × ℕ) (s : BlockChain S)
      → (after_last double_sha256 env params block p last s).0 ≡ ok (m, true)
      → m < 2 ^ 64
  unfolding after_last generate
  after_last_bound block p m (modifier, time) s = elim (Bool-cases (modifier_interval == 0)) [
    | inl e ↦ rw (e, after_last) (λ h. absurd (cc))
    | inr e ↦
        elim (Bool-cases
          (leb (unix (s.heap p).timestamp / modifier_interval) (time / modifier_interval))) [
            | inl f ↦ rw (e, f, after_last) (λ h. absurd (not_generated (ok_inj h)))
            | inr f ↦
                elim (Bool-cases (
                  leb (unix block.header.timestamp / modifier_interval) (time / modifier_interval)
                  && is_protocol_v04 params (unix block.header.timestamp))) [
                    | inl g ↦ rw (e, f, g, after_last) (λ h. absurd (not_generated (ok_inj h)))
                    | inr g ↦
                        rw (e, f, g, after_last)
                          (bind_ok (λ _. m < 2 ^ 64) (m, true)
                            (candidates env ((s.heap p).height + 1) (some p) _ s) _
                            λ found _ h. after_candidates_bound _ modifier m found _ h)
                  ]
          ]
  ]

  after_prev_bound :
      (block : Block) (prev : Option ℕ) (m : ℕ) (s : BlockChain S)
      → (after_prev double_sha256 env params block prev s).0 ≡ ok (m, true)
      → m < 2 ^ 64
  unfolding after_prev
  after_prev_bound block none m s = λ h. rw⁻¹ (ap (λ x. x.0) (ok_inj h)) (omega arith)
  after_prev_bound block (some p) m s =
      bind_ok (λ _. m < 2 ^ 64) (m, true)
        (get_last_stake_modifier env ((s.heap p).height + 1) (some p) s) _
        λ last _ h. after_last_bound block p m last _ h

  -- A modifier that computeNextStakeModifier generates fits into 64 bits, so that no shift of an
  -- entropy bit loses it.
  pub compute_next_stake_modifier_bound :
      (block : Block) (m : ℕ) (s : BlockChain S)
      → (compute_next_stake_modifier double_sha256 env params block s).0 ≡ ok (m, true)
      → m < 2 ^ 64
  unfolding compute_next_stake_modifier
  compute_next_stake_modifier_bound block m s =
      bind_ok (λ _. m < 2 ^ 64) (m, true) (get_prev_node_from_block env block s) _
        λ prev _ h. after_prev_bound block prev m _ h
