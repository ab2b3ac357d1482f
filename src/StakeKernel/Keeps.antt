-- ===== src/StakeKernel/Keeps.antt =====
-- What the operations of kernel.go that accept.go calls do to the state.
use btcchain.Common.{
  ℕ, zero, suc, ◌==◌, ◌≡◌, Option, none, some, Option-cases, List, [], ◌∷◌, get_elem?, lookup, true,
  Bool-cases, inl, inr, Result, ok, err, Result-cases, leb, ◌&&◌, ◌/◌,
}
use btcchain.Common.Int.{ℤ, pos, leb_ℤ}
use btcchain.Wire.{Block, unix}
use btcchain.Validate.{Packages}
use btcchain.Chain.State.{BlockChain, Env, bind_all}
use btcchain.Chain.Nodes.{get_prev_node_from_node}
use btcchain.Chain.Pruning.{get_block_node}
use btcchain.Chain.Lookup.{TxDb}
use btcchain.Chain.Connect.{Flags}
use btcchain.Chain.Connect.DryRun.{Kept}
use btcchain.Chain.Loads.{
  load_block_node-Kept, get_prev_node_from_block-Kept, get_prev_node_from_node-Kept,
}
use btcchain.Chain.Accept.{Net}
use btcchain.Chain.Accept.DryRun.{KernelKeeps}
use btcchain.Chain.Process.{process_block}
use btcchain.Chain.Process.DryRun.{process_block-dry}
use btcchain.StakeModifier.{
  StakeParams, BlockTimeHash, Chosen, past_stop, select_block, get_last_stake_modifier,
  is_generated_stake_modifier, is_protocol_v04,
}
use btcchain.StakeModifier.Next.{
  candidates, add_bit, select_rounds, after_candidates, finish, generate, after_last, after_prev,
  compute_next_stake_modifier,
}
use btcchain.StakeKernel.{
  StakePackages, check_block_proof_of_stake, get_stake_modifier_checksum, add_checksum,
  check_stake_modifier_checkpoints, add_to_block_index, stake_kernel,
}

module _ (double_sha256 : List ℕ → ℕ) {S : Type 0} (env : Env S) (params : StakeParams)
    (t : BlockChain S) where
  abbrev Q : BlockChain S → Type 0
  Q s = Kept env s t

  get_block_node-Kept : (hash : ℕ) (s : BlockChain S) → Q s → Q (get_block_node env hash s).1
  unfolding get_block_node
  get_block_node-Kept hash s k = elim (Option-cases (lookup hash s.index)) [
    | inr (r, e) ↦ rw (e, get_block_node) k
    | inl e ↦ rw (e, get_block_node) (load_block_node-Kept env t hash s k)
  ]

  select_block-Kept :
      (items : List BlockTimeHash) (selected : List ℕ) (stop : ℤ) (prev : ℕ) (best : Chosen)
      (s : BlockChain S)
      → Q s
      → Q (select_block double_sha256 env items selected stop prev best s).1
  unfolding select_block
  select_block-Kept [] selected stop prev best s k = k
  select_block-Kept (item ∷ items) selected stop prev best s k =
      bind_all Q _ _ (get_block_node-Kept item.hash s k) λ r k.
        elim (Bool-cases
          (past_stop double_sha256 best stop ((get_block_node env item.hash s).1.heap r))) [
            | inl e ↦ rw e k
            | inr e ↦ rw e (select_block-Kept items selected stop prev _ _ k)
          ]

  get_last-Kept :
      (fuel : ℕ) (start : Option ℕ) (s : BlockChain S)
      → Q s
      → Q (get_last_stake_modifier env fuel start s).1
  unfolding get_last_stake_modifier
  get_last-Kept fuel none s k = k
  get_last-Kept zero (some r) s k = k
  get_last-Kept (suc fuel) (some r) s k =
      elim (Bool-cases (is_generated_stake_modifier (s.heap r).meta)) [
        | inl e ↦ rw (e, get_last_stake_modifier) k
        | inr e ↦ elim (Bool-cases ((s.heap r).parent_hash == 0)) [
          | inl f ↦ rw (e, f, get_last_stake_modifier) k
          | inr f ↦
              rw (e, f, get_last_stake_modifier)
                (bind_all Q _ _ (get_prev_node_from_node-Kept env t r s k)
                  λ p k. get_last-Kept fuel p _ k)
        ]
      ]

  candidates-Kept :
      (fuel : ℕ) (node : Option ℕ) (start : ℤ) (s : BlockChain S)
      → Q s
      → Q (candidates env fuel node start s).1
  unfolding candidates
  candidates-Kept fuel none start s k = k
  candidates-Kept zero (some r) start s k = k
  candidates-Kept (suc fuel) (some r) start s k =
      let kept = get_prev_node_from_node-Kept env t r s k in
      elim (Bool-cases (leb_ℤ start (pos (unix (s.heap r).timestamp)))) [
        | inr e ↦ rw (e, candidates) k
        | inl e ↦ elim (Result-cases (get_prev_node_from_node env r s).0) [
          | inr (x, f) ↦ rw (e, f, candidates) kept
          | inl (p, f) ↦
              rw (e, f, candidates) (bind_all Q _ _ (candidates-Kept fuel p start _ kept) λ _ k. k)
        ]
      ]

  add_bit-Kept :
      (round modifier : ℕ) (chosen : Chosen) (s : BlockChain S)
      → Q s
      → Q (add_bit double_sha256 env params round modifier chosen s).1
  unfolding add_bit
  add_bit-Kept round modifier none s k = k
  add_bit-Kept round modifier (some (h, r)) s k = k

  select_rounds-Kept :
      (n round : ℕ) (sorted : List BlockTimeHash) (selected : List ℕ) (stop : ℤ) (prev modifier : ℕ)
      (s : BlockChain S)
      → Q s
      → Q (select_rounds double_sha256 env params n round sorted selected stop prev modifier s).1
  unfolding select_rounds
  select_rounds-Kept zero round sorted selected stop prev modifier s k = k
  select_rounds-Kept (suc n) round sorted selected stop prev modifier s k =
      bind_all Q _ _ (select_block-Kept sorted selected _ prev none s k) λ chosen k.
        bind_all Q _ _ (add_bit-Kept round modifier chosen _ k)
          λ modifier' k. select_rounds-Kept n (suc round) sorted _ _ prev modifier' _ k

  finish-Kept :
      (outcome : Result (Unit {0})) (modifier : ℕ) (s : BlockChain S)
      → Q s
      → Q (finish double_sha256 env params outcome modifier s).1
  unfolding finish
  finish-Kept (ok _) modifier s k = k
  finish-Kept (err e) modifier s k = k

  generate-Kept :
      (p prev : ℕ) (s : BlockChain S) → Q s → Q (generate double_sha256 env params p prev s).1
  unfolding generate after_candidates
  generate-Kept p prev s k = bind_all Q _ _ (candidates-Kept _ (some p) _ s k) λ (items, outcome) k.
      bind_all Q _ _ (select_rounds-Kept _ 0 _ [] _ prev 0 _ k)
        λ modifier k. finish-Kept outcome modifier _ k

  after_last-Kept :
      (block : Block) (p : ℕ) (last : ℕ × ℕ) (s : BlockChain S)
      → Q s
      → Q (after_last double_sha256 env params block p last s).1
  unfolding after_last
  after_last-Kept block p (modifier, time) s k =
      let interval = params.modifier_interval in
      let current = unix block.header.timestamp in
      elim (Bool-cases (interval == 0)) [
        | inl e ↦ rw (e, after_last) k
        | inr e ↦ elim (Bool-cases (leb (unix (s.heap p).timestamp / interval) (time / interval))) [
          | inl f ↦ rw (e, f, after_last) k
          | inr f ↦
              elim (Bool-cases
                (leb (current / interval) (time / interval) && is_protocol_v04 params current)) [
                  | inl g ↦ rw (e, f, g, after_last) k
                  | inr g ↦ rw (e, f, g, after_last) (generate-Kept p modifier s k)
                ]
        ]
      ]

  after_prev-Kept :
      (block : Block) (prev : Option ℕ) (s : BlockChain S)
      → Q s
      → Q (after_prev double_sha256 env params block prev s).1
  unfolding after_prev
  after_prev-Kept block none s k = k
  after_prev-Kept block (some p) s k =
      bind_all Q _ _ (get_last-Kept _ (some p) s k) λ last k. after_last-Kept block p last _ k

  pub compute_next-Kept :
      (block : Block) (s : BlockChain S)
      → Q s
      → Q (compute_next_stake_modifier double_sha256 env params block s).1
  unfolding compute_next_stake_modifier
  compute_next-Kept block s k =
      bind_all Q _ _ (get_prev_node_from_block-Kept env t block s k)
        λ prev k. after_prev-Kept block prev _ k

module _ (packages : Packages) (stake : StakePackages) (params : StakeParams) {S : Type 0}
    (env : Env S) (txs : TxDb S) where
  check_stake-Kept :
      (t : BlockChain S) (adjusted : ℕ) (block : Block) (s : BlockChain S)
      → Kept env s t
      → Kept env (check_block_proof_of_stake packages stake params env txs adjusted block s).1 t
  unfolding check_block_proof_of_stake
  check_stake-Kept t adjusted block s k =
      elim (Bool-cases (packages.msg_block_is_proof_of_stake block)) [
        | inr e ↦ rw (e, check_block_proof_of_stake) k
        | inl e ↦ elim (Option-cases (get_elem? block.transactions 1)) [
          | inl f ↦ rw (e, f, check_block_proof_of_stake) k
          | inr (tx, f) ↦ rw (e, f, check_block_proof_of_stake) k
        ]
      ]

  add_checksum-Kept :
      (t : BlockChain S) (block : Block) (checksum : ℕ) (s : BlockChain S)
      → Kept env s t
      → Kept env (add_checksum packages stake params env txs block checksum s).1 t
  unfolding add_checksum
  add_checksum-Kept t block checksum s k =
      elim (Bool-cases
        (check_stake_modifier_checkpoints packages stake params env txs block.height checksum)) [
          | inl e ↦ rw (e, add_checksum) k
          | inr e ↦ rw (e, add_checksum) k
        ]

  add_to_block_index-Kept :
      (t : BlockChain S) (block : Block) (s : BlockChain S)
      → Kept env s t
      → Kept env (add_to_block_index packages stake params env txs block s).1 t
  unfolding add_to_block_index get_stake_modifier_checksum
  add_to_block_index-Kept t block s k =
      let R : BlockChain S → Type 0 = λ x. Kept env x t in
      bind_all R _ _ (compute_next-Kept stake.double_sha256 env params t _ s k) λ next k.
        bind_all R _ _ (bind_all R _ _ (get_prev_node_from_block-Kept env t _ _ k) λ parent k. k)
          λ checksum k. add_checksum-Kept t _ checksum _ k

  -- What accept.go asks of kernel.go.
  pub stake_kernel-KernelKeeps :
      (net : Net) (adjusted : ℕ)
      → KernelKeeps env net (stake_kernel packages stake params env txs adjusted)
  stake_kernel-KernelKeeps net adjusted = (
    λ block s t k. check_stake-Kept t adjusted block s k,
    λ block s t k. add_to_block_index-Kept t block s k,
  )

  -- A dry run of ProcessBlock with the checks of kernel.go, whatever its result, changes neither the
  -- database nor the end of the main chain nor the orphan pool, and sends no notification.
  pub process_block-Kept :
      (net : Net) (check : Block → Result (Unit {0})) (adjusted now : ℕ) (block : Block)
      (flags : Flags) (s : BlockChain S)
      → flags.dry_run ≡ true
      → Kept env
          (process_block env net
            (stake_kernel packages stake params env txs adjusted)
            check
            now
            block
            flags
            s).1
          s
  process_block-Kept net check adjusted now block flags s dry =
      process_block-dry env net (stake_kernel packages stake params env txs adjusted) check now
        block flags s (stake_kernel-KernelKeeps net adjusted) dry
