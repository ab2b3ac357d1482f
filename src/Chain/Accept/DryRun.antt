-- ===== src/Chain/Accept/DryRun.antt =====
-- A dry run of maybeAcceptBlock (accept.go) changes nothing that matters.
use btcchain.Common.{
  ℕ, ◌≡◌, refl, Option, none, some, Bool, true, false, ◌||◌, Bool-cases, inl, inr, Error, rule,
  proof_of_stake_check, ◌∙◌,
}
use btcchain.Common.Int.{pos, ltb_ℤ, leb_ℤ}
use btcchain.Wire.{Block}
use btcchain.Chain.State.{BlockChain, Env, M, bind_all, unless, send_notification, block_accepted}
use btcchain.Chain.Nodes.{is_majority_version}
use btcchain.Chain.Pruning.{prune_block_nodes}
use btcchain.Chain.Loads.{
  get_prev_node_from_block-Kept, is_majority_version-Kept, ppc_calc_next_required_difficulty-Kept,
  calc_past_median_time-Kept, find_previous_checkpoint-Kept,
}
use btcchain.Chain.Connect.{Flags, connect_best_chain}
use btcchain.Chain.Connect.DryRun.{Kept, connect_best_chain-dry}
use btcchain.Chain.Accept.{
  Net, Kernel, or_rule, check_header, check_old_version, check_coinbase_height, new_node,
  connect_accepted, accept_checked, maybe_accept_block, serialized_height_version,
}

module _ {S : Type 0} (env : Env S) (net : Net) (kernel : Kernel S) where
  -- The operations of kernel.go do no more than load nodes.
  abbrev pub KernelKeeps : Type 0
  KernelKeeps =
      ((block : Block) (s t : BlockChain S)
        → Kept env s t
        → Kept env (kernel.check_block_proof_of_stake block s).1 t)
      × ((block : Block) (s t : BlockChain S)
          → Kept env s t
          → Kept env (kernel.add_to_block_index block s).1 t)

  pub Kept-trans : (a b c : BlockChain S) → Kept env a b → Kept env b c → Kept env a c
  Kept-trans a b c (d, e, n, p) (d', e', n', p') = (d ∙ d', e ∙ e', n ∙ n', p ∙ p')

  module _ (t : BlockChain S) where
    abbrev Q : BlockChain S → Type 0
    Q s = Kept env s t

    check_header-Kept :
        (prev : Option ℕ) (block : Block) (s : BlockChain S)
        → Q s
        → Q (check_header env net kernel prev block s).1
    unfolding check_header
    check_header-Kept prev block s k =
        bind_all Q _ _ (ppc_calc_next_required_difficulty-Kept env t _ prev _ s k) λ _ k.
          bind_all Q _ _ k λ _ k.
            bind_all Q _ _ (calc_past_median_time-Kept env t _ prev _ k)
              λ _ k. bind_all Q _ _ k λ _ k. k

    check_old_version-Kept :
        (prev : Option ℕ) (block : Block) (s : BlockChain S)
        → Q s
        → Q (check_old_version env net kernel prev block s).1
    unfolding check_old_version
    check_old_version-Kept prev block s k = elim (Bool-cases (ltb_ℤ block.header.version (pos 2))) [
      | inr e ↦ rw (e, check_old_version) k
      | inl e ↦ rw (e, check_old_version) (is_majority_version-Kept env t 2 prev _ _ s k)
    ]

    check_coinbase_height-Kept :
        (prev : Option ℕ) (block : Block) (s : BlockChain S)
        → Q s
        → Q (check_coinbase_height env net kernel prev block s).1
    unfolding check_coinbase_height
    check_coinbase_height-Kept prev block s k =
        let kept =
          is_majority_version-Kept env t serialized_height_version prev
            net.coinbase_height_num_required net.coinbase_height_num_to_check s k in
        elim (Bool-cases (leb_ℤ (pos serialized_height_version) block.header.version)) [
          | inr e ↦ rw (e, check_coinbase_height) k
          | inl e ↦
              elim (Bool-cases
                (is_majority_version env serialized_height_version prev
                  net.coinbase_height_num_required net.coinbase_height_num_to_check s).0) [
                    | inr f ↦ rw (e, f, check_coinbase_height) kept
                    | inl f ↦ rw (e, f, check_coinbase_height) (bind_all Q _ _ kept λ _ k. k)
                  ]
        ]

    unless-Kept :
        (b : Bool) (m : M S (Unit {0})) (s : BlockChain S) → Q s → Q (m s).1 → Q (unless b m s).1
    unless-Kept true m s k l = k
    unless-Kept false m s k l = l

    pub unless_skip :
        (b : Bool) (m : M S (Unit {0})) (s : BlockChain S) → b ≡ true → Q s → Q (unless b m s).1
    unless_skip true m s e k = k
    unless_skip false m s e k = absurd (cc)

    new_node-Kept :
        (prev : Option ℕ) (block : Block) (s : BlockChain S)
        → Q s
        → Q (new_node env net kernel prev block s).1
    unfolding new_node
    new_node-Kept none block s k =
        bind_all Q _ _ k
          λ r k. bind_all Q _ _ k λ _ k. bind_all Q _ _ k λ _ k. bind_all Q _ _ k λ _ k. k
    new_node-Kept (some p) block s k =
        bind_all Q _ _ k
          λ r k. bind_all Q _ _ k λ _ k. bind_all Q _ _ k λ _ k. bind_all Q _ _ k λ _ k. k

    or_rule-Kept :
        {A : Type 0} (e : Error) (m : M S A) (s : BlockChain S) → Q (m s).1 → Q (or_rule e m s).1
    unfolding or_rule
    or_rule-Kept e m s k = k

    connect_best-dry :
        (r : ℕ) (block : Block) (flags : Flags) (s : BlockChain S)
        → flags.dry_run ≡ true
        → Q s
        → Q (connect_best_chain env r block flags s).1
    connect_best-dry r block flags s dry k =
        Kept-trans (connect_best_chain env r block flags s).1 s t
          (connect_best_chain-dry env r block flags s dry) k

    connect_accepted-dry :
        (prev : Option ℕ) (block : Block) (flags : Flags) (s : BlockChain S)
        → flags.dry_run ≡ true
        → Q s
        → Q (connect_accepted env net kernel prev block flags s).1
    unfolding connect_accepted
    connect_accepted-dry prev block flags s dry k =
        bind_all Q _ _ (new_node-Kept prev block s k) λ r k.
          bind_all Q _ _ (connect_best-dry r block flags _ dry k)
            λ _ k. unless_skip flags.dry_run (send_notification (block_accepted block)) _ dry k

    accept_checked-dry :
        KernelKeeps
        → (prev : Option ℕ) (block : Block) (flags : Flags) (s : BlockChain S)
        → flags.dry_run ≡ true
        → Q s
        → Q (accept_checked env net kernel prev block flags s).1
    unfolding accept_checked
    accept_checked-dry keeps prev block flags s dry k =
        bind_all Q _ _
          (or_rule-Kept (rule proof_of_stake_check) (kernel.check_block_proof_of_stake block) s
            (keeps.0 block s t k))
          λ checked k. bind_all Q _ _ (keeps.1 checked _ t k) λ indexed k.
            bind_all Q _ _ (unless_skip flags.dry_run (prune_block_nodes env) _ dry k) λ _ k.
              bind_all Q _ _ (keeps.1 indexed _ t k)
                λ final k. connect_accepted-dry prev final flags _ dry k

  -- Where the operations of kernel.go only load nodes, a dry run of maybeAcceptBlock, whether it
  -- accepts the block or not, changes neither the database nor the end of the main chain nor the
  -- orphan pool, and sends no notification.
  pub maybe_accept_block-dry :
      (block : Block) (flags : Flags) (s : BlockChain S)
      → KernelKeeps
      → flags.dry_run ≡ true
      → Kept env (maybe_accept_block env net kernel block flags s).1 s
  unfolding maybe_accept_block
  maybe_accept_block-dry block flags s keeps dry =
      let P : BlockChain S → Type 0 = λ x. Kept env x s in
      bind_all P _ _ (get_prev_node_from_block-Kept env s block s (refl, refl, refl, refl))
        λ prev k. bind_all P _ _ k λ height k.
          bind_all P _ _
            (unless-Kept s flags.fast_add
              (check_header env net kernel prev (record block { height = height })) _ k
              (check_header-Kept s prev _ _ k))
            λ _ k. bind_all P _ _ k λ _ k.
              bind_all P _ _ (find_previous_checkpoint-Kept env s _ _ k) λ checkpoint k.
                bind_all P _ _ k λ _ k.
                  bind_all P _ _
                    (unless-Kept s (flags.fast_add || net.is_testnet3)
                      (check_old_version env net kernel prev (record block { height = height })) _ k
                      (check_old_version-Kept s prev _ _ k))
                    λ _ k.
                      bind_all P _ _
                        (unless-Kept s (flags.fast_add || net.is_testnet3)
                          (check_coinbase_height env net kernel prev
                            (record block { height = height }))
                          _ k (check_coinbase_height-Kept s prev _ _ k))
                        λ _ k. accept_checked-dry s keeps prev _ flags _ dry k
