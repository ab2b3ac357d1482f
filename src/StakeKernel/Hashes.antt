-- ===== src/StakeKernel/Hashes.antt =====
-- What a proof of stake that passes has shown.
use btcchain.Common.{
  ℕ, suc, ◌%◌, ◌^◌, ◌≤◌, ◌≡◌, refl, ◌∙◌, ap, subst, arith, inl, inr, some, List, [], ◌∷◌, get_elem?,
  lookup, Bool, true, false, ◌==◌, ltb, Bool-cases, Option-cases, ok, Result-cases, >>=-ok_then,
  ok_inj, or_panic, or_panic-eq, ==_iff,
}
use btcchain.Common.Int.{pos, int64, ◌+ℤ◌, ◌*ℤ◌, ◌≤ℤ◌, ltb_ℤ}
use btcchain.Wire.{OutPoint, Tx, TxIn, TxOut, Block, unix}
use btcchain.Difficulty.Compact.{compact_to_big, sha_hash_to_big}
use btcchain.Validate.{Packages}
use btcchain.TxStore.{TxData}
use btcchain.Chain.State.{BlockChain, Env}
use btcchain.Chain.Lookup.{TxDb, block_at_height, fetch_transaction_store}
use btcchain.StakeModifier.{StakeParams}
use btcchain.StakeKernel.{
  StakePackages, time_weight, coin_day_weight, meets_target, kernel_start, accept_kernel,
  check_stake_kernel_hash, verify_signature, check_kernel_among, check_found,
  check_tx_proof_of_stake,
}

module _ (packages : Packages) (stake : StakePackages) (params : StakeParams) {S : Type 0}
    (env : Env S) (txs : TxDb S) where
  -- The hash is at most the target for one coin-day times the coin-days of the output.
  abbrev pub IsLow : ℕ → ℕ → Tx → TxOut → ℕ → Type 0
  IsLow bits time_tx tx_prev out hash = pos (sha_hash_to_big hash) ≤ℤ (
      coin_day_weight packages stake params out.value
        (time_weight packages stake params time_tx (unix tx_prev.time))
      *ℤ compact_to_big bits)

  meets_target-IsLow :
      (bits time_tx : ℕ) (tx_prev : Tx) (out : TxOut) (hash : ℕ)
      → meets_target packages stake params hash bits out.value
          (time_weight packages stake params time_tx (unix tx_prev.time))
        ≡ true
      → IsLow bits time_tx tx_prev out hash
  unfolding meets_target
  meets_target-IsLow bits time_tx tx_prev out hash h = ground arith

  -- The output is old enough, and the hash is at most the target for one coin-day times the coin-days
  -- of the output.
  pub record IsKernel (bits : ℕ) (block_from : Block) (tx_prev : Tx) (prevout : OutPoint)
      (time_tx hash : ℕ) : Type 0 where
    pub out : TxOut
    pub has_out : get_elem? tx_prev.tx_out prevout.index ≡ some out
    pub after : unix tx_prev.time ≤ time_tx
    pub aged :
        ltb_ℤ
          (pos time_tx)
          (int64 (pos (unix block_from.header.timestamp) +ℤ pos params.stake_min_age))
        ≡ false
    pub low : IsLow bits time_tx tx_prev out hash

  check_stake_kernel_hash-IsKernel :
      (bits : ℕ) (block_from : Block) (offset : ℕ) (tx_prev : Tx) (prevout : OutPoint)
      (time_tx adjusted : ℕ) (print : Bool) (s : BlockChain S) (hash : ℕ)
      → check_stake_kernel_hash packages stake params env txs bits block_from offset tx_prev prevout
          time_tx adjusted print s
        ≡ ok (hash, true)
      → IsKernel bits block_from tx_prev prevout time_tx hash
  unfolding check_stake_kernel_hash
  check_stake_kernel_hash-IsKernel bits block_from offset tx_prev prevout time_tx adjusted print s
        hash =
      elim (Bool-cases (ltb time_tx (unix tx_prev.time))) [
        | inl e ↦ rw (e, check_stake_kernel_hash) (λ h. absurd (cc))
        | inr e ↦
            elim (Bool-cases (
              ltb_ℤ (pos time_tx)
                (int64 (pos (unix block_from.header.timestamp) +ℤ pos params.stake_min_age)))) [
                  | inl f ↦ rw (e, f, check_stake_kernel_hash) (λ h. absurd (cc))
                  | inr f ↦
                      rw (e, f, check_stake_kernel_hash)
                        (>>=-ok_then (or_panic (get_elem? tx_prev.tx_out prevout.index)) _
                          λ out is_out.
                            >>=-ok_then
                              (kernel_start packages stake params env txs bits block_from time_tx
                                adjusted print s)
                              _
                              λ first _ done. record {
                                out = out;
                                has_out = or_panic-eq _ out is_out;
                                after = ground arith;
                                aged = f;
                                low =
                                    subst (IsLow bits time_tx tx_prev out)
                                      (ap (λ x. x.0) (ok_inj done))
                                      (meets_target-IsLow bits time_tx tx_prev out _
                                        (ap (λ x. x.1) (ok_inj done)));
                              })
                ]
      ]

  accept_kernel-eq :
      (checked : ℕ × Bool) (hash : ℕ) → accept_kernel checked ≡ ok hash → checked ≡ (hash, true)
  unfolding accept_kernel
  accept_kernel-eq (h, true) hash e = ap (λ x. (x, true)) (ok_inj e)
  accept_kernel-eq (h, false) hash e = absurd (cc)

  check_kernel_among-IsKernel :
      (bits : ℕ) (block : Block) (tx_in : TxIn) (time_tx adjusted i hash : ℕ) (later : List Tx)
      (s : BlockChain S)
      → check_kernel_among packages stake params env txs bits block tx_in time_tx adjusted i later s
        ≡ ok hash
      → (tx_prev : Tx) × (j : ℕ) × (get_elem? later j ≡ some tx_prev)
        × (tx_prev.sha ≡ tx_in.previous_out_point.hash)
        × IsKernel bits block tx_prev tx_in.previous_out_point time_tx hash
  unfolding check_kernel_among
  check_kernel_among-IsKernel bits block tx_in time_tx adjusted i hash [] s = λ h. absurd (cc)
  check_kernel_among-IsKernel bits block tx_in time_tx adjusted i hash (tx_prev ∷ later) s =
      elim (Bool-cases (tx_prev.sha == tx_in.previous_out_point.hash)) [
        | inr e ↦
            rw (e, check_kernel_among)
              (λ h.
                let (found, j, at, same, kernel) =
                  check_kernel_among-IsKernel bits block tx_in time_tx adjusted (suc i) hash later s
                    h in
                (found, suc j, at, same, kernel))
        | inl e ↦
            rw (e, check_kernel_among)
              (>>=-ok_then (or_panic (get_elem? (stake.tx_loc block) i)) _ λ offset _.
                >>=-ok_then
                  (check_stake_kernel_hash packages stake params env txs bits block
                    (offset % 2 ^ 32) tx_prev tx_in.previous_out_point time_tx adjusted true s)
                  _
                  λ checked is_checked accepted. (
                    tx_prev,
                    0,
                    refl,
                    (==_iff tx_prev.sha tx_in.previous_out_point.hash).0 e,
                    check_stake_kernel_hash-IsKernel bits block _ tx_prev tx_in.previous_out_point
                        time_tx adjusted true s hash
                        (is_checked ∙ ap ok (accept_kernel-eq checked hash accepted)),
                  ))
      ]

  -- A proof of stake: the first input of a coinstake, what the database says of its origin, the block
  -- that holds it, and the kernel.
  pub record IsStaked (tx : Tx) (bits hash : ℕ) (s : BlockChain S) : Type 0 where
    pub coin_stake : packages.is_coin_stake tx ≡ true
    pub tx_in : TxIn
    pub first : get_elem? tx.tx_in 0 ≡ some tx_in
    pub entry : TxData
    pub known :
        lookup tx_in.previous_out_point.hash (fetch_transaction_store env txs tx s) ≡ some entry
    pub signed :
        verify_signature packages stake params env txs
          (fetch_transaction_store env txs tx s)
          tx_in
          tx
        ≡ ok tt
    pub block : Block
    pub at_height : block_at_height env s.db entry.block_height ≡ ok block
    pub tx_prev : Tx
    pub place : ℕ
    pub in_block : get_elem? block.transactions place ≡ some tx_prev
    pub spent : tx_prev.sha ≡ tx_in.previous_out_point.hash
    pub kernel : IsKernel bits block tx_prev tx_in.previous_out_point (unix tx.time) hash

  staked :
      (tx : Tx) (tx_in : TxIn) (adjusted bits hash : ℕ) (entry : TxData) (s : BlockChain S)
      → packages.is_coin_stake tx ≡ true
      → or_panic (get_elem? tx.tx_in 0) ≡ ok tx_in
      → lookup tx_in.previous_out_point.hash (fetch_transaction_store env txs tx s) ≡ some entry
      → check_found packages stake params env txs tx tx_in adjusted bits
          (fetch_transaction_store env txs tx s)
          entry
          s
        ≡ ok hash
      → IsStaked tx bits hash s
  unfolding check_found
  staked tx tx_in adjusted bits hash entry s coin_stake is_in known =
      let store = fetch_transaction_store env txs tx s in
      elim (Result-cases (verify_signature packages stake params env txs store tx_in tx)) [
        | inr (x, e) ↦ rw (e, check_found) (λ h. absurd (cc))
        | inl (u, e) ↦
            rw (e, check_found)
              (>>=-ok_then (block_at_height env s.db entry.block_height) _ λ block is_block h.
                let (tx_prev, place, in_block, spent, kernel) =
                  check_kernel_among-IsKernel bits block tx_in (unix tx.time) adjusted 0 hash
                    block.transactions s h in
                record {
                  coin_stake = coin_stake;
                  tx_in = tx_in;
                  first = or_panic-eq _ tx_in is_in;
                  entry = entry;
                  known = known;
                  signed = e;
                  block = block;
                  at_height = is_block;
                  tx_prev = tx_prev;
                  place = place;
                  in_block = in_block;
                  spent = spent;
                  kernel = kernel;
                })
      ]

  -- Where checkTxProofOfStake succeeds, the transaction is a coinstake, its first input is signed and
  -- spends an output of a transaction of the main chain that is old enough, and the hash it gives is
  -- at most the target for the output's coin-days.
  pub check_tx_proof_of_stake-IsStaked :
      (tx : Tx) (adjusted bits hash : ℕ) (s : BlockChain S)
      → check_tx_proof_of_stake packages stake params env txs tx adjusted bits s ≡ ok hash
      → IsStaked tx bits hash s
  unfolding check_tx_proof_of_stake
  check_tx_proof_of_stake-IsStaked tx adjusted bits hash s =
      elim (Bool-cases (packages.is_coin_stake tx)) [
        | inr e ↦ rw (e, check_tx_proof_of_stake) (λ h. absurd (cc))
        | inl e ↦
            rw (e, check_tx_proof_of_stake)
              (>>=-ok_then (or_panic (get_elem? tx.tx_in 0)) _ λ tx_in is_in.
                elim (Option-cases
                  (lookup tx_in.previous_out_point.hash (fetch_transaction_store env txs tx s))) [
                    | inl f ↦ rw f (λ h. absurd (cc))
                    | inr (entry, f) ↦ rw f (staked tx tx_in adjusted bits hash entry s e is_in f)
                  ])
      ]
