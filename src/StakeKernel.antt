-- ===== src/StakeKernel.antt =====
-- The proof of stake of kernel.go: the kernel hash, the check of a block's coinstake, the checksum of
-- the stake modifiers, and AddToBlockIndex; with getStakeEntropyBit of ppcutil.go. The errors of calls
-- are passed on as they are, where the source puts a text around them.
pub mod Keeps
pub mod Hashes
use btcchain.Common.{
  ℕ, zero, suc, ◌+◌, ◌-◌, ◌*◌, ◌/◌, ◌%◌, ◌^◌, Option, none, some, List, [], ◌∷◌, ◌++◌, get_elem?,
  lookup, Bool, true, false, not, ◌==◌, ltb, leb, if◌then◌else◌, Result, ok, err, failure, panic,
  ◌>>=◌, or_panic,
}
use btcchain.Common.Int.{ℤ, pos, int64, ◌+ℤ◌, ◌-ℤ◌, ◌*ℤ◌, ltb_ℤ, leb_ℤ, min_ℤ, euclid_div}
use btcchain.Wire.{OutPoint, Tx, TxIn, Block, Meta, unix}
use btcchain.Difficulty.Compact.{compact_to_big, sha_hash_to_big}
use btcchain.Reward.{coin}
use btcchain.Validate.{Packages}
use btcchain.Validate.Blocks.{is_protocol_v03, little_endian}
use btcchain.TxStore.{TxData, TxStore}
use btcchain.Scripts.{ValidateItem, ScriptOutcome, validate_item}
use btcchain.Chain.State.{BlockNode, BlockChain, Env, M, bind}
use btcchain.Chain.Nodes.{get_prev_node_from_block}
use btcchain.Chain.Lookup.{TxDb, block_at_height, fetch_transaction_store}
use btcchain.Chain.Accept.{Kernel}
use btcchain.StakeModifier.{StakeParams, le_bytes, is_protocol_v04}
use btcchain.StakeModifier.Flags.{
  set_proof_of_stake, set_meta_stake_entropy_bit, set_generated_stake_modifier,
}
use btcchain.StakeModifier.Next.{compute_next_stake_modifier}
use btcchain.StakeModifier.Later.{KernelModifier, get_kernel_stake_modifier}

abbrev pub stake_max_age : ℕ
stake_max_age = 60 * 60 * 24 * 90

-- `if !success`
unfoldable pub accept_kernel : ℕ × Bool → Result ℕ
accept_kernel (hash, true) = ok hash
accept_kernel (hash, false) = err failure

-- What other packages give: btcwire.DoubleSha256 as the hash of some bytes, btcutil.Hash160,
-- Block.TxLoc (where each transaction starts), and btcscript.
pub record StakePackages : Type 0 where
  pub double_sha256 : List ℕ → ℕ
  pub hash160 : List ℕ → List ℕ
  pub tx_loc : Block → List ℕ
  pub run_script : List ℕ → List ℕ → ℕ → Tx → Bool → ScriptOutcome

-- The bytes that the kernel hash is taken of: a modifier of 8 bytes or the bits of 4, and five
-- uint32.
abbrev pub kernel_bytes : List ℕ → ℕ → ℕ → ℕ → ℕ → ℕ → List ℕ
kernel_bytes first time_from offset time_prev index time_tx =
    first
    ++ (le_bytes 4 time_from
        ++ (le_bytes 4 offset
            ++ (le_bytes 4 time_prev ++ (le_bytes 4 index ++ le_bytes 4 time_tx))))

module _ (packages : Packages) (stake : StakePackages) (params : StakeParams) where
  open packages use {is_coin_stake, msg_block_is_proof_of_stake}
  open stake use {double_sha256, hash160, tx_loc, run_script}
  open params use {is_testnet3, stake_min_age, stake_modifier_checkpoints}

  unfoldable pub get_stake_entropy_bit : Block → ℕ
  get_stake_entropy_bit block =
      if is_protocol_v04 params (unix block.header.timestamp)
      then sha_hash_to_big block.sha % 2
      else (little_endian (hash160 block.signature) / 2 ^ 159) % 2 ^ 32

  -- nTimeWeight: the age from the minimum on (v0.3), or all of it, at most 90 days.
  unfoldable pub time_weight : ℕ → ℕ → ℤ
  time_weight time_tx time_prev = int64 (
      min_ℤ (int64 (pos time_tx -ℤ pos time_prev)) (pos stake_max_age)
      -ℤ (if is_protocol_v03 is_testnet3 time_tx then pos stake_min_age else pos 0))

  -- The age of the coins in coin-days, and the target that it gives.
  unfoldable pub coin_day_weight : ℤ → ℤ → ℤ
  coin_day_weight value weight =
      euclid_div (euclid_div (value *ℤ weight) (pos coin)) (pos (24 * 60 * 60))

  -- The hash meets the target.
  unfoldable pub meets_target : ℕ → ℕ → ℤ → ℤ → Bool
  meets_target hash bits value weight =
      leb_ℤ (pos (sha_hash_to_big hash)) (coin_day_weight value weight *ℤ compact_to_big bits)

  module _ {S : Type 0} (env : Env S) (txs : TxDb S) where
    -- The start of the bytes: the modifier (v0.3), or the bits.
    unfoldable pub kernel_start : ℕ → Block → ℕ → ℕ → Bool → BlockChain S → Result (List ℕ)
    kernel_start bits block_from time_tx adjusted print s =
        if is_protocol_v03 is_testnet3 time_tx
        then (get_kernel_stake_modifier env params s block_from.sha adjusted print >>= λ k.
            ok (le_bytes 8 k.modifier))
        else ok (le_bytes 4 bits)

    -- The kernel hash, and whether it meets the target. Times are in seconds.
    unfoldable pub check_stake_kernel_hash :
        ℕ → Block → ℕ → Tx → OutPoint → ℕ → ℕ → Bool → BlockChain S → Result (ℕ × Bool)
    check_stake_kernel_hash bits block_from offset tx_prev prevout time_tx adjusted print s =
        let time_prev = unix tx_prev.time in
        let time_from = unix block_from.header.timestamp in
        elim (ltb time_tx time_prev) [
          | true ↦ err failure
          | false ↦ elim (ltb_ℤ (pos time_tx) (int64 (pos time_from +ℤ pos stake_min_age))) [
            | true ↦ err failure
            | false ↦ or_panic (get_elem? tx_prev.tx_out prevout.index) >>= λ out.
                kernel_start bits block_from time_tx adjusted print s >>= λ first.
                let hash =
                  double_sha256
                    (kernel_bytes first time_from offset time_prev prevout.index time_tx) in
                ok (hash, meets_target hash bits out.value (time_weight time_tx time_prev))
          ]
        ]

    -- verifySignature, for input 0: the validator runs one item.
    unfoldable pub verify_signature : TxStore → TxIn → Tx → Result (Unit {0})
    verify_signature store tx_in tx =
        validate_item run_script store true (record { tx_in_index = 0; tx_in = tx_in; tx = tx })

    -- The loop for the transaction that the kernel spends, at place i of its block.
    unfoldable pub check_kernel_among :
        ℕ → Block → TxIn → ℕ → ℕ → ℕ → List Tx → BlockChain S → Result ℕ
    check_kernel_among bits block tx_in time_tx adjusted i [] s = err failure
    check_kernel_among bits block tx_in time_tx adjusted i (tx_prev ∷ later) s =
        elim (tx_prev.sha == tx_in.previous_out_point.hash) [
          | false ↦ check_kernel_among bits block tx_in time_tx adjusted (suc i) later s
          | true ↦ or_panic (get_elem? (tx_loc block) i) >>= λ offset.
              check_stake_kernel_hash bits block (offset % 2 ^ 32) tx_prev tx_in.previous_out_point
                time_tx adjusted true s
              >>= accept_kernel
        ]

    -- After the transaction that is spent is found, at a height.
    unfoldable pub check_found : Tx → TxIn → ℕ → ℕ → TxStore → TxData → BlockChain S → Result ℕ
    check_found tx tx_in adjusted bits store entry s = elim (verify_signature store tx_in tx) [
      | err e ↦ err failure
      | ok _ ↦ block_at_height env s.db entry.block_height >>= λ block.
          check_kernel_among bits block tx_in (unix tx.time) adjusted 0 block.transactions s
    ]

    unfoldable pub check_tx_proof_of_stake : Tx → ℕ → ℕ → BlockChain S → Result ℕ
    check_tx_proof_of_stake tx adjusted bits s = elim (is_coin_stake tx) [
      | false ↦ err failure
      | true ↦ or_panic (get_elem? tx.tx_in 0) >>= λ tx_in.
          let store = fetch_transaction_store env txs tx s in
          elim (lookup tx_in.previous_out_point.hash store) [
            | none ↦ err failure
            | some entry ↦ check_found tx tx_in adjusted bits store entry s
          ]
    ]

    abbrev pub mark_stake : ℕ → Block → Block
    mark_stake hash block = record block {
      meta = record (set_proof_of_stake true block.meta) { hash_proof_of_stake = hash };
    }

    unfoldable pub check_block_proof_of_stake : ℕ → Block → M S Block
    check_block_proof_of_stake adjusted block s = elim (msg_block_is_proof_of_stake block) [
      | false ↦ (ok block, s)
      | true ↦ elim (get_elem? block.transactions 1) [
        | none ↦ (err failure, s)
        | some tx ↦ (
          check_tx_proof_of_stake tx adjusted block.header.bits s >>= λ hash.
              ok (mark_stake hash block),
          s,
        )
      ]
    ]

    -- The bytes of the parent's checksum; none for the genesis block.
    abbrev pub checksum_start : BlockChain S → Option ℕ → List ℕ
    checksum_start s none = []
    checksum_start s (some p) = le_bytes 4 ((s.heap p).meta).stake_modifier_checksum

    abbrev pub checksum_of : List ℕ → Meta → ℕ
    checksum_of first meta =
        (double_sha256 (
            first
            ++ (le_bytes 4 meta.flags
                ++ (le_bytes 32 meta.hash_proof_of_stake ++ le_bytes 8 meta.stake_modifier)))
          / 2 ^ (256 - 32))
        % 2 ^ 32

    unfoldable pub get_stake_modifier_checksum : Block → M S ℕ
    get_stake_modifier_checksum block s =
        bind (get_prev_node_from_block env block s)
          λ parent s'. (ok (checksum_of (checksum_start s' parent) block.meta), s')

    unfoldable pub check_stake_modifier_checkpoints : ℕ → ℕ → Bool
    check_stake_modifier_checkpoints height checksum =
        if is_testnet3 then true else elim (lookup height stake_modifier_checkpoints) [
          | none ↦ true
          | some checkpoint ↦ checksum == checkpoint
        ]

    abbrev pub with_modifier : ℕ × Bool → Block → Block
    with_modifier (modifier, generated) block = record block {
      meta =
          set_generated_stake_modifier generated
            (record (block.meta) { stake_modifier = modifier });
    }

    unfoldable pub add_checksum : Block → ℕ → M S Block
    add_checksum block checksum s =
        if check_stake_modifier_checkpoints block.height checksum
        then (
          ok (record block { meta = record (block.meta) { stake_modifier_checksum = checksum } }),
          s,
        )
        else (err failure, s)

    unfoldable pub add_to_block_index : Block → M S Block
    add_to_block_index given s =
        let block : Block = record given {
          meta = set_meta_stake_entropy_bit (get_stake_entropy_bit given) given.meta;
        } in
        bind (compute_next_stake_modifier double_sha256 env params block s) λ next s'.
          bind (get_stake_modifier_checksum (with_modifier next block) s')
            (add_checksum (with_modifier next block))

    -- The operations that accept.go calls.
    abbrev pub stake_kernel : ℕ → Kernel S
    stake_kernel adjusted = record {
      check_block_proof_of_stake = check_block_proof_of_stake adjusted;
      add_to_block_index = add_to_block_index;
    }
