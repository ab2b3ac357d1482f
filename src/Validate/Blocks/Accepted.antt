-- ===== src/Validate/Blocks/Accepted.antt =====
-- What checkBlockSanity (validate.go) accepts.
use btcchain.Common.{
  ℕ, ◌+◌, ◌*◌, ◌%◌, ◌^◌, ◌≤◌, ◌<◌, ◌≡◌, ◌≢◌, ◌↔◌, refl, ap, arith, ◌==◌, if◌then◌else◌, Bool, true,
  false, not, ◌&&◌, Option, none, some, List, [], ◌∷◌, map, All, any, length, drop, take, last?, ok,
  err, >>_iff, >>_iff_after, reject_if, reject_if_iff, reject_iff, any_none, All-pair,
  no_transactions, too_many_transactions, block_too_big, invalid_time, time_too_new,
  first_tx_not_coinbase, multiple_coinbases, bad_merkle_root, panic, duplicate_tx,
  unexpected_difficulty, high_hash, length-map,
}
use btcchain.Common.Int.{ℤ, pos, ◌≤ℤ◌, ltb_ℤ, ltb_ℤ_iff, leb_ℤ_iff}
use btcchain.Wire.{Tx, Block, nano}
use btcchain.Difficulty.Compact.{compact_to_big, sha_hash_to_big}
use btcchain.Merkle.{build_merkle_tree_store, next_power_of_two}
use btcchain.Merkle.Store.{merkle_root, root_at, build_merkle_tree_store-root}
use btcchain.Validate.{Packages, is_coin_base}
use btcchain.Validate.Sanity.{IsSane, nonempty_iff, fits_iff, check_transaction_sanity_iff}
use btcchain.Validate.Blocks.{
  check_proof_of_work, check_transactions, check_merkle_root, check_duplicate_txs, check_sig_ops,
  ppc_check_block_sanity, check_block_sanity,
}

-- The target is positive and at most the limit, and the hash is at most the target unless the flag
-- is set.
abbrev pub HasWork : Block → ℤ → Bool → Type 0
HasWork block pow_limit no_pow_check =
    (pos 1 ≤ℤ compact_to_big block.header.bits)
    × ((compact_to_big block.header.bits ≤ℤ pow_limit)
        × (no_pow_check ≡ false
            → pos (sha_hash_to_big block.sha) ≤ℤ compact_to_big block.header.bits))

hash_iff :
    (no_check : Bool) (target : ℤ) (hash : ℕ)
    → ((not no_check && ltb_ℤ target (pos hash)) ≡ false) ↔ (no_check ≡ false → pos hash ≤ℤ target)
hash_iff true target hash = (λ _ e. absurd (cc), λ _. refl)
hash_iff false target hash =
    let (to, from) = ltb_ℤ_iff target (pos hash) in (λ h _. to h, λ h. from (h refl))

-- checkProofOfWork accepts exactly the blocks whose target, from the bits, is positive and at most
-- the limit, and whose hash is at most the target unless BFNoPoWCheck is set.
pub check_proof_of_work_iff :
    (block : Block) (pow_limit : ℤ) (no_pow_check : Bool)
    → (check_proof_of_work block pow_limit no_pow_check ≡ ok tt)
      ↔ HasWork block pow_limit no_pow_check
unfolding check_proof_of_work
check_proof_of_work_iff block pow_limit no_pow_check =
    let target = compact_to_big block.header.bits in
    >>_iff _ _ (reject_iff _ unexpected_difficulty (leb_ℤ_iff target)) (
      >>_iff _ _ (reject_iff _ unexpected_difficulty (ltb_ℤ_iff pow_limit target))
        (reject_iff _ high_hash (hash_iff no_pow_check target (sha_hash_to_big block.sha))))

check_transactions_iff :
    (packages : Packages) (txs : List Tx)
    → packages.max_satoshi < 2 ^ 62
    → (check_transactions packages txs ≡ ok tt) ↔ All (IsSane packages) txs
unfolding check_transactions
check_transactions_iff packages [] small = (λ _. tt, λ _. refl)
check_transactions_iff packages (tx ∷ txs) small =
    >>_iff _ _ (check_transaction_sanity_iff packages tx small)
      (check_transactions_iff packages txs small)

-- No two of the transactions have one hash.
abbrev pub AreUnique : List Tx → Type 0
AreUnique [] = Unit
AreUnique (tx ∷ txs) = All (λ later. tx.sha ≢ later.sha) txs × AreUnique txs

other_sha_iff : (sha h : ℕ) → ((h == sha) ≡ false) ↔ (h ≢ sha)
other_sha_iff sha h = (λ e. ground arith, λ e. ground arith)

check_duplicate_txs_iff :
    (existing : List ℕ) (txs : List Tx)
    → (check_duplicate_txs existing txs ≡ ok tt)
      ↔ (All (λ tx. All (λ h. h ≢ tx.sha) existing) txs × AreUnique txs)
unfolding check_duplicate_txs
check_duplicate_txs_iff existing [] = (λ _. (tt, tt), λ _. refl)
check_duplicate_txs_iff existing (tx ∷ txs) =
    let fresh = any_none (λ h. h == tx.sha) (other_sha_iff tx.sha) existing in
    let rest = check_duplicate_txs_iff (tx.sha ∷ existing) txs in
    let (to, from) = >>_iff _ _ (reject_iff _ duplicate_tx fresh) rest in
    let (part, join) =
      All-pair (λ later. tx.sha ≢ later.sha) (λ later. All (λ h. h ≢ later.sha) existing) txs in
    (
      λ h.
          let (new, (all_new, unique)) = to h in
          let (apart, old) = part all_new in ((new, old), (apart, unique)),
      λ ((new, old), (apart, unique)). from (new, (join (apart, old), unique)),
    )

no_old : (txs : List Tx) → All (λ tx. All (λ h. h ≢ tx.sha) []) txs
no_old [] = tt
no_old (tx ∷ txs) = (tt, no_old txs)

unique_iff : (txs : List Tx) → (check_duplicate_txs [] txs ≡ ok tt) ↔ AreUnique txs
unique_iff txs =
    let (to, from) = check_duplicate_txs_iff [] txs in (λ h. (to h).1, λ h. from (no_old txs, h))

-- The header's root is that of pairwise hashing to the depth of the next power of two.
abbrev pub HasMerkleRoot : (ℕ → ℕ → ℕ) → Block → Type 0
HasMerkleRoot hash block =
    let shas = map (λ tx. tx.sha) block.transactions in
    (d : ℕ) × (next_power_of_two (length shas) ≡ 2 ^ d)
    × (length shas ≤ 2 ^ d)
    × (some block.header.merkle_root ≡ merkle_root hash d shas)

root_iff :
    (found : Option ℕ) (stated : ℕ)
    → (elim found [
      | some root ↦ reject_if (not (stated == root)) bad_merkle_root
      | none ↦ err panic
    ]
        ≡ ok tt)
      ↔ (some stated ≡ found)
root_iff none stated = (λ h. absurd (cc), λ h. absurd (cc))
root_iff (some root) stated =
    let (to, from) = reject_if_iff (not (stated == root)) bad_merkle_root in
    (
      λ h. let e : stated ≡ root = (let t = to h in ground arith) in ap some e,
      λ h. from (let e : stated ≡ root = cc in ground arith),
    )

last_root_iff :
    (hash : ℕ → ℕ → ℕ) (block : Block) (found : Option ℕ)
    → last? (build_merkle_tree_store hash (map (λ tx. tx.sha) block.transactions)) ≡ some found
    → (check_merkle_root hash block ≡ ok tt) ↔ (some block.header.merkle_root ≡ found)
unfolding check_merkle_root
last_root_iff hash block found e =
    rw (e, check_merkle_root) (root_iff found block.header.merkle_root)

check_merkle_root_iff :
    (hash : ℕ → ℕ → ℕ) (block : Block)
    → 0 < length block.transactions
    → (check_merkle_root hash block ≡ ok tt) ↔ HasMerkleRoot hash block
check_merkle_root_iff hash block positive =
    let shas = map (λ tx. tx.sha) block.transactions in
    let some_tx : 0 < length shas = omega (arith, length-map (λ tx. tx.sha) block.transactions) in
    let (d, e, h, _, root) = build_merkle_tree_store-root hash shas some_tx in
    (
      λ accepted. (d, e, h, (last_root_iff hash block _ root).0 accepted),
      λ (d, e, h, same). (last_root_iff hash block _ (root_at hash d shas e h)).1 same,
    )

whole_iff : (t : ℕ) → (not (t % nano == 0) ≡ false) ↔ (t % nano ≡ 0)
whole_iff t = (λ e. ground arith, λ e. ground arith)

not_iff : (b : Bool) → (not b ≡ false) ↔ (b ≡ true)
not_iff true = (λ _. refl, λ _. refl)
not_iff false = (λ h. absurd (cc), λ h. absurd (cc))

module _ (packages : Packages) (hash : ℕ → ℕ → ℕ) (testnet : Bool) (genesis_hash : ℕ)
    (pow_limit : ℤ) (adjusted_time : ℕ) (no_pow_check : Bool) where
  open packages use {max_block_payload, max_satoshi, msg_block_is_proof_of_stake}

  -- A proof-of-stake block needs no work here.
  abbrev pub WorkOrStake : Block → Type 0
  WorkOrStake block =
      msg_block_is_proof_of_stake block ≡ false → HasWork block pow_limit no_pow_check

  needs_work_iff :
      (block : Block)
      → ((if msg_block_is_proof_of_stake block
            then ok tt
            else check_proof_of_work block pow_limit no_pow_check)
          ≡ ok tt)
        ↔ WorkOrStake block
  needs_work_iff block =
      elim (msg_block_is_proof_of_stake block)
        as (λ b.
          ((if b then ok tt else check_proof_of_work block pow_limit no_pow_check) ≡ ok tt)
          ↔ (b ≡ false → HasWork block pow_limit no_pow_check)) [
            | true ↦ (λ _ e. absurd (cc), λ _. refl)
            | false ↦
                let (to, from) = check_proof_of_work_iff block pow_limit no_pow_check in
                (λ h _. to h, λ h. from (h refl))
          ]

  -- What a block has to be, apart from the chain; the last two parts are the counts of signature
  -- operations and Peercoin's own checks.
  abbrev pub IsSaneBlock : Block → Type 0
  IsSaneBlock block =
      (0 < length block.transactions)
      × ((length block.transactions ≤ max_block_payload)
          × ((block.size ≤ max_block_payload)
              × (WorkOrStake block
                  × ((block.header.timestamp % nano ≡ 0)
                      × ((block.header.timestamp ≤ adjusted_time + 2 * 60 * 60 * nano)
                          × ((any is_coin_base (take 1 block.transactions) ≡ true)
                              × (All (λ tx. is_coin_base tx ≡ false) (drop 1 block.transactions)
                                  × (All (IsSane packages) block.transactions
                                      × (HasMerkleRoot hash block
                                          × (AreUnique block.transactions
                                              × ((check_sig_ops packages (pos 0) block.transactions
                                                    ≡ ok tt)
                                                  × (ppc_check_block_sanity packages testnet
                                                        genesis_hash block
                                                      ≡ ok tt))))))))))))

  -- checkBlockSanity accepts exactly the blocks that have from one to MaxBlockPayload transactions,
  -- fit into the payload, have their proof of work unless they are proof-of-stake, a timestamp of
  -- whole seconds at most two hours ahead, a coinbase first and nowhere else, sane transactions of
  -- distinct hashes, the header's merkle root, and pass the count of signature operations and
  -- ppcCheckBlockSanity. (The maximal amount is below 2 ^ 62.)
  pub check_block_sanity_iff :
      (block : Block)
      → max_satoshi < 2 ^ 62
      → (check_block_sanity packages hash testnet genesis_hash pow_limit adjusted_time no_pow_check
            block
          ≡ ok tt)
        ↔ IsSaneBlock block
  unfolding check_block_sanity
  check_block_sanity_iff block small =
      let txs = block.transactions in
      >>_iff_after _ _ (nonempty_iff _ no_transactions) λ positive.
        >>_iff _ _ (fits_iff _ _ too_many_transactions) (
          >>_iff _ _ (fits_iff _ _ block_too_big) (
            >>_iff _ _ (needs_work_iff block) (
              >>_iff _ _ (reject_iff _ invalid_time (whole_iff _)) (
                >>_iff _ _ (fits_iff _ _ time_too_new) (
                  >>_iff _ _ (reject_iff _ first_tx_not_coinbase (not_iff _)) (
                    >>_iff _ _
                      (reject_iff _ multiple_coinbases
                        (any_none is_coin_base (λ tx. (λ h. h, λ h. h)) (drop 1 txs)))
                      (>>_iff _ _ (check_transactions_iff packages txs small) (
                        >>_iff _ _ (check_merkle_root_iff hash block positive) (
                          >>_iff _ _ (unique_iff txs)
                            (>>_iff _ _ (λ h. h, λ h. h) (λ h. h, λ h. h)))))))))))
