-- ===== src/Chain/Process.antt =====
-- process.go, and the checks of ppc.go that ProcessBlock calls: duplicates, orphans, acceptance.
-- checkBlockSanity of validate.go is given with its other arguments.
pub mod DryRun
use btcchain.Common.{
  ℕ, zero, suc, ◌+◌, ◌*◌, Option, none, some, List, [], ◌∷◌, ◌++◌, Bool, true, false, not, ◌==◌,
  ltb, ◌||◌, ◌&&◌, any, if◌then◌else◌, length, get_elem?, lookup, Result, ok, err, rule, panic,
  duplicate_block, duplicate_stake, checkpoint_time_too_old, divergence,
}
use btcchain.Wire.{Block, OutPoint, out_point_eq, unix}
use btcchain.Orphans.{
  OrphanBlock, OrphanPool, waiting, orphan_hash, remove_orphan_block, add_orphan_block,
  is_known_orphan,
}
use btcchain.Chain.State.{
  BlockChain, Stake, Env, M, bind, ◌>>=◌, ◌>>◌, pure, ask, unless, require, modify,
}
use btcchain.Chain.Checkpoints.{find_previous_checkpoint}
use btcchain.Chain.Connect.{Flags}
use btcchain.Chain.Accept.{Net, Kernel, maybe_accept_block}

abbrev pub stake_eq : Stake → Stake → Bool
stake_eq a b = out_point_eq a.out_point b.out_point && (a.time == b.time)

-- Stake{}
abbrev pub no_stake : Stake
no_stake = record { out_point = record { hash = 0; index = 0 }; time = 0 }

unfoldable pub get_proof_of_stake_from_block : Net → Block → Result Stake
get_proof_of_stake_from_block net block = elim (net.block_is_proof_of_stake block) [
  | false ↦ ok no_stake
  | true ↦ elim (get_elem? block.transactions 1) [
    | none ↦ err panic
    | some tx ↦ elim (get_elem? tx.tx_in 0) [
      | none ↦ err panic
      | some input ↦ ok (record { out_point = input.previous_out_point; time = unix tx.time })
    ]
  ]
]

abbrev pub add_stake : Stake → List Stake → List Stake
add_stake stake stakes = if any (stake_eq stake) stakes then stakes else stake ∷ stakes

abbrev pub delete_stake : Stake → List Stake → List Stake
delete_stake stake [] = []
delete_stake stake (x ∷ xs) =
    if stake_eq stake x then delete_stake stake xs else x ∷ delete_stake stake xs

module _ {S : Type 0} where
  -- `hasChild`: orphans wait for the block.
  abbrev pub has_child : ℕ → BlockChain S → Bool
  has_child hash s = elim (waiting hash s.pool.prev_orphans) [ [] ↦ false | _ ∷ _ ↦ true ]

  abbrev pub is_duplicate_stake : Stake → ℕ → BlockChain S → Bool
  is_duplicate_stake stake hash s = any (stake_eq stake) s.stake_seen && not (has_child hash s)

  -- ppcProcessBlock before the sanity checks.
  unfoldable pub ppc_process_block : Net → Block → M S (Unit {0})
  ppc_process_block net block s = elim (net.block_is_proof_of_stake block) [
    | false ↦ (ok tt, s)
    | true ↦
        bind (get_proof_of_stake_from_block net block, s)
          λ stake s'.
            require (not (is_duplicate_stake stake block.sha s')) (rule duplicate_stake) s'
  ]

  unfoldable pub ppc_process_orphan : Net → Block → M S (Unit {0})
  ppc_process_orphan net block s = elim (net.block_is_proof_of_stake block) [
    | false ↦ (ok tt, s)
    | true ↦
        bind (get_proof_of_stake_from_block net block, s)
          λ stake s'.
            bind (require (not (is_duplicate_stake stake block.sha s')) (rule duplicate_stake) s')
              λ _ t. (ok tt, record t { stake_seen_orphan = add_stake stake t.stake_seen_orphan })
  ]

  unfoldable pub ppc_orphan_block_removed : Net → Block → M S (Unit {0})
  ppc_orphan_block_removed net block s =
      bind (get_proof_of_stake_from_block net block, s)
        λ stake t. (ok tt, record t { stake_seen_orphan = delete_stake stake t.stake_seen_orphan })

module _ {S : Type 0} (env : Env S) (net : Net) (kernel : Kernel S) where
  open env use {exists_sha}

  unfoldable pub block_exists : ℕ → BlockChain S → Result Bool
  block_exists hash s = elim (lookup hash s.index) [
    | some r ↦ ok true
    | none ↦ exists_sha s.db hash
  ]

  unfoldable pub have_block : ℕ → BlockChain S → Result Bool
  have_block hash s = elim (block_exists hash s) [
    | err e ↦ err e
    | ok exists ↦ ok (is_known_orphan hash s.pool || exists)
  ]

  -- One orphan that waits for an accepted block leaves the pool and is accepted itself.
  unfoldable pub process_orphan : OrphanBlock → Flags → M S (Unit {0})
  process_orphan orphan flags = do
    modify (λ s. record s { pool = remove_orphan_block orphan s.pool })
    ppc_orphan_block_removed net orphan.block
    maybe_accept_block env net kernel orphan.block flags

  -- The two loops of processOrphans, on fuel. The inner index stays at 0: the list at the hash is
  -- read anew in each round, and the orphan that stood first has left it.
  unfoldable pub process_hashes : ℕ → List ℕ → Flags → M S (Unit {0})
  process_hashes fuel [] flags s = (ok tt, s)
  process_hashes zero (hash ∷ hashes) flags s = (err divergence, s)
  process_hashes (suc fuel) (hash ∷ hashes) flags s = elim (waiting hash s.pool.prev_orphans) [
    | [] ↦ process_hashes fuel hashes flags s
    | orphan ∷ _ ↦
        bind (process_orphan orphan flags s)
          λ _ s'. process_hashes fuel ((hash ∷ hashes) ++ (orphan_hash orphan ∷ [])) flags s'
  ]

  abbrev pub total_waiting : List (ℕ × List OrphanBlock) → ℕ
  total_waiting [] = 0
  total_waiting ((h, os) ∷ m) = length os + total_waiting m

  unfoldable pub process_orphans : ℕ → Flags → M S (Unit {0})
  process_orphans hash flags s =
      process_hashes (2 * total_waiting s.pool.prev_orphans + 1) (hash ∷ []) flags s

  -- A block whose parent is not known: an orphan, unless in a dry run.
  unfoldable pub store_orphan : ℕ → Block → Flags → M S (Unit {0})
  store_orphan now block flags = unless flags.dry_run (do
    ppc_process_orphan net block
    pool ← ask (λ s. add_orphan_block now block s.pool)
    modify (λ s. record s { pool = pool }))

  -- `!prevHash.IsEqual(zeroHash)` and the parent does not exist.
  unfoldable pub parent_missing : Block → BlockChain S → Result Bool
  parent_missing block s =
      if block.header.prev_block == 0
      then ok false
      else elim (block_exists block.header.prev_block s) [
        | err e ↦ err e
        | ok exists ↦ ok (not exists)
      ]

  -- The end of ProcessBlock: the block is an orphan, or is accepted with the orphans that waited.
  unfoldable pub store_or_accept : ℕ → Block → Flags → Bool → M S Bool
  store_or_accept now block flags true s =
      bind (store_orphan now block flags s) λ _ s'. (ok true, s')
  store_or_accept now block flags false s =
      bind (maybe_accept_block env net kernel block flags s) λ _ s'.
        bind (unless flags.dry_run (process_orphans block.sha flags) s') λ _ s''. (ok false, s'')

  abbrev pub before_checkpoint : Block → Option Block → Bool
  before_checkpoint block none = false
  before_checkpoint block (some c) = ltb block.header.timestamp c.header.timestamp

  -- ProcessBlock at the time `now`: is the block an orphan?
  unfoldable pub process_block : (Block → Result (Unit {0})) → ℕ → Block → Flags → M S Bool
  process_block check_block_sanity now block flags = do
    exists ← ask (block_exists block.sha)
    require (not exists) (rule duplicate_block)
    known ← ask (λ s. ok (is_known_orphan block.sha s.pool))
    require (not known) (rule duplicate_block)
    ppc_process_block net block
    ask (λ s. check_block_sanity block)
    checkpoint ← find_previous_checkpoint env net.checkpoints
    require (not (before_checkpoint block checkpoint)) (rule checkpoint_time_too_old)
    missing ← ask (parent_missing block)
    store_or_accept now block flags missing
