-- ===== src/Lib.antt =====
-- A verification library for package btcchain, the block chain handling of a Peercoin node in Go:
-- it checks transactions and blocks, keeps an index of block nodes and chooses the main chain.
--
-- The parts and their files (paths from the repository's root):
--   Common      numbers, integers, lists, maps as association lists, and results (error.go)
--   Difficulty  difficulty.go: compact targets (CompactToBig, BigToCompact), ShaHashToBig and
--               CalcWork; CalcTrust of ppc.go
--   Reward      ppc.go: PPCGetProofOfWorkReward, GetMinFee; CalcBlockSubsidy of validate.go
--   Merkle      merkle.go: nextPowerOfTwo, BuildMerkleTreeStore
--   Wire        the data of btcwire and btcutil, the fields that the package reads
--   Validate    validate.go and ppc.go: a transaction on its own (CheckTransactionSanity and
--               ppcCheckTransactionSanity); Validate/Blocks: a block on its own (checkBlockSanity,
--               checkProofOfWork, ppcCheckBlockSanity, CheckBlockSignature, checkSerializedHeight)
--   TxStore     txlookup.go: connectTransactions, disconnectTransactions
--   Inputs      validate.go and ppc.go: CheckTransactionInputs, CountP2SHSigOps
--   CoinAge     ppc.go: getCoinAgeTx, getCoinAgeBlock, CalcMintAndMoneySupply
--   Scripts     scriptval.go: the validator and its goroutines, checkBlockScripts
--   Connecting  validate.go: checkBIP0030, checkConnectBlock, CheckConnectBlock
--   MedianTime  mediantime.go: AddTimeSample, Offset, AdjustedTime
--   Orphans     chain.go: the orphan pool (addOrphanBlock, removeOrphanBlock, GetOrphanRoot)
--   Chain       chain.go: the state (Chain/State), block nodes (Chain/Nodes), their initial load and
--               pruning (Chain/Pruning), and connectBlock, disconnectBlock, reorganizeChain,
--               connectBestChain (Chain/Connect); Chain/Retarget: difficulty.go and ppc.go, the
--               required targets; Chain/PastMedian: calcPastMedianTime; Chain/Checkpoints:
--               checkpoints.go; Chain/Locator: blocklocator.go; Chain/Lookup: the functions of
--               txlookup.go that fill a store from the database; Chain/Accept: accept.go;
--               Chain/Process: process.go and the stake checks of ppc.go; Chain/Loads: lemmas on
--               the steps that only load nodes
--   StakeModifier  kernel.go: the intervals, getLastStakeModifier, selectBlockFromCandidates;
--               StakeModifier/Next: computeNextStakeModifier; StakeModifier/Later:
--               getKernelStakeModifier; StakeModifier/Flags: the flags of ppc.go
--   StakeKernel kernel.go: checkStakeKernelHash, checkTxProofOfStake, checkBlockProofOfStake,
--               getStakeModifierChecksum, AddToBlockIndex; getStakeEntropyBit of ppcutil.go
--   Examples, CheckExamples, ChainExamples, LineExamples, PoolExamples, StakeExamples,
--   ConnectExamples, KernelExamples   runs at concrete inputs
--
-- The block check uses the compact targets, the merkle tree and the transaction checks; the input
-- check reads and marks the transaction store, which Chain/Lookup fills from the database or from
-- earlier transactions of the block. connectBestChain calls the check of a connecting block and the mint
-- calculation, which are operations of its environment (Chain/State, Env), as are the database calls;
-- checking_env of Connecting/Reads fills the two with the code's own. ProcessBlock looks a block up in
-- the index and the pool, stores it as an orphan or hands it to maybeAcceptBlock, which asks for the
-- required target, the median time and the checkpoint, prunes the index, and calls connectBestChain.
-- The check of the stake and AddToBlockIndex are operations of the record Kernel of Chain/Accept, which
-- stake_kernel of StakeKernel fills. What btcwire, btcutil, btcscript and btcec give are the records
-- Packages of Validate, StakePackages of StakeKernel and TxDb of Chain/Lookup, and the double SHA-256 a
-- parameter of Merkle.
--
-- Goroutines: the validator of scriptval.go is a relation between states (Scripts, Step), with a step
-- for each communication on its channels; a select may take any case that can communicate. What
-- Validate may return is what some run returns, and checkBlockScripts is the relation
-- CheckBlockScripts of Scripts/Blocks; Connecting takes a function for it.
--
-- State: Go pointers to block nodes are numbers into a heap, Go maps association lists. A method is
-- a function from the state to a result and the state it leaves, also when it fails. An int64 or
-- int is an integer that wraps (int64 of Common/Int); hashes are numbers below 2 ^ 256, times the
-- nanoseconds since the Unix epoch. Counts that memory bounds (lengths, serialized sizes) do not
-- wrap, but the casts of lengths to uint32 do. A run-time panic is a result of its own, except that the
-- array of a merkle tree of no transactions is empty here, where BuildMerkleTreeStore panics. What a
-- call that fails has written into the block's meta data before is dropped, such as the mint when
-- CalcMintAndMoneySupply cannot load the node below.
--
-- Fuel: the bisection of the reward has the width of its interval as fuel, which halves to below a
-- cent; nextPowerOfTwo's logarithm its argument; walks over nodes (getReorganizeNodes,
-- getLastBlockIndex, findPrevTestNetDifficulty, the deletions of pruneBlockNodes, block locators)
-- one or two more than the height of the node, which falls along parents; the loop of
-- calcEasiestDifficulty the number of its retargets; GetOrphanRoot the size of the pool;
-- processOrphans twice the orphans that wait, since each round takes one out or drops a hash; the
-- batches of the initial index the number of its nodes; getLastStakeModifier and the candidates of
-- computeNextStakeModifier one more than the height of the node, getKernelStakeModifier one more than
-- the blocks up to the best one.
--
-- Not modelled: addChildrenWork, which nothing calls; GetLastBlockHeader and getBlockTrust, which the
-- package itself does not call; BigToShaHash, whose one caller (selectBlockFromCandidates) needs the
-- number only; the end of the validator's goroutines after Validate has returned; the cases of
-- writeElement for other types than numbers; the texts of errors, logging, timers and the sorting
-- adapters.
pub mod Common
pub mod Difficulty
pub mod Reward
pub mod StakeModifier
pub mod StakeExamples
pub mod CoinAge
pub mod Scripts
pub mod StakeKernel
pub mod Connecting
pub mod Merkle
pub mod Wire
pub mod Chain
pub mod Validate
pub mod TxStore
pub mod Inputs
pub mod MedianTime
pub mod Orphans
pub mod Examples
pub mod CheckExamples
pub mod ChainExamples
pub mod LineExamples
pub mod PoolExamples
pub mod ConnectExamples
pub mod KernelExamples
