-- ===== src/Chain/Checkpoints.antt =====
-- checkpoints.go: the hard-coded checkpoints of a net, and the one that the chain is locked into.
-- nextCheckpoint points into the net's list; here it is a copy.
pub mod Lockin
pub mod Known
use btcchain.Common.{
  ℕ, zero, suc, ◌+◌, Option, none, some, List, [], ◌∷◌, ◌||◌, Bool, true, false, not, ◌==◌, ltb,
  if◌then◌else◌, any, length, get_elem?, last?, lookup, insert, Result, ok, err, failure, panic,
  or_panic, ◌>>=◌,
}
use btcchain.Common.Int.{pos, ltb_ℤ}
use btcchain.Wire.{Block, Tx}
use btcchain.Chain.State.{BlockNode, BlockChain, Checkpoint, Env, M, bind}

abbrev pub checkpoint_confirmations : ℕ
checkpoint_confirmations = 2016

module _ {S : Type 0} where
  unfoldable pub disable_checkpoints : Bool → BlockChain S → BlockChain S
  disable_checkpoints disable s = record s { no_checkpoints = disable }

  -- Checkpoints, nil for none.
  unfoldable pub known_checkpoints : List Checkpoint → BlockChain S → List Checkpoint
  known_checkpoints checkpoints s =
      if s.no_checkpoints || (length checkpoints == 0) then [] else checkpoints

  unfoldable pub latest_checkpoint : List Checkpoint → BlockChain S → Option Checkpoint
  latest_checkpoint checkpoints s =
      if s.no_checkpoints || (length checkpoints == 0) then none else last? checkpoints

-- The loop of New that fills checkpointsByHeight.
unfoldable pub by_height_from : List (ℕ × Checkpoint) → List Checkpoint → List (ℕ × Checkpoint)
by_height_from m [] = m
by_height_from m (c ∷ cs) = by_height_from (insert c.height c m) cs

unfoldable pub checkpoints_by_height : List Checkpoint → List (ℕ × Checkpoint)
checkpoints_by_height checkpoints = by_height_from [] checkpoints

unfoldable pub verify_checkpoint : {S : Type 0} → List Checkpoint → ℕ → ℕ → BlockChain S → Bool
verify_checkpoint checkpoints height hash s =
    if s.no_checkpoints || (length checkpoints == 0)
    then true
    else elim (lookup height (checkpoints_by_height checkpoints)) [
      | none ↦ true
      | some c ↦ c.hash == hash
    ]

-- The loop backwards through the first n checkpoints, for the last one that exists.
unfoldable pub find_existing : (ℕ → Result Bool) → List Checkpoint → ℕ → Result (Option ℕ)
find_existing exists_sha checkpoints zero = ok none
find_existing exists_sha checkpoints (suc i) = or_panic (get_elem? checkpoints i) >>= λ c.
    exists_sha c.hash >>= λ exists. elim exists [
      | true ↦ ok (some i)
      | false ↦ find_existing exists_sha checkpoints i
    ]

-- The loop backwards for the checkpoint with a hash.
unfoldable pub find_hash : List Checkpoint → ℕ → ℕ → Option ℕ
find_hash checkpoints hash zero = none
find_hash checkpoints hash (suc i) = elim (get_elem? checkpoints i) [
  | none ↦ none
  | some c ↦ elim (c.hash == hash) [ true ↦ some i | false ↦ find_hash checkpoints hash i ]
]

-- btcscript.GetScriptClass gives NonStandardTy.
unfoldable pub is_nonstandard_transaction : (List ℕ → Bool) → Tx → Bool
is_nonstandard_transaction non_standard tx = any (λ o. non_standard o.pk_script) tx.tx_out

module _ {S : Type 0} (env : Env S) (checkpoints : List Checkpoint) where
  open env use {exists_sha, fetch_block_by_sha, newest_sha, fetch_block_sha_by_height}

  -- The search that starts from the database, after the last existing checkpoint is found.
  unfoldable pub lock_into : Option ℕ → M S (Option Block)
  lock_into none s = (ok none, record s { next_checkpoint = get_elem? checkpoints 0 })
  lock_into (some i) s =
      bind (or_panic (get_elem? checkpoints i) >>= λ c. fetch_block_by_sha s.db c.hash, s)
        λ block s'. (
          ok (some block),
          record s' {
            checkpoint_block = some block;
            next_checkpoint = get_elem? checkpoints (i + 1);
          },
        )

  unfoldable pub initial_search : M S (Option Block)
  initial_search s =
      bind (find_existing (exists_sha s.db) checkpoints (length checkpoints), s) lock_into

  -- The step to the next checkpoint, which the best chain has reached.
  unfoldable pub advance : Checkpoint → M S (Option Block)
  advance next s =
      bind (fetch_block_by_sha s.db next.hash, s)
        λ block s'. (
          ok (some block),
          record s' {
            checkpoint_block = some block;
            next_checkpoint = elim (find_hash checkpoints next.hash (length checkpoints)) [
              | none ↦ none
              | some i ↦ get_elem? checkpoints (i + 1)
            ];
          },
        )

  -- The rest of findPreviousCheckpoint, by nextCheckpoint and checkpointBlock, and by bestChain.
  unfoldable pub from_cache : Option Checkpoint → Option Block → ℕ → M S (Option Block)
  from_cache none none best s = initial_search s
  from_cache none (some block) best s = (ok (some block), s)
  from_cache (some next) cached best s =
      if ltb (s.heap best).height next.height then (ok cached, s) else advance next s

  unfoldable pub search_from : Option ℕ → M S (Option Block)
  search_from none s = initial_search s
  search_from (some best) s = from_cache s.next_checkpoint s.checkpoint_block best s

  unfoldable pub find_previous_checkpoint : M S (Option Block)
  find_previous_checkpoint s =
      if s.no_checkpoints || (length checkpoints == 0)
      then (ok none, s)
      else search_from s.best_chain s

  unfoldable pub is_checkpoint_candidate : (List ℕ → Bool) → Block → BlockChain S → Result Bool
  is_checkpoint_candidate non_standard block s =
      if s.no_checkpoints
      then err failure
      else exists_sha s.db block.sha >>= λ exists.
          if not exists
          then ok false
          else newest_sha s.db >>= λ (_, main_chain_height).
              if ltb_ℤ main_chain_height (pos (block.height + checkpoint_confirmations))
              then ok false
              else (do
                prev_block ← fetch_block_by_sha s.db block.header.prev_block
                next_hash ← fetch_block_sha_by_height s.db (block.height + 1)
                next_block ← fetch_block_by_sha s.db next_hash
                let disorder =
                    ltb block.header.timestamp prev_block.header.timestamp
                    || ltb next_block.header.timestamp block.header.timestamp
                let strange = any (is_nonstandard_transaction non_standard) block.transactions
                ok (not (disorder || strange)))
