-- ===== src/Chain/Pruning.antt =====
-- The node index as a whole: its initial load, its pruning, and what New makes (chain.go).
use btcchain.Common.{
  ℕ, zero, suc, ◌+◌, ◌-◌, ◌*◌, Option, none, some, List, [], ◌∷◌, Bool, true, false, not, ltb,
  if◌then◌else◌, length, lookup, Result, ok, err, failure, divergence,
}
use btcchain.Common.Int.{pos, negsuc}
use btcchain.Wire.{Header, Meta, nano}
use btcchain.Difficulty.Work.{calc_work}
use btcchain.Chain.State.{
  BlockNode, BlockChain, Checkpoint, Env, M, bind, ◌>>=◌, ◌>>◌, pure, modify,
}
use btcchain.Chain.Nodes.{load_block_node, remove_block_node}
use btcchain.Chain.Retarget.{blocks_per_retarget}
use btcchain.Chain.Checkpoints.{latest_checkpoint}

abbrev pub min_memory_nodes : ℕ
min_memory_nodes = blocks_per_retarget

unfoldable pub new_block_node : Meta → Header → ℕ → ℕ → BlockNode
new_block_node no_meta header sha height = record {
  parent = none;
  children = [];
  hash = sha;
  parent_hash = header.prev_block;
  height = height;
  work_sum = calc_work header.bits;
  in_main_chain = false;
  version = header.version;
  bits = header.bits;
  timestamp = header.timestamp;
  meta = no_meta;
}

-- The walk over parent pointers, as long as there are any.
unfoldable pub walk_parents : (ℕ → BlockNode) → ℕ → Option ℕ → Option ℕ
walk_parents heap zero start = start
walk_parents heap (suc rounds) none = none
walk_parents heap (suc rounds) (some r) = walk_parents heap rounds (heap r).parent

-- The nodes to delete, pushed to the front: the lowest comes first. On fuel.
unfoldable pub delete_nodes : ℕ → (ℕ → BlockNode) → Option ℕ → List ℕ → Result (List ℕ)
delete_nodes fuel heap none pushed = ok pushed
delete_nodes zero heap (some r) pushed = err divergence
delete_nodes (suc fuel) heap (some r) pushed = delete_nodes fuel heap (heap r).parent (r ∷ pushed)

module _ {S : Type 0} (env : Env S) where
  open env use {newest_sha, fetch_height_range}

  unfoldable pub remove_nodes : List ℕ → M S (Unit {0})
  remove_nodes [] = pure tt
  remove_nodes (r ∷ rs) = do remove_block_node env r; remove_nodes rs

  unfoldable pub prune_block_nodes : M S (Unit {0})
  prune_block_nodes s = elim s.best_chain [
    | none ↦ (ok tt, s)
    | some best ↦ elim (walk_parents s.heap (min_memory_nodes - 1) (some best)) [
      | none ↦ (ok tt, s)
      | some new_root ↦ elim (s.heap new_root).parent [
        | none ↦ (ok tt, s)
        | some p ↦
            bind (delete_nodes ((s.heap new_root).height + 1) s.heap (some p) [], s)
              λ nodes s'.
                bind (remove_nodes nodes s') λ _ s''. (ok tt, record s'' { root = some new_root })
      ]
    ]
  ]

  -- One batch of hashes: each node becomes the end of the best chain.
  unfoldable pub load_batch : List ℕ → M S (Unit {0})
  load_batch [] = pure tt
  load_batch (hash ∷ hashes) = do
    r ← load_block_node env hash
    modify (λ s. record s { best_chain = some r })
    load_batch hashes

  -- The loop over batches, on fuel: each one that is not empty goes up.
  unfoldable pub load_batches : ℕ → ℕ → ℕ → M S (Unit {0})
  load_batches zero start end_height s = (err divergence, s)
  load_batches (suc fuel) start end_height s = elim (ltb end_height start) [
    | true ↦ (ok tt, s)
    | false ↦
        bind (fetch_height_range s.db start (end_height + 1), s)
          λ hashes s'. elim hashes [
            | [] ↦ (ok tt, s')
            | h ∷ hs ↦
                bind (load_batch (h ∷ hs) s')
                  λ _ s''. load_batches fuel (start + length (h ∷ hs)) end_height s''
          ]
  ]

  unfoldable pub generate_initial_index : M S (Unit {0})
  generate_initial_index s = elim s.root [
    | some r ↦ (err failure, s)
    | none ↦
        bind (newest_sha s.db, s)
          λ (_, end_height) s'. elim end_height [
            | negsuc n ↦ (ok tt, s')
            | pos n ↦ load_batches (min_memory_nodes + 2) (n - min_memory_nodes) n s'
          ]
  ]

  -- getBlockNode of ppc.go
  unfoldable pub get_block_node : ℕ → M S ℕ
  get_block_node hash s = elim (lookup hash s.index) [
    | some r ↦ (ok r, s)
    | none ↦ load_block_node env hash s
  ]

-- The median time source's adjusted time is an argument; it is after the first day of 1970.
unfoldable pub is_current : {S : Type 0} → List Checkpoint → ℕ → BlockChain S → Bool
is_current checkpoints adjusted_time s = elim s.best_chain [
  | none ↦ false
  | some best ↦
      let late : Bool = not (ltb (s.heap best).timestamp (adjusted_time - 24 * 3600 * nano)) in
      elim (latest_checkpoint checkpoints s) [
        | none ↦ late
        | some c ↦ if ltb (s.heap best).height c.height then false else late
      ]
]

-- New. The heap is empty: it gives any node.
unfoldable pub new_block_chain : {S : Type 0} → S → (ℕ → BlockNode) → Bool → BlockChain S
new_block_chain db heap wants_notifications = record {
  db = db;
  heap = heap;
  next = 0;
  root = none;
  best_chain = none;
  index = [];
  dep_nodes = [];
  block_cache = [];
  pool = record { orphans = []; prev_orphans = []; oldest_orphan = none };
  no_checkpoints = false;
  no_verify = false;
  checkpoint_block = none;
  next_checkpoint = none;
  stake_seen = [];
  stake_seen_orphan = [];
  wants_notifications = wants_notifications;
  notifications = [];
}
