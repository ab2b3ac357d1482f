-- ===== src/ChainExamples.antt =====
-- A reorganization at concrete inputs: a side chain of two blocks takes over a main chain of one.
use btcchain.Common.{
  ℕ, zero, suc, ◌+◌, ◌≤◌, ◌≡◌, ◌⊎◌, refl, arith, Bool, true, false, Option, none, some, List, [],
  ◌∷◌, ok, err, failure,
}
use btcchain.Common.Int.{pos}
use btcchain.Wire.{Meta, Block}
use btcchain.Chain.State.{BlockNode, BlockChain, Env, bind, send_notification}
use btcchain.Chain.Nodes.{get_prev_node_from_node}
use btcchain.Chain.Connect.{
  Flags, connect_best_chain, on_best, choose_best, add_to_side, append_child, get_reorganize_nodes,
  side_walk, main_walk, reorganize_chain, check_cached, check_attach, detach_all, disconnect_block,
  attach_all, attach_one, connect_block, log_reorganize,
}
use btcchain.Chain.Connect.Branches.{IsDescending, get_reorganize_nodes-ok}
use btcchain.Chain.Connect.Selection.{connect_best_chain-best}

abbrev pub no_meta : Meta
no_meta = record {
  flags = 0;
  chain_trust = 0;
  mint = pos 0;
  money_supply = pos 0;
  stake_modifier = 0;
  hash_proof_of_stake = 0;
  stake_modifier_checksum = 0;
}

abbrev pub block_of : ℕ → ℕ → Block
block_of sha prev = record {
  sha = sha;
  header = record { version = pos 1; prev_block = prev; merkle_root = 0; timestamp = 0; bits = 0 };
  transactions = [];
  signature = [];
  size = 80;
  height = 1;
  meta = no_meta;
}

-- The hash of the node at r is 100 + r; the genesis block is node 0.
abbrev pub node_of : ℕ → Option ℕ → ℕ → ℕ → ℕ → Bool → BlockNode
node_of hash parent parent_hash height work in_main = record {
  parent = parent;
  children = [];
  hash = hash;
  parent_hash = parent_hash;
  height = height;
  work_sum = work;
  in_main_chain = in_main;
  version = pos 1;
  bits = 0;
  timestamp = 0;
  meta = no_meta;
}

-- Node 1 is the end of the main chain, node 2 a side chain, node 3 the new block on top of it.
abbrev nodes : ℕ → BlockNode
nodes zero = node_of 100 none 0 0 1 true
nodes (suc zero) = node_of 101 (some 0) 100 1 2 true
nodes (suc (suc zero)) = node_of 102 (some 0) 100 1 2 false
nodes (suc (suc (suc n))) = node_of 103 (some 2) 102 2 3 false

abbrev pub env : Env (Unit {0})
env = record {
  fetch_block_header_by_sha = λ db sha. err failure;
  fetch_block_height_by_sha = λ db sha. err failure;
  fetch_block_by_sha = λ db sha. ok (block_of sha 100);
  insert_block = λ db block. ok tt;
  drop_after_block_by_sha = λ db sha. ok tt;
  exists_sha = λ db sha. ok false;
  newest_sha = λ db. ok (101, pos 1);
  fetch_block_sha_by_height = λ db height. ok (100 + height);
  fetch_height_range = λ db start end. ok [];
  genesis_hash = 100;
  check_connect_block = λ s r block. ok tt;
  calc_mint_and_money_supply = λ s r block. ok block;
}

abbrev pub chain : BlockChain (Unit {0})
chain = record {
  db = tt;
  heap = nodes;
  next = 4;
  root = some 0;
  best_chain = some 1;
  index = (100, 0) ∷ (101, 1) ∷ (102, 2) ∷ [];
  dep_nodes = [];
  block_cache = (102, block_of 102 100) ∷ [];
  pool = record { orphans = []; prev_orphans = []; oldest_orphan = none };
  no_checkpoints = false;
  no_verify = false;
  checkpoint_block = none;
  next_checkpoint = none;
  stake_seen = [];
  stake_seen_orphan = [];
  wants_notifications = true;
  notifications = [];
}

abbrev live : Flags
live = record { fast_add = false; dry_run = false }

takes_over : (connect_best_chain env 3 (block_of 103 102) live chain).0 ≡ ok tt
unfolding connect_best_chain on_best choose_best add_to_side bind append_child get_reorganize_nodes
    side_walk main_walk reorganize_chain check_cached check_attach detach_all disconnect_block
    get_prev_node_from_node send_notification attach_all attach_one connect_block log_reorganize
takes_over = refl

connect_best_chain-best_example :
    ((connect_best_chain env 3 (block_of 103 102) live chain).1.best_chain ≡ some 3)
    ⊎ ((b : ℕ) × ((connect_best_chain env 3 (block_of 103 102) live chain).1.best_chain ≡ some b)
        × (chain.best_chain ≡ some b)
        × ((chain.heap 3).work_sum ≤ (chain.heap b).work_sum))
connect_best_chain-best_example =
    connect_best_chain-best env 3 (block_of 103 102) live chain refl takes_over

nodes-IsDescending : IsDescending nodes
nodes-IsDescending zero p e = absurd (cc)
nodes-IsDescending (suc zero) p e = let q : 0 ≡ p = cc in rw⁻¹ (q) (omega arith)
nodes-IsDescending (suc (suc zero)) p e = let q : 0 ≡ p = cc in rw⁻¹ (q) (omega arith)
nodes-IsDescending (suc (suc (suc n))) p e = let q : 2 ≡ p = cc in rw⁻¹ (q) (omega arith)

get_reorganize_nodes-ok_example :
    (result : List ℕ × List ℕ) × (get_reorganize_nodes chain (some 3) ≡ ok result)
get_reorganize_nodes-ok_example = get_reorganize_nodes-ok chain (some 3) nodes-IsDescending

abbrev pub dry : Flags
dry = record { fast_add = false; dry_run = true }
