-- ===== src/Chain/Connect.antt =====
-- Connecting and disconnecting blocks, and the choice of the best chain (chain.go).
pub mod Branches
pub mod Selection
pub mod DryRun
use btcchain.Common.{
  ℕ, zero, suc, ◌+◌, ◌≡◌, refl, ◌≤◌, Option, none, some, List, [], ◌∷◌, ◌++◌, Bool, true, false,
  not, ◌==◌, ◌&&◌, ◌||◌, leb, if◌then◌else◌, lookup, insert, remove, Result, ok, err, Error,
  failure, panic, divergence,
}
use btcchain.Wire.{Block}
use btcchain.Chain.State.{
  BlockNode, BlockChain, Env, M, bind, ◌>>=◌, ◌>>◌, pure, fail, unless, ask, modify, require,
  or_fail, set_node, lookup_or_nil, block_connected, block_disconnected, send_notification,
}
use btcchain.Chain.Nodes.{get_prev_node_from_node, remove_child_node}

-- The two bits of BehaviorFlags that chain.go reads.
pub record Flags : Type 0 where
  pub fast_add : Bool
  pub dry_run : Bool

-- The first loop of getReorganizeNodes: from a node down to the first one that is in the main chain
-- or has no parent. The nodes passed are pushed to the front.
unfoldable pub side_walk : ℕ → (ℕ → BlockNode) → ℕ → List ℕ → Result (ℕ × List ℕ)
side_walk zero heap ancestor attach = err divergence
side_walk (suc fuel) heap ancestor attach = elim ((heap ancestor).parent) [
  | none ↦ ok (ancestor, attach)
  | some p ↦ elim ((heap ancestor).in_main_chain) [
    | true ↦ ok (ancestor, attach)
    | false ↦ side_walk fuel heap p (ancestor ∷ attach)
  ]
]

-- The second loop: from the end of the main chain to the node with the ancestor's hash.
unfoldable pub main_walk : ℕ → (ℕ → BlockNode) → Option ℕ → ℕ → Result (List ℕ)
main_walk fuel heap none hash = ok []
main_walk zero heap (some n) hash = err divergence
main_walk (suc fuel) heap (some n) hash = elim ((heap n).parent) [
  | none ↦ ok []
  | some p ↦ elim ((heap n).hash == hash) [
    | true ↦ ok []
    | false ↦ elim (main_walk fuel heap (some p) hash) [ ok rest ↦ ok (n ∷ rest) | err e ↦ err e ]
  ]
]

abbrev pub height_of : (ℕ → BlockNode) → Option ℕ → ℕ
height_of heap none = 0
height_of heap (some r) = suc (heap r).height

-- getReorganizeNodes: the nodes to detach and to attach. Heights fall along parents, so the height
-- is fuel enough.
unfoldable pub get_reorganize_nodes :
    {S : Type 0} → BlockChain S → Option ℕ → Result (List ℕ × List ℕ)
get_reorganize_nodes s none = ok ([], [])
get_reorganize_nodes s (some r) = elim (side_walk (height_of s.heap (some r)) s.heap r []) [
  | err e ↦ err e
  | ok (ancestor, attach) ↦
      elim (main_walk (height_of s.heap s.best_chain) s.heap s.best_chain (s.heap ancestor).hash) [
        | err e ↦ err e
        | ok detach ↦ ok (detach, attach)
      ]
]

module _ {S : Type 0} (env : Env S) where
  open env use {
    fetch_block_by_sha, insert_block, drop_after_block_by_sha, check_connect_block,
    calc_mint_and_money_supply,
  }

  -- `b.bestChain != nil && !prevHash.IsEqual(b.bestChain.hash)`
  abbrev pub extends_best : BlockChain S → Block → Bool
  extends_best s block = elim s.best_chain [
    | none ↦ true
    | some r ↦ block.header.prev_block == (s.heap r).hash
  ]

  unfoldable pub connect_block : ℕ → Block → M S (Unit {0})
  connect_block r block = do
    extends ← ask (λ s. ok (extends_best s block))
    require extends failure
    work ← ask (λ s. ok ((s.heap r).work_sum))
    let trusted : Block = record block { meta = record (block.meta) { chain_trust = work } }
    minted ← ask (λ s. calc_mint_and_money_supply s r trusted)
    db ← ask (λ s. insert_block s.db minted)
    modify (λ s. record s { db = db })
    set_node r (λ n. record n { in_main_chain = true; meta = minted.meta })
    modify (λ s. record s {
      index = insert (s.heap r).hash r s.index;
      dep_nodes =
          insert block.header.prev_block
            (lookup_or_nil block.header.prev_block s.dep_nodes ++ (r ∷ [])) s.dep_nodes;
      best_chain = some r;
    })
    send_notification (block_connected minted)

  abbrev pub is_best : BlockChain S → ℕ → Bool
  is_best s r = elim s.best_chain [ none ↦ false | some b ↦ (s.heap r).hash == (s.heap b).hash ]

  unfoldable pub disconnect_block : ℕ → Block → M S (Unit {0})
  disconnect_block r block = do
    best ← ask (λ s. ok (is_best s r))
    require best failure
    prev ← get_prev_node_from_node env r
    p ← or_fail prev panic
    db ← ask (λ s. drop_after_block_by_sha s.db (s.heap p).hash)
    modify (λ s. record s { db = db })
    set_node r (λ n. record n { in_main_chain = false })
    modify (λ s. record s {
      block_cache = insert (s.heap r).hash block s.block_cache;
      best_chain = (s.heap r).parent;
    })
    send_notification (block_disconnected block)

  -- The loops of reorganizeChain, over the nodes to attach and to detach.
  unfoldable pub check_cached : List ℕ → M S (Unit {0})
  check_cached [] s = (ok tt, s)
  check_cached (n ∷ ns) s = elim (lookup (s.heap n).hash s.block_cache) [
    | none ↦ (err failure, s)
    | some block ↦ check_cached ns s
  ]

  unfoldable pub check_attach : List ℕ → M S (Unit {0})
  check_attach [] s = (ok tt, s)
  check_attach (n ∷ ns) s = elim (lookup (s.heap n).hash s.block_cache) [
    | none ↦ (err panic, s)
    | some block ↦ elim (check_connect_block s n block) [
      | err e ↦ (err e, s)
      | ok _ ↦ check_attach ns s
    ]
  ]

  unfoldable pub detach_all : List ℕ → M S (Unit {0})
  detach_all [] = pure tt
  detach_all (n ∷ ns) = do
    block ← ask (λ s. fetch_block_by_sha s.db (s.heap n).hash)
    disconnect_block n block
    detach_all ns

  unfoldable pub attach_one : ℕ → M S (Unit {0})
  attach_one n = do
    cached ← ask (λ s. ok (lookup (s.heap n).hash s.block_cache))
    block ← or_fail cached panic
    connect_block n block
    modify (λ s. record s { block_cache = remove (s.heap n).hash s.block_cache })

  unfoldable pub attach_all : List ℕ → M S (Unit {0})
  attach_all [] = pure tt
  attach_all (n ∷ ns) = do attach_one n; attach_all ns

  -- What reorganizeChain reads for its log messages can fail: an empty list, or no fork node.
  unfoldable pub log_reorganize : List ℕ → List ℕ → M S (Unit {0})
  log_reorganize detach [] s = (err panic, s)
  log_reorganize detach (first ∷ rest) s =
      let (fork, s') = get_prev_node_from_node env first s in
      elim fork [
        | ok none ↦ (err panic, s')
        | _ ↦ elim detach [ [] ↦ (err panic, s') | _ ∷ _ ↦ (ok tt, s') ]
      ]

  unfoldable pub reorganize_chain : List ℕ → List ℕ → Flags → M S (Unit {0})
  reorganize_chain detach attach flags = do
    check_cached attach
    check_attach attach
    unless flags.dry_run (do detach_all detach; attach_all attach; log_reorganize detach attach)

  -- `b.bestChain == nil || node.parent.hash.IsEqual(b.bestChain.hash)`
  unfoldable pub on_best : BlockChain S → ℕ → Result Bool
  on_best s r = elim s.best_chain [
    | none ↦ ok true
    | some b ↦ elim ((s.heap r).parent) [
      | none ↦ err panic
      | some p ↦ ok ((s.heap p).hash == (s.heap b).hash)
    ]
  ]

  unfoldable pub append_child : Option ℕ → ℕ → M S (Unit {0})
  append_child none r = pure tt
  append_child (some p) r = set_node p (λ n. record n { children = n.children ++ (r ∷ []) })

  -- The block extends the main chain, or is the first one.
  unfoldable pub extend_best : ℕ → Block → Flags → M S (Unit {0})
  extend_best r block flags = do
    unless flags.fast_add (ask (λ s. check_connect_block s r block))
    unless flags.dry_run (do
      connect_block r block
      parent ← ask (λ s. ok ((s.heap r).parent))
      append_child parent r)

  unfoldable pub add_to_side : ℕ → Block → M S (Unit {0})
  add_to_side r block = do
    modify (λ s. record s {
      block_cache = insert (s.heap r).hash block s.block_cache;
      index = insert (s.heap r).hash r s.index;
    })
    set_node r (λ n. record n { in_main_chain = false })
    parent ← ask (λ s. ok ((s.heap r).parent))
    append_child parent r

  -- The deferred function of a dry run.
  unfoldable pub undo_side : ℕ → BlockChain S → BlockChain S
  undo_side r s =
      let hash = (s.heap r).hash in
      let forget = record s {
        index = remove hash s.index;
        block_cache = remove hash s.block_cache;
      } in
      elim ((s.heap r).parent) [
        | none ↦ forget
        | some p ↦
            (set_node p (λ n. record n { children = remove_child_node s.heap n.children r })
              forget).1
      ]

  -- A side chain with more work than the main chain becomes the main chain.
  unfoldable pub choose_best : ℕ → Flags → M S (Unit {0})
  choose_best r flags s = elim s.best_chain [
    | none ↦ (err panic, s)
    | some b ↦
        if leb (s.heap r).work_sum (s.heap b).work_sum
        then (ok tt, s)
        else elim (get_reorganize_nodes s (some r)) [
          | err e ↦ (err e, s)
          | ok (detach, attach) ↦ reorganize_chain detach attach flags s
        ]
  ]

  unfoldable pub connect_best_chain : ℕ → Block → Flags → M S (Unit {0})
  connect_best_chain r block flags s = elim (on_best s r) [
    | err e ↦ (err e, s)
    | ok true ↦ extend_best r block flags s
    | ok false ↦
        let (_, side) = add_to_side r block s in
        let (result, done) = choose_best r flags side in
        if flags.dry_run then (result, undo_side r done) else (result, done)
  ]
