-- ===== src/Chain/Nodes.antt =====
-- Loading, finding and unlinking block nodes (chain.go), and the two node constructors.
use btcchain.Common.{
  ℕ, zero, suc, ◌+◌, ◌%◌, Option, none, some, List, [], ◌∷◌, ◌++◌, Bool, true, false, ◌==◌, leb,
  if◌then◌else◌, lookup, insert, remove, ok, err, failure,
}
use btcchain.Difficulty.Work.{calc_trust}
use btcchain.Common.Int.{pos, leb_ℤ}
use btcchain.Wire.{Block, Header, Meta}
use btcchain.Chain.State.{
  BlockNode, BlockChain, Env, M, bind, ◌>>=◌, ◌>>◌, pure, fail, ask, modify, set_node,
  lookup_or_nil,
}

-- isProofOfStake: bit 0 of the flags.
abbrev pub is_proof_of_stake : Meta → Bool
is_proof_of_stake meta = meta.flags % 2 == 1

unfoldable pub ppc_new_block_node : Header → ℕ → ℕ → Meta → BlockNode
ppc_new_block_node header sha height meta = record {
  parent = none;
  children = [];
  hash = sha;
  parent_hash = header.prev_block;
  height = height;
  work_sum = calc_trust header.bits (is_proof_of_stake meta);
  in_main_chain = false;
  version = header.version;
  bits = header.bits;
  timestamp = header.timestamp;
  meta = meta;
}

-- removeChildNode: the first child with the node's hash is taken out.
unfoldable pub remove_child_node : (ℕ → BlockNode) → List ℕ → ℕ → List ℕ
remove_child_node heap [] node = []
remove_child_node heap (c ∷ cs) node =
    if (heap c).hash == (heap node).hash then cs else c ∷ remove_child_node heap cs node

module _ {S : Type 0} (env : Env S) where
  open env use {fetch_block_header_by_sha, fetch_block_height_by_sha, genesis_hash}

  -- The loop over the nodes that waited for this one as their parent.
  unfoldable pub adopt : ℕ → List ℕ → M S (Unit {0})
  adopt r [] = pure tt
  adopt r (c ∷ cs) = do
    set_node c (λ n. record n { parent = some r })
    set_node r (λ n. record n { children = n.children ++ (c ∷ []) })
    modify (λ s. record s { root = some r })
    adopt r cs

  -- The four cases of loadBlockNode: child of a known node, parent of known nodes, an orphan, the
  -- root.
  unfoldable pub link : ℕ → ℕ → ℕ → Option ℕ → Option (List ℕ) → Option ℕ → M S (Unit {0})
  link r hash prev_hash (some p) waiting root = do
    set_node p (λ n. record n { children = n.children ++ (r ∷ []) })
    set_node r (λ n. record n { parent = some p })
  link r hash prev_hash none (some cs) root = adopt r cs
  link r hash prev_hash none none (some old) = fail failure
  link r hash prev_hash none none none = modify (λ s. record s { root = some r })

  unfoldable pub load_block_node : ℕ → M S ℕ
  load_block_node hash = do
    (header, meta) ← ask (λ s. fetch_block_header_by_sha s.db hash)
    block_height ← ask (λ s. fetch_block_height_by_sha s.db hash)
    r ← ask (λ s. ok s.next)
    modify (λ s. record s { next = s.next + 1 })
    set_node r (λ _. record (ppc_new_block_node header hash block_height meta) {
      in_main_chain = true;
      work_sum = meta.chain_trust;
    })
    parent_node ← ask (λ s. ok (lookup header.prev_block s.index))
    waiting ← ask (λ s. ok (lookup hash s.dep_nodes))
    root ← ask (λ s. ok s.root)
    link r hash header.prev_block parent_node waiting root
    modify (λ s. record s {
      index = insert hash r s.index;
      dep_nodes =
          insert header.prev_block (lookup_or_nil header.prev_block s.dep_nodes ++ (r ∷ []))
            s.dep_nodes;
    })
    pure r

  unfoldable pub get_prev_node_from_block : Block → M S (Option ℕ)
  get_prev_node_from_block block s =
      let prev_hash = block.header.prev_block in
      if prev_hash == 0 then (ok none, s) else elim (lookup prev_hash s.index) [
        | some r ↦ (ok (some r), s)
        | none ↦ bind (load_block_node prev_hash s) (λ r s'. (ok (some r), s'))
      ]

  unfoldable pub get_prev_node_from_node : ℕ → M S (Option ℕ)
  get_prev_node_from_node r s =
      let node = s.heap r in
      elim node.parent [
        | some p ↦ (ok (some p), s)
        | none ↦
            if node.hash == genesis_hash
            then (ok none, s)
            else bind (load_block_node node.parent_hash s) (λ p s'. (ok (some p), s'))
      ]

  -- removeBlockNode, for a node at the front of the chain.
  unfoldable pub orphan_children : List ℕ → M S (Unit {0})
  orphan_children [] = pure tt
  orphan_children (c ∷ cs) = do set_node c (λ n. record n { parent = none }); orphan_children cs

  unfoldable pub unlink : ℕ → M S (Unit {0})
  unlink r s =
      let node = s.heap r in
      let prev_hash = node.parent_hash in
      bind (orphan_children node.children (record s { index = remove node.hash s.index })) λ _ s'.
        bind (set_node r (λ n. record n { children = [] }) s') λ _ s''.
          elim (lookup prev_hash s''.dep_nodes) [
            | none ↦ (ok tt, s'')
            | some cs ↦
                let left = remove_child_node s''.heap cs r in
                elim left [
                  | [] ↦ (ok tt, record s'' { dep_nodes = remove prev_hash s''.dep_nodes })
                  | x ∷ rest ↦
                      (ok tt, record s'' { dep_nodes = insert prev_hash (x ∷ rest) s''.dep_nodes })
                ]
          ]

  unfoldable pub remove_block_node : ℕ → M S (Unit {0})
  remove_block_node r s = elim ((s.heap r).parent) [ some p ↦ (err failure, s) | none ↦ unlink r s ]

  -- isMajorityVersion: the count over at most `rounds` nodes from `node` down; a node that cannot be
  -- loaded ends the count.
  unfoldable pub count_versions : ℕ → ℕ → Option ℕ → BlockChain S → ℕ × BlockChain S
  count_versions min_ver zero start s = (0, s)
  count_versions min_ver (suc rounds) none s = (0, s)
  count_versions min_ver (suc rounds) (some r) s =
      let found : ℕ = if leb_ℤ (pos min_ver) (s.heap r).version then 1 else 0 in
      let (prev, s') = get_prev_node_from_node r s in
      elim prev [
        | err e ↦ (found, s')
        | ok p ↦ let (n, s'') = count_versions min_ver rounds p s' in (found + n, s'')
      ]

  unfoldable pub is_majority_version : ℕ → Option ℕ → ℕ → ℕ → BlockChain S → Bool × BlockChain S
  is_majority_version min_ver start_node num_required num_to_check s =
      let (n, s') = count_versions min_ver num_to_check start_node s in (leb num_required n, s')
