-- ===== src/Chain/Loads.antt =====
-- The steps that may only load block nodes (chain.go, ppc.go, checkpoints.go): they keep the
-- database, the end of the main chain and the orphan pool, and send no notification.
use btcchain.Common.{
  ℕ, zero, suc, Option, none, some, Option-cases, List, [], ◌∷◌, ◌||◌, Bool, ◌==◌, ltb, Bool-cases,
  inl, inr, lookup, length, Result, ok, err, Result-cases,
}
use btcchain.Wire.{Block}
use btcchain.Chain.State.{BlockChain, Checkpoint, Env, bind_all}
use btcchain.Chain.Nodes.{
  adopt, link, load_block_node, get_prev_node_from_block, get_prev_node_from_node, count_versions,
  is_majority_version,
}
use btcchain.Chain.Retarget.{
  RetargetParams, or_nil, stops_at, get_last_block_index, ppc_first, ppc_second,
  ppc_calc_next_required_difficulty,
}
use btcchain.Chain.PastMedian.{past_times, calc_past_median_time}
use btcchain.Chain.Checkpoints.{
  initial_search, lock_into, advance, from_cache, search_from, find_previous_checkpoint,
}
use btcchain.Chain.Connect.DryRun.{Kept}

module _ {S : Type 0} (env : Env S) (t : BlockChain S) where
  abbrev Q : BlockChain S → Type 0
  Q s = Kept env s t

  adopt-Kept : (r : ℕ) (cs : List ℕ) (s : BlockChain S) → Q s → Q (adopt env r cs s).1
  unfolding adopt
  adopt-Kept r [] s k = k
  adopt-Kept r (c ∷ cs) s k =
      bind_all Q _ _ k λ _ k. bind_all Q _ _ k λ _ k. bind_all Q _ _ k λ _ k. adopt-Kept r cs _ k

  link-Kept :
      (r hash prev_hash : ℕ) (p : Option ℕ) (w : Option (List ℕ)) (root : Option ℕ)
      (s : BlockChain S)
      → Q s
      → Q (link env r hash prev_hash p w root s).1
  unfolding link
  link-Kept r hash prev_hash (some p) w root s k = bind_all Q _ _ k λ _ k. k
  link-Kept r hash prev_hash none (some cs) root s k = adopt-Kept r cs s k
  link-Kept r hash prev_hash none none (some old) s k = k
  link-Kept r hash prev_hash none none none s k = k

  pub load_block_node-Kept : (hash : ℕ) (s : BlockChain S) → Q s → Q (load_block_node env hash s).1
  unfolding load_block_node
  load_block_node-Kept hash s k = bind_all Q _ _ k λ (header, meta) k. bind_all Q _ _ k λ _ k.
      bind_all Q _ _ k λ r k. bind_all Q _ _ k λ _ k. bind_all Q _ _ k λ _ k.
        bind_all Q _ _ k λ p k. bind_all Q _ _ k λ w k. bind_all Q _ _ k λ root k.
          bind_all Q _ _ (link-Kept r hash header.prev_block p w root _ k)
            λ _ k. bind_all Q _ _ k λ _ k. k

  pub get_prev_node_from_block-Kept :
      (block : Block) (s : BlockChain S) → Q s → Q (get_prev_node_from_block env block s).1
  unfolding get_prev_node_from_block
  get_prev_node_from_block-Kept block s k = elim (Bool-cases (block.header.prev_block == 0)) [
    | inl e ↦ rw (e, get_prev_node_from_block) k
    | inr e ↦ elim (Option-cases (lookup block.header.prev_block s.index)) [
      | inr (r, o) ↦ rw (e, o, get_prev_node_from_block) k
      | inl o ↦
          rw (e, o, get_prev_node_from_block)
            (bind_all Q _ _ (load_block_node-Kept block.header.prev_block s k) λ _ k. k)
    ]
  ]

  pub get_prev_node_from_node-Kept :
      (r : ℕ) (s : BlockChain S) → Q s → Q (get_prev_node_from_node env r s).1
  unfolding get_prev_node_from_node
  get_prev_node_from_node-Kept r s k = elim (Option-cases (s.heap r).parent) [
    | inr (p, o) ↦ rw (o, get_prev_node_from_node) k
    | inl o ↦ elim (Bool-cases ((s.heap r).hash == env.genesis_hash)) [
      | inl e ↦ rw (o, e, get_prev_node_from_node) k
      | inr e ↦
          rw (o, e, get_prev_node_from_node)
            (bind_all Q _ _ (load_block_node-Kept (s.heap r).parent_hash s k) λ _ k. k)
    ]
  ]

  count_versions-Kept :
      (min_ver rounds : ℕ) (start : Option ℕ) (s : BlockChain S)
      → Q s
      → Q (count_versions env min_ver rounds start s).1
  unfolding count_versions
  count_versions-Kept min_ver zero start s k = k
  count_versions-Kept min_ver (suc rounds) none s k = k
  count_versions-Kept min_ver (suc rounds) (some r) s k =
      let kept = get_prev_node_from_node-Kept r s k in
      elim (Result-cases (get_prev_node_from_node env r s).0) [
        | inr (x, e) ↦ rw (e, count_versions) kept
        | inl (p, e) ↦ rw (e, count_versions) (count_versions-Kept min_ver rounds p _ kept)
      ]

  pub is_majority_version-Kept :
      (min_ver : ℕ) (start : Option ℕ) (required check : ℕ) (s : BlockChain S)
      → Q s
      → Q (is_majority_version env min_ver start required check s).1
  unfolding is_majority_version
  is_majority_version-Kept min_ver start required check s k =
      count_versions-Kept min_ver check start s k

  or_nil-Kept :
      {B : Type 0} (p : Result (Option ℕ) × BlockChain S)
      (f : Option ℕ → BlockChain S → Result B × BlockChain S)
      → Q p.1
      → ((o : Option ℕ) (s : BlockChain S) → Q s → Q (f o s).1)
      → Q (or_nil p f).1
  unfolding or_nil
  or_nil-Kept (ok o, s) f k step = step o s k
  or_nil-Kept (err e, s) f k step = step none s k

  get_last_block_index-Kept :
      (fuel : ℕ) (start : Option ℕ) (kind : Bool) (s : BlockChain S)
      → Q s
      → Q (get_last_block_index env fuel start kind s).1
  unfolding get_last_block_index
  get_last_block_index-Kept fuel none kind s k = k
  get_last_block_index-Kept zero (some r) kind s k = k
  get_last_block_index-Kept (suc fuel) (some r) kind s k =
      elim (Bool-cases (stops_at kind (s.heap r))) [
        | inl e ↦ rw (e, get_last_block_index) k
        | inr e ↦
            rw (e, get_last_block_index)
              (or_nil-Kept _ _ (get_prev_node_from_node-Kept r s k)
                (λ p s' k. get_last_block_index-Kept fuel p kind s' k))
      ]

  ppc_second-Kept :
      (params : RetargetParams) (r prev : ℕ) (kind : Bool) (found : Option ℕ) (s : BlockChain S)
      → Q s
      → Q (ppc_second env params r prev kind found s).1
  unfolding ppc_second
  ppc_second-Kept params r prev kind none s k = k
  ppc_second-Kept params r prev kind (some q) s k = k

  ppc_first-Kept :
      (params : RetargetParams) (r : ℕ) (kind : Bool) (found : Option ℕ) (s : BlockChain S)
      → Q s
      → Q (ppc_first env params r kind found s).1
  unfolding ppc_first
  ppc_first-Kept params r kind none s k = k
  ppc_first-Kept params r kind (some prev) s k =
      elim (Bool-cases ((s.heap prev).hash == env.genesis_hash)) [
        | inl e ↦ rw (e, ppc_first) k
        | inr e ↦
            rw (e, ppc_first)
              (or_nil-Kept _ _ (get_prev_node_from_node-Kept prev s k) (λ start s' k.
                bind_all Q _ _ (get_last_block_index-Kept _ start kind s' k)
                  λ found' k. ppc_second-Kept params r prev kind found' _ k))
      ]

  pub ppc_calc_next_required_difficulty-Kept :
      (params : RetargetParams) (last : Option ℕ) (kind : Bool) (s : BlockChain S)
      → Q s
      → Q (ppc_calc_next_required_difficulty env params last kind s).1
  unfolding ppc_calc_next_required_difficulty
  ppc_calc_next_required_difficulty-Kept params none kind s k = k
  ppc_calc_next_required_difficulty-Kept params (some r) kind s k =
      bind_all Q _ _ (get_last_block_index-Kept _ (some r) kind s k)
        λ found k. ppc_first-Kept params r kind found _ k

  past_times-Kept :
      (rounds : ℕ) (start : Option ℕ) (s : BlockChain S) → Q s → Q (past_times env rounds start s).1
  unfolding past_times
  past_times-Kept zero start s k = k
  past_times-Kept (suc rounds) none s k = k
  past_times-Kept (suc rounds) (some r) s k =
      bind_all Q _ _ (get_prev_node_from_node-Kept r s k)
        λ p k. bind_all Q _ _ (past_times-Kept rounds p _ k) λ _ k. k

  pub calc_past_median_time-Kept :
      (genesis_time : ℕ) (start : Option ℕ) (s : BlockChain S)
      → Q s
      → Q (calc_past_median_time env genesis_time start s).1
  unfolding calc_past_median_time
  calc_past_median_time-Kept genesis_time none s k = k
  calc_past_median_time-Kept genesis_time (some r) s k =
      bind_all Q _ _ (past_times-Kept _ (some r) s k) λ _ k. k

  lock_into-Kept :
      (checkpoints : List Checkpoint) (found : Option ℕ) (s : BlockChain S)
      → Q s
      → Q (lock_into env checkpoints found s).1
  unfolding lock_into
  lock_into-Kept checkpoints none s k = k
  lock_into-Kept checkpoints (some i) s k = bind_all Q _ _ k λ _ k. k

  initial_search-Kept :
      (checkpoints : List Checkpoint) (s : BlockChain S)
      → Q s
      → Q (initial_search env checkpoints s).1
  unfolding initial_search
  initial_search-Kept checkpoints s k =
      bind_all Q _ _ k λ found k. lock_into-Kept checkpoints found _ k

  from_cache-Kept :
      (checkpoints : List Checkpoint) (next : Option Checkpoint) (cached : Option Block) (best : ℕ)
      (s : BlockChain S)
      → Q s
      → Q (from_cache env checkpoints next cached best s).1
  unfolding from_cache advance
  from_cache-Kept checkpoints none none best s k = initial_search-Kept checkpoints s k
  from_cache-Kept checkpoints none (some b) best s k = k
  from_cache-Kept checkpoints (some next) cached best s k =
      elim (Bool-cases (ltb (s.heap best).height next.height)) [
        | inl e ↦ rw e k
        | inr e ↦ rw e (bind_all Q _ _ k λ _ k. k)
      ]

  search_from-Kept :
      (checkpoints : List Checkpoint) (best : Option ℕ) (s : BlockChain S)
      → Q s
      → Q (search_from env checkpoints best s).1
  unfolding search_from
  search_from-Kept checkpoints none s k = initial_search-Kept checkpoints s k
  search_from-Kept checkpoints (some best) s k =
      from_cache-Kept checkpoints s.next_checkpoint s.checkpoint_block best s k

  pub find_previous_checkpoint-Kept :
      (checkpoints : List Checkpoint) (s : BlockChain S)
      → Q s
      → Q (find_previous_checkpoint env checkpoints s).1
  unfolding find_previous_checkpoint
  find_previous_checkpoint-Kept checkpoints s k =
      elim (Bool-cases (s.no_checkpoints || (length checkpoints == 0))) [
        | inl e ↦ rw (e, find_previous_checkpoint) k
        | inr e ↦ rw (e, find_previous_checkpoint) (search_from-Kept checkpoints s.best_chain s k)
      ]
