-- ===== src/Chain/PastMedian.antt =====
-- calcPastMedianTime of chain.go: the median time of the last blocks.
use btcchain.Common.{
  ℕ, zero, suc, ◌*◌, ◌/◌, ◌≤◌, ◌≡◌, refl, sym, ap, Result, arith, leb, Option, none, some,
  Option-cases, inl, inr, List, [], ◌∷◌, length, get_elem?, ok, or_panic, if_true, ==_iff,
}
use btcchain.Common.Sort.{sort, count, IsTotalOrder, sort-get_elem?}
use btcchain.Chain.State.{BlockNode, BlockChain, Env, M, bind, bind_step}
use btcchain.Chain.Nodes.{get_prev_node_from_node}
use btcchain.Chain.Retarget.Walks.{get_prev_of_parent}

abbrev pub median_time_blocks : ℕ
median_time_blocks = 11

module _ {S : Type 0} (env : Env S) where
  -- The loop that collects the timestamps, over at most `rounds` nodes.
  unfoldable pub past_times : ℕ → Option ℕ → M S (List ℕ)
  past_times zero start s = (ok [], s)
  past_times (suc rounds) none s = (ok [], s)
  past_times (suc rounds) (some r) s = bind (get_prev_node_from_node env r s) λ prev s'.
      bind (past_times rounds prev s') λ times s''. (ok ((s.heap r).timestamp ∷ times), s'')

  -- The time of the genesis block is a parameter of the net.
  unfoldable pub calc_past_median_time : ℕ → Option ℕ → M S ℕ
  calc_past_median_time genesis_time none s = (ok genesis_time, s)
  calc_past_median_time genesis_time (some r) s =
      bind (past_times median_time_blocks (some r) s)
        λ times s'. (or_panic (get_elem? (sort leb times) (length times / 2)), s')

  -- CalcPastMedianTime
  unfoldable pub best_past_median_time : ℕ → M S ℕ
  best_past_median_time genesis_time s = calc_past_median_time genesis_time s.best_chain s

  -- Only the genesis block has no parent in memory.
  abbrev pub IsRooted : (ℕ → BlockNode) → Type 0
  IsRooted heap = (q : ℕ) → (heap q).parent ≡ none → (heap q).hash ≡ env.genesis_hash

-- The times of a node and its ancestors, n at most.
abbrev pub times_from : (ℕ → BlockNode) → ℕ → Option ℕ → List ℕ
times_from heap zero start = []
times_from heap (suc n) none = []
times_from heap (suc n) (some r) = (heap r).timestamp ∷ times_from heap n (heap r).parent

leb-IsTotalOrder : IsTotalOrder leb
leb-IsTotalOrder = record { total = λ a b h. ground arith; trans = λ a b c h k. ground arith }

module _ {S : Type 0} (env : Env S) where
  get_prev_of_root :
      (r : ℕ) (s : BlockChain S)
      → (s.heap r).parent ≡ none
      → (s.heap r).hash ≡ env.genesis_hash
      → get_prev_node_from_node env r s ≡ (ok none, s)
  unfolding get_prev_node_from_node
  get_prev_of_root r s e h =
      rw (e, get_prev_node_from_node) (if_true _ _ ((==_iff (s.heap r).hash env.genesis_hash).1 h))

  past_times-ancestors :
      (n : ℕ) (start : Option ℕ) (s : BlockChain S)
      → IsRooted env s.heap
      → past_times env n start s ≡ (ok (times_from s.heap n start), s)
  unfolding past_times
  past_times-ancestors zero start s rooted = refl
  past_times-ancestors (suc n) none s rooted = refl
  past_times-ancestors (suc n) (some r) s rooted =
      let cons : Option ℕ → Result (List ℕ) × BlockChain S =
        λ o. (ok ((s.heap r).timestamp ∷ times_from s.heap n o), s) in
      elim (Option-cases (s.heap r).parent) [
        | inl e ↦
            bind_step _ (get_prev_of_root r s e (rooted r e))
              (bind_step _ (past_times-ancestors n none s rooted) (ap cons (sym e)))
        | inr (p, e) ↦
            bind_step _ (get_prev_of_parent env r p s e)
              (bind_step _ (past_times-ancestors n (some p) s rooted) (ap cons (sym e)))
      ]

  -- Where all blocks down to the genesis block are in memory, calcPastMedianTime returns, loads
  -- nothing, and gives a time that at least half of the block's and its last ten ancestors' times
  -- are at most, and at least half are at least.
  pub calc_past_median_time-median :
      (genesis_time r : ℕ) (s : BlockChain S)
      → IsRooted env s.heap
      → (m : ℕ) × (calc_past_median_time env genesis_time (some r) s ≡ (ok m, s))
        × (let times = times_from s.heap median_time_blocks (some r) in
            (length times ≤ 2 * count (λ t. leb t m) times)
            × (length times ≤ 2 * count (leb m) times))
  unfolding calc_past_median_time
  calc_past_median_time-median genesis_time r s rooted =
      let times = times_from s.heap median_time_blocks (some r) in
      let (m, at, low, high) =
        sort-get_elem? leb leb-IsTotalOrder times (length times / 2) (omega arith) in
      (
        m,
        bind_step _ (past_times-ancestors median_time_blocks (some r) s rooted)
            (ap (λ o. (or_panic o, s)) at),
        (omega arith, omega arith),
      )
