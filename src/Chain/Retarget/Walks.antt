-- ===== src/Chain/Retarget/Walks.antt =====
-- The walks down the chain: where the nodes are in memory they load nothing, and end.
use btcchain.Common.{
  ℕ, zero, suc, ◌+◌, ◌-◌, ◌%◌, ◌≤◌, ◌<◌, ◌≡◌, refl, sym, ◌∙◌, ap, inl, inr, arith, Bool, true,
  false, ◌==◌, Bool-cases, ◌⊎◌, Option, none, some, Option-cases, ok, if◌then◌else◌,
}
use btcchain.Common.Int.{pos, int64, ◌-ℤ◌}
use btcchain.Difficulty.Compact.{compact_to_big, big_to_compact}
use btcchain.Chain.State.{BlockNode, BlockChain, Env, bind}
use btcchain.Chain.Nodes.{get_prev_node_from_node, load_block_node}
use btcchain.Chain.Retarget.{
  RetargetParams, blocks_per_retarget, retarget, first_node, calc_next_required_difficulty,
  stops_at, get_last_block_index, or_nil,
}

-- The ancestor that many parents down.
abbrev pub ancestor : (ℕ → BlockNode) → ℕ → ℕ → Option ℕ
ancestor heap zero r = some r
ancestor heap (suc n) r = elim (heap r).parent [ none ↦ none | some p ↦ ancestor heap n p ]

module _ {S : Type 0} (env : Env S) where
  pub get_prev_of_parent :
      (r p : ℕ) (s : BlockChain S)
      → (s.heap r).parent ≡ some p
      → get_prev_node_from_node env r s ≡ (ok (some p), s)
  unfolding get_prev_node_from_node
  get_prev_of_parent r p s e =
      ap
        (λ o. elim o [
          | some q ↦ (ok (some q), s)
          | none ↦
              if (s.heap r).hash == env.genesis_hash
              then (ok none, s)
              else bind (load_block_node env (s.heap r).parent_hash s) (λ q s'. (ok (some q), s'))
        ])
        e

  first_node-ancestor :
      (n r f : ℕ) (s : BlockChain S)
      → ancestor s.heap n r ≡ some f
      → first_node env n (some r) s ≡ (ok (some f), s)
  unfolding first_node bind
  first_node-ancestor zero r f s e = ap (λ o. (ok o, s)) e
  first_node-ancestor (suc n) r f s e = elim (Option-cases (s.heap r).parent) [
    | inl missing ↦ absurd (cc)
    | inr (p, found) ↦ rw (get_prev_of_parent r p s found) (
        first_node-ancestor n p f s
          (sym (ap (λ o. elim o [ none ↦ none | some q ↦ ancestor s.heap n q ]) found) ∙ e))
  ]

  -- The branch for a retarget height, where the 2015 blocks below r are in memory.
  pub calc_next_required_difficulty-retarget :
      (params : RetargetParams) (r f time : ℕ) (s : BlockChain S)
      → ((s.heap r).height + 1) % blocks_per_retarget ≡ 0
      → ancestor s.heap (blocks_per_retarget - 1) r ≡ some f
      → calc_next_required_difficulty env params (some r) time s ≡ (
        ok (
            big_to_compact (
              retarget params
                (compact_to_big (s.heap r).bits)
                (int64 (pos (s.heap r).timestamp -ℤ pos (s.heap f).timestamp)))),
        s,
      )
  unfolding calc_next_required_difficulty bind
  calc_next_required_difficulty-retarget params r f time s boundary below =
      rw
        (
          boundary,
          first_node-ancestor (blocks_per_retarget - 1) r f s below,
          calc_next_required_difficulty,
        )
        refl

-- Each node above height 0 has its parent in memory, at a lower height.
abbrev pub InMemory : (ℕ → BlockNode) → Type 0
InMemory heap =
    (q : ℕ)
    → 0 < (heap q).height
    → (p : ℕ) × ((heap q).parent ≡ some p) × ((heap p).height < (heap q).height)

height_pos : (kind : Bool) (node : BlockNode) → stops_at kind node ≡ false → 0 < node.height
unfolding stops_at
height_pos kind node e = ground arith

not_before :
    (heap : ℕ → BlockNode) (kind : Bool) (r p k : ℕ)
    → stops_at kind (heap r) ≡ false
    → (heap r).parent ≡ some p
    → ((j m : ℕ) → j < k → ancestor heap j p ≡ some m → stops_at kind (heap m) ≡ false)
    → (j m : ℕ) → j < suc k
    → ancestor heap j r ≡ some m
    → stops_at kind (heap m) ≡ false
not_before heap kind r p k e up before zero m lt a = cc
not_before heap kind r p k e up before (suc j) m lt a =
    before j m (omega arith)
      (sym (ap (λ o. elim o [ none ↦ none | some t ↦ ancestor heap j t ]) up) ∙ a)

-- q is the nearest node from r down that getLastBlockIndex stops at.
abbrev pub IsFirstStop : (ℕ → BlockNode) → Bool → ℕ → ℕ → Type 0
IsFirstStop heap kind r q =
    (k : ℕ) × (ancestor heap k r ≡ some q)
    × ((j m : ℕ) → j < k → ancestor heap j r ≡ some m → stops_at kind (heap m) ≡ false)

module _ {S : Type 0} (env : Env S) where
  -- Where getLastBlockIndex stops, by its own test.
  pub get_last_block_index-stops_at :
      (fuel r : ℕ) (kind : Bool) (s : BlockChain S)
      → InMemory s.heap
      → (s.heap r).height < fuel
      → (q : ℕ) × (get_last_block_index env fuel (some r) kind s ≡ (ok (some q), s))
        × (stops_at kind (s.heap q) ≡ true)
        × ((s.heap q).height ≤ (s.heap r).height)
        × IsFirstStop s.heap kind r q
  unfolding get_last_block_index or_nil
  get_last_block_index-stops_at zero r kind s mem h = absurd (omega arith)
  get_last_block_index-stops_at (suc fuel) r kind s mem h =
      elim (Bool-cases (stops_at kind (s.heap r))) [
        | inl e ↦ (
          r,
          rw (e, get_last_block_index) refl,
          e,
          omega arith,
          (0, refl, λ j m lt a. absurd (omega arith)),
        )
        | inr e ↦
            let (p, up, lower) = mem r (height_pos kind (s.heap r) e) in
            let (q, found, stop, below, (k, at, before)) =
              get_last_block_index-stops_at fuel p kind s mem (omega arith) in
            (
              q,
              rw (e, get_prev_of_parent env r p s up, get_last_block_index) found,
              stop,
              omega arith,
              (
                suc k,
                ap (λ o. elim o [ none ↦ none | some t ↦ ancestor s.heap k t ]) up ∙ at,
                not_before s.heap kind r p k e up before,
              ),
            )
      ]

-- A block that is a proof of stake (the lowest bit of its flags is 1) or one that is not.
abbrev pub IsOfKind : Bool → BlockNode → Type 0
IsOfKind true node = node.meta.flags % 2 ≡ 1
IsOfKind false node = node.meta.flags % 2 ≡ 0

stops_at-IsOfKind :
    (kind : Bool) (node : BlockNode)
    → stops_at kind node ≡ true
    → (node.height ≡ 0) ⊎ IsOfKind kind node
unfolding stops_at
stops_at-IsOfKind true node e = elim (Bool-cases (node.height == 0)) [
  | inl h ↦ inl (ground arith)
  | inr h ↦ inr (ground arith)
]
stops_at-IsOfKind false node e = elim (Bool-cases (node.height == 0)) [
  | inl h ↦ inl (ground arith)
  | inr h ↦ inr (ground arith)
]

passes_by :
    (kind : Bool) (node : BlockNode)
    → stops_at kind node ≡ false
    → (0 < node.height) × (¬ IsOfKind kind node)
unfolding stops_at
passes_by true node e = (ground arith, λ k. ground arith)
passes_by false node e = (ground arith, λ k. ground arith)

-- q is the nearest node from r down, r included, that is of the kind or of height 0.
abbrev pub IsNearest : (ℕ → BlockNode) → Bool → ℕ → ℕ → Type 0
IsNearest heap kind r q =
    (((heap q).height ≡ 0) ⊎ IsOfKind kind (heap q))
    × ((k : ℕ) × (ancestor heap k r ≡ some q)
        × ((j m : ℕ)
            → j < k
            → ancestor heap j r ≡ some m
            → (0 < (heap m).height) × (¬ IsOfKind kind (heap m))))

module _ {S : Type 0} (env : Env S) where
  -- Where parents are in memory, getLastBlockIndex loads nothing, ends, and finds the nearest block
  -- of the kind that is looked for (proof of stake or not), or a block of height 0 before it.
  pub get_last_block_index-IsNearest :
      (fuel r : ℕ) (kind : Bool) (s : BlockChain S)
      → InMemory s.heap
      → (s.heap r).height < fuel
      → (q : ℕ) × (get_last_block_index env fuel (some r) kind s ≡ (ok (some q), s))
        × IsNearest s.heap kind r q
  get_last_block_index-IsNearest fuel r kind s mem h =
      let (q, found, stop, below, (k, at, before)) =
        get_last_block_index-stops_at env fuel r kind s mem h in
      (
        q,
        found,
        (
          stops_at-IsOfKind kind (s.heap q) stop,
          (k, at, λ j m lt a. passes_by kind (s.heap m) (before j m lt a)),
        ),
      )
