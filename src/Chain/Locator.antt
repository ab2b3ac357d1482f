-- ===== src/Chain/Locator.antt =====
-- blocklocator.go: the hashes by which a peer finds out where two chains part. Heights are below
-- 2 ^ 62, so that the doubled increment, which is at most twice a height, does not wrap.
pub mod Hashes
use btcchain.Common.{
  ℕ, zero, suc, ◌+◌, ◌-◌, ◌*◌, Option, none, some, List, [], ◌∷◌, ◌++◌, Bool, true, false, not,
  ◌==◌, ltb, leb, if◌then◌else◌, ◌||◌, length, lookup, Result, ok, err, divergence, ◌>>=◌,
}
use btcchain.Wire.{Block}
use btcchain.Chain.State.{BlockNode, BlockChain, Env}

-- The height at which a side chain leaves the main chain, none for -1; on fuel.
unfoldable pub fork_height : ℕ → (ℕ → BlockNode) → ℕ → Result (Option ℕ)
fork_height zero heap n = err divergence
fork_height (suc fuel) heap n = elim (heap n).parent [
  | none ↦ ok none
  | some p ↦ elim (heap n).in_main_chain [
    | true ↦ ok (some (heap n).height)
    | false ↦ fork_height fuel heap p
  ]
]

-- forkHeight for the node of the index, if the hash has one.
unfoldable pub find_fork : (ℕ → BlockNode) → Option ℕ → Result (Option ℕ)
find_fork heap none = ok none
find_fork heap (some n) =
    if (heap n).in_main_chain then ok none else fork_height ((heap n).height + 1) heap n

-- `for iterNode != nil && blockHeight > iterNode.height`, on fuel.
unfoldable pub walk_back : ℕ → (ℕ → BlockNode) → ℕ → Option ℕ → Result (Option ℕ)
walk_back fuel heap block_height none = ok none
walk_back zero heap block_height (some n) = err divergence
walk_back (suc fuel) heap block_height (some n) = elim (ltb (heap n).height block_height) [
  | true ↦ walk_back fuel heap block_height (heap n).parent
  | false ↦ ok (some n)
]

-- The hash of the node, where it stands at the height.
unfoldable pub side_hash : (ℕ → BlockNode) → ℕ → Option ℕ → List ℕ
side_hash heap block_height none = []
side_hash heap block_height (some n) =
    if (heap n).height == block_height then (heap n).hash ∷ [] else []

abbrev pub above_fork : Option ℕ → ℕ → Bool
above_fork none block_height = false
above_fork (some fork) block_height = ltb fork block_height

abbrev pub fuel_of : (ℕ → BlockNode) → Option ℕ → ℕ
fuel_of heap none = 1
fuel_of heap (some n) = (heap n).height + 2

module _ {S : Type 0} (env : Env S) (max_locators : ℕ) where
  open env use {fetch_block_sha_by_height, fetch_block_by_sha, newest_sha, genesis_hash}

  -- The hash of the main chain at a height; an error is passed over.
  unfoldable pub main_hash : S → ℕ → List ℕ
  main_hash db block_height = elim (fetch_block_sha_by_height db block_height) [
    | err e ↦ []
    | ok h ↦ h ∷ []
  ]

  -- The main loop, on fuel, from the height and the increment of the round before.
  unfoldable pub add_hashes :
      ℕ → BlockChain S → Option ℕ → Option ℕ → ℕ → ℕ → List ℕ → Result (List ℕ)
  add_hashes zero s fork iter_node increment block_height locator = err divergence
  add_hashes (suc fuel) s fork iter_node increment block_height locator =
      let step : ℕ = if ltb 10 (length locator) then increment * 2 else increment in
      let next : ℕ = block_height - step in
      elim (leb (max_locators - 1) (length locator) || leb block_height step) [
        | true ↦ ok locator
        | false ↦ elim (above_fork fork next) [
          | true ↦ walk_back (fuel_of s.heap iter_node) s.heap next iter_node >>= λ iter.
              add_hashes fuel s fork iter step next (locator ++ side_hash s.heap next iter)
          | false ↦ add_hashes fuel s fork iter_node step next (locator ++ main_hash s.db next)
        ]
      ]

  unfoldable pub finish : BlockChain S → ℕ → Option ℕ → Option ℕ → ℕ → Result (List ℕ)
  finish s hash fork node_at block_height =
      add_hashes (block_height + 1) s fork node_at 1 block_height (hash ∷ []) >>= λ locator.
      ok (locator ++ (genesis_hash ∷ []))

  unfoldable pub block_locator_from_hash : ℕ → BlockChain S → Result (List ℕ)
  block_locator_from_hash hash s =
      if hash == genesis_hash then ok (hash ∷ []) else elim (lookup hash s.index) [
        | none ↦ elim (fetch_block_by_sha s.db hash) [
          | err e ↦ ok (hash ∷ [])
          | ok block ↦ finish s hash none none block.height
        ]
        | some n ↦
            find_fork s.heap (some n) >>= λ fork. finish s hash fork (some n) (s.heap n).height
      ]

  unfoldable pub latest_block_locator : BlockChain S → Result (List ℕ)
  latest_block_locator s = elim s.best_chain [
    | none ↦ newest_sha s.db >>= λ (hash, _). block_locator_from_hash hash s
    | some best ↦ block_locator_from_hash (s.heap best).hash s
  ]
