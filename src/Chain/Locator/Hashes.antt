-- ===== src/Chain/Locator/Hashes.antt =====
-- A block locator is built in full, within its size, and of main-chain hashes alone.
use mathlib.Core.List.{append_assoc, append-nil}
use btcchain.Common.{
  ℕ, zero, suc, ◌+◌, ◌-◌, ◌*◌, ◌≤◌, ◌<◌, ◌≡◌, ◌⊎◌, inl, inr, refl, sym, ◌∙◌, ap, subst, arith,
  Option, none, some, Option-cases, List, [], ◌∷◌, ◌++◌, false, ◌==◌, ◌||◌, ltb, leb, Bool-cases,
  if◌then◌else◌, if_true, if_false, All, length, length-append, lookup, ok, Result-cases, some_inj,
  none_not_some,
}
use btcchain.Chain.State.{BlockNode, BlockChain, Env}
use btcchain.Chain.Connect.Branches.{IsDescending}
use btcchain.Chain.Locator.{
  fork_height, find_fork, walk_back, side_hash, above_fork, fuel_of, main_hash, add_hashes, finish,
  block_locator_from_hash,
}

fork_height-ends :
    (heap : ℕ → BlockNode)
    → IsDescending heap
    → (fuel n : ℕ) → (heap n).height < fuel
    → (fork : Option ℕ) × (fork_height fuel heap n ≡ ok fork)
unfolding fork_height
fork_height-ends heap falls zero n h = absurd (omega arith)
fork_height-ends heap falls (suc fuel) n h = elim (Option-cases (heap n).parent) [
  | inl e ↦ (none, rw (e, fork_height) refl)
  | inr (p, e) ↦ elim (Bool-cases (heap n).in_main_chain) [
    | inl main ↦ (some (heap n).height, rw (e, main, fork_height) refl)
    | inr side ↦
        let lower = falls n p e in
        let (fork, found) = fork_height-ends heap falls fuel p (omega arith) in
        (fork, rw (e, side, fork_height) found)
  ]
]

find_fork-ends :
    (heap : ℕ → BlockNode)
    → IsDescending heap
    → (n : ℕ) → (fork : Option ℕ) × (find_fork heap (some n) ≡ ok fork)
unfolding find_fork
find_fork-ends heap falls n = elim (Bool-cases (heap n).in_main_chain) [
  | inl main ↦ (none, if_true _ _ main)
  | inr side ↦
      let (fork, found) = fork_height-ends heap falls ((heap n).height + 1) n (omega arith) in
      (fork, if_false _ _ side ∙ found)
]

-- The walk along the side chain stays where it is, since the height asked for is lower.
walk_back-stays :
    (heap : ℕ → BlockNode) (next : ℕ) (iter : Option ℕ)
    → ((n : ℕ) → iter ≡ some n → next < (heap n).height)
    → (walk_back (fuel_of heap iter) heap next iter ≡ ok iter) × (side_hash heap next iter ≡ [])
unfolding walk_back side_hash
walk_back-stays heap next none above = (refl, refl)
walk_back-stays heap next (some n) above =
    let lower = above n refl in
    let stop : ltb (heap n).height next ≡ false = ground arith in
    let off : ((heap n).height == next) ≡ false = ground arith in
    let fuel : (heap n).height + 2 ≡ suc ((heap n).height + 1) = omega arith in
    (rw (fuel, stop, walk_back) refl, if_false _ _ off)

All-append : (P : ℕ → Type 0) (xs ys : List ℕ) → All P xs → All P ys → All P (xs ++ ys)
All-append P [] ys a b = b
All-append P (x ∷ xs) ys a b = (a.0, All-append P xs ys a.1 b)

module _ {S : Type 0} (env : Env S) (max_locators : ℕ) where
  -- A main-chain hash, at a height that the fork does not rule out.
  abbrev pub IsMain : S → Option ℕ → ℕ → Type 0
  IsMain db fork hash =
      (k : ℕ) × (above_fork fork k ≡ false) × (env.fetch_block_sha_by_height db k ≡ ok hash)

  main_hash-IsMain :
      (db : S) (fork : Option ℕ) (k : ℕ)
      → above_fork fork k ≡ false
      → All (IsMain db fork) (main_hash env max_locators db k)
        × (length (main_hash env max_locators db k) ≤ 1)
  unfolding main_hash
  main_hash-IsMain db fork k below = elim (Result-cases (env.fetch_block_sha_by_height db k)) [
    | inl (h, e) ↦ rw (e, main_hash) (((k, below, e), tt), omega arith)
    | inr (x, e) ↦ rw (e, main_hash) (tt, omega arith)
  ]

  add_hashes-IsMain :
      (fuel : ℕ) (s : BlockChain S) (fork iter : Option ℕ) (increment block_height : ℕ)
      (locator : List ℕ)
      → block_height < fuel
      → 0 < increment
      → ((n : ℕ) → iter ≡ some n → block_height ≤ (s.heap n).height)
      → length locator ≤ max_locators - 1
      → (mids : List ℕ) × (add_hashes env max_locators fuel s fork iter increment block_height
            locator
          ≡ ok (locator ++ mids))
        × (length (locator ++ mids) ≤ max_locators - 1)
        × All (IsMain s.db fork) mids
  unfolding add_hashes
  add_hashes-IsMain zero s fork iter increment block_height locator h pos at small =
      absurd (omega arith)
  add_hashes-IsMain (suc fuel) s fork iter increment block_height locator h pos at small =
      let step : ℕ = if ltb 10 (length locator) then increment * 2 else increment in
      let step_pos : 0 < step = ground arith in
      let next : ℕ = block_height - step in
      elim (Bool-cases (leb (max_locators - 1) (length locator) || leb block_height step)) [
        | inl stop ↦ (
          [],
          rw (stop, add_hashes) (ap ok (sym (append-nil locator))),
          rw (append-nil locator) small,
          tt,
        )
        | inr go ↦
            let shorter : next < block_height = ground arith in
            let room : length locator < max_locators - 1 = ground arith in
            let high : (n : ℕ) → iter ≡ some n → next < (s.heap n).height =
              λ n e. let old = at n e in omega arith in
            elim (Bool-cases (above_fork fork next)) [
              | inl side ↦
                  let (stays, nothing) = walk_back-stays s.heap next iter high in
                  let (mids, done, len, main) =
                    add_hashes-IsMain fuel s fork iter step next locator (omega arith) step_pos
                      (λ n e. let old = at n e in omega arith) small in
                  (
                    mids,
                    rw (go, side, stays, nothing, append-nil locator, add_hashes) done,
                    len,
                    main,
                  )
              | inr below ↦
                  let (new, one) = main_hash-IsMain s.db fork next below in
                  let hashes = main_hash env max_locators s.db next in
                  let (mids, done, len, main) =
                    add_hashes-IsMain fuel s fork iter step next (locator ++ hashes) (omega arith)
                      step_pos (λ n e. let old = at n e in omega arith)
                      (omega (arith, length-append locator hashes)) in
                  let same : locator ++ hashes ++ mids ≡ locator ++ (hashes ++ mids) =
                    append_assoc locator hashes mids in
                  (
                    hashes ++ mids,
                    rw (go, below, add_hashes) (done ∙ ap ok same),
                    subst (λ l. length l ≤ max_locators - 1) same len,
                    All-append (IsMain s.db fork) hashes mids new main,
                  )
            ]
      ]

  -- What a locator for a hash looks like.
  abbrev pub IsLocator : BlockChain S → ℕ → List ℕ → Type 0
  IsLocator s hash l =
      (length l ≤ max_locators)
      × ((l ≡ hash ∷ [])
          ⊎ ((fork : Option ℕ) × (mids : List ℕ) × (find_fork s.heap (lookup hash s.index)
                ≡ ok fork)
              × (l ≡ hash ∷ (mids ++ (env.genesis_hash ∷ [])))
              × All (IsMain s.db fork) mids))

  finish-IsLocator :
      (hash : ℕ) (s : BlockChain S) (fork node_at : Option ℕ) (block_height : ℕ)
      → 2 ≤ max_locators
      → find_fork s.heap (lookup hash s.index) ≡ ok fork
      → ((n : ℕ) → node_at ≡ some n → block_height ≤ (s.heap n).height)
      → (l : List ℕ) × (finish env max_locators s hash fork node_at block_height ≡ ok l)
        × IsLocator s hash l
  unfolding finish
  finish-IsLocator hash s fork node_at block_height two forks at =
      let (mids, done, len, main) =
        add_hashes-IsMain (block_height + 1) s fork node_at 1 block_height (hash ∷ []) (omega arith)
          (omega arith) at (omega arith) in
      (
        hash ∷ (mids ++ (env.genesis_hash ∷ [])),
        rw (done, finish) refl,
        (
          omega (arith, len, length-append mids (env.genesis_hash ∷ [])),
          inr (fork, mids, forks, refl, main),
        ),
      )

  -- Where heights fall along parents and the size allows two hashes at least, BlockLocatorFromHash
  -- ends with a locator within the size that starts with the hash that was asked for. It is that one
  -- hash alone, or after it come hashes that the database gave for heights of the main chain, none
  -- above the fork for a hash of a side chain, and then the genesis hash.
  pub block_locator_from_hash-IsLocator :
      (hash : ℕ) (s : BlockChain S)
      → IsDescending s.heap
      → 2 ≤ max_locators
      → (l : List ℕ) × (block_locator_from_hash env max_locators hash s ≡ ok l) × IsLocator s hash l
  unfolding block_locator_from_hash find_fork
  block_locator_from_hash-IsLocator hash s falls two =
      elim (Bool-cases (hash == env.genesis_hash)) [
        | inl e ↦ (hash ∷ [], rw (e, block_locator_from_hash) refl, (omega arith, inl refl))
        | inr other ↦ elim (Option-cases (lookup hash s.index)) [
          | inl e ↦ elim (Result-cases (env.fetch_block_by_sha s.db hash)) [
            | inr (x, failed) ↦ (
              hash ∷ [],
              rw (other, e, failed, block_locator_from_hash) refl,
              (omega arith, inl refl),
            )
            | inl (block, got) ↦
                let (l, done, is) =
                  finish-IsLocator hash s none none block.height two (ap (find_fork s.heap) e)
                    (λ n q. absurd (none_not_some q)) in
                (l, rw (other, e, got, block_locator_from_hash) done, is)
          ]
          | inr (n, e) ↦
              let (fork, forks) = find_fork-ends s.heap falls n in
              let (l, done, is) =
                finish-IsLocator hash s fork (some n) (s.heap n).height two
                  (ap (find_fork s.heap) e ∙ forks)
                  (λ m q.
                    subst (λ k. (s.heap n).height ≤ (s.heap k).height) (some_inj q)
                      (omega arith)) in
              (l, rw (other, e, forks, block_locator_from_hash) done, is)
        ]
      ]
