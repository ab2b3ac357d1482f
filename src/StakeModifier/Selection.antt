-- ===== src/StakeModifier/Selection.antt =====
-- What selectBlockFromCandidates chooses where the candidates' nodes are in the index.
use btcchain.Common.{
  ℕ, ◌≤◌, ◌≡◌, refl, sym, ap, subst, arith, none, some, List, [], ◌∷◌, any, true, false, ◌==◌, ltb,
  lookup, ok, inl, inr, Bool-cases, All,
}
use btcchain.Common.Int.{ℤ, pos, ltb_ℤ}
use btcchain.Wire.{unix}
use btcchain.Chain.State.{BlockNode, BlockChain, Env, bind_step}
use btcchain.Chain.Nodes.{load_block_node}
use btcchain.Chain.Pruning.{get_block_node}
use btcchain.StakeModifier.{
  BlockTimeHash, Chosen, select_block, selection_hash, better, past_stop, look_at,
}

-- The nodes of the candidates, as the index has them.
abbrev pub Indexed : {S : Type 0} → BlockChain S → List BlockTimeHash → List ℕ → Type 0
Indexed s [] [] = Unit {0}
Indexed s [] (r ∷ rs) = ⊥
Indexed s (item ∷ items) [] = ⊥
Indexed s (item ∷ items) (r ∷ rs) = (lookup item.hash s.index ≡ some r) × Indexed s items rs

module _ (double_sha256 : List ℕ → ℕ) (heap : ℕ → BlockNode) (selected : List ℕ) (prev : ℕ) where
  -- The loop over nodes that are known.
  unfoldable pub choose : List ℕ → ℤ → Chosen → Chosen
  choose [] stop best = best
  choose (r ∷ rs) stop best = elim (past_stop double_sha256 best stop (heap r)) [
    | true ↦ best
    | false ↦ choose rs stop (look_at double_sha256 selected prev best r (heap r))
  ]

  -- A choice that no node beats: chosen ones have their selection hash and were not chosen before.
  abbrev pub IsOwn : Chosen → Type 0
  IsOwn none = Unit {0}
  IsOwn (some (h, r)) =
      (h ≡ selection_hash double_sha256 prev (heap r)) × (any (λ q. q == r) selected ≡ false)

  abbrev pub AtMost : Chosen → ℕ → Type 0
  AtMost none h = ⊥
  AtMost (some (h', r)) h = h' ≤ h

  -- One look keeps the choice its own and only lowers it.
  look_at-IsOwn :
      (r : ℕ) (best : Chosen)
      → IsOwn best
      → IsOwn (look_at double_sha256 selected prev best r (heap r))
  unfolding look_at better
  look_at-IsOwn r none own = elim (Bool-cases (any (λ q. q == r) selected)) [
    | inl e ↦ rw (e, look_at) tt
    | inr e ↦ rw (e, look_at) (refl, e)
  ]
  look_at-IsOwn r (some (h', r')) own = elim (Bool-cases (any (λ q. q == r) selected)) [
    | inl e ↦ rw (e, look_at) own
    | inr e ↦ elim (Bool-cases (ltb (selection_hash double_sha256 prev (heap r)) h')) [
      | inl f ↦ rw (e, f, better, look_at) (refl, e)
      | inr f ↦ rw (e, f, better, look_at) own
    ]
  ]

  look_at-IsOwn_all :
      (rs : List ℕ) (stop : ℤ) (best : Chosen) → IsOwn best → IsOwn (choose rs stop best)
  unfolding choose
  look_at-IsOwn_all [] stop best own = own
  look_at-IsOwn_all (r ∷ rs) stop best own =
      elim (Bool-cases (past_stop double_sha256 best stop (heap r))) [
        | inl e ↦ rw (e, choose) own
        | inr e ↦ rw (e, choose) (look_at-IsOwn_all rs stop _ (look_at-IsOwn r best own))
      ]

  look_at_lowers :
      (r h : ℕ) (best : Chosen)
      → AtMost best h
      → AtMost (look_at double_sha256 selected prev best r (heap r)) h
  unfolding look_at better
  look_at_lowers r h none low = absurd low
  look_at_lowers r h (some (h', r')) low = elim (Bool-cases (any (λ q. q == r) selected)) [
    | inl e ↦ rw (e, look_at) low
    | inr e ↦ elim (Bool-cases (ltb (selection_hash double_sha256 prev (heap r)) h')) [
      | inl f ↦ rw (e, f, better, look_at) (ground arith)
      | inr f ↦ rw (e, f, better, look_at) low
    ]
  ]

  look_at_counts :
      (r : ℕ) (best : Chosen)
      → any (λ q. q == r) selected ≡ false
      → AtMost
          (look_at double_sha256 selected prev best r (heap r))
          (selection_hash double_sha256 prev (heap r))
  unfolding look_at better
  look_at_counts r none e = rw (e, look_at) (omega arith)
  look_at_counts r (some (h', r')) e =
      elim (Bool-cases (ltb (selection_hash double_sha256 prev (heap r)) h')) [
        | inl f ↦ rw (e, f, better, look_at) (omega arith)
        | inr f ↦ rw (e, f, better, look_at) (ground arith)
      ]

  choose_lowers :
      (rs : List ℕ) (stop : ℤ) (h : ℕ) (best : Chosen)
      → AtMost best h
      → AtMost (choose rs stop best) h
  unfolding choose
  choose_lowers [] stop h best low = low
  choose_lowers (r ∷ rs) stop h best low =
      elim (Bool-cases (past_stop double_sha256 best stop (heap r))) [
        | inl e ↦ rw (e, choose) low
        | inr e ↦ rw (e, choose) (choose_lowers rs stop h _ (look_at_lowers r h best low))
      ]

  abbrev time_of : ℕ → ℕ
  time_of r = unix (heap r).timestamp

  -- The nodes stand in the order of their times.
  abbrev pub Ascending : List ℕ → Type 0
  Ascending [] = Unit {0}
  Ascending (r ∷ rs) = All (λ q. time_of r ≤ time_of q) rs × Ascending rs

  -- What the choice is held against: the nodes not chosen before and not after the stop.
  abbrev pub Beaten : ℤ → Chosen → ℕ → Type 0
  Beaten stop best r =
      any (λ q. q == r) selected ≡ false
      → ltb_ℤ stop (pos (time_of r)) ≡ false
      → AtMost best (selection_hash double_sha256 prev (heap r))

  stopped :
      (stop : ℤ) (best result : Chosen) (r : ℕ)
      → past_stop double_sha256 best stop (heap r) ≡ true
      → ltb_ℤ stop (pos (time_of r)) ≡ true
  unfolding past_stop
  stopped stop none result r e = absurd (cc)
  stopped stop (some _) result r e = e

  later : (stop : ℤ) (t u : ℕ) → t ≤ u → ltb_ℤ stop (pos t) ≡ true → ltb_ℤ stop (pos u) ≡ true
  later stop t u h e = ground arith

  late-Beaten :
      (stop : ℤ) (best : Chosen) (r : ℕ) (rs : List ℕ)
      → ltb_ℤ stop (pos (time_of r)) ≡ true
      → All (λ q. time_of r ≤ time_of q) rs
      → All (Beaten stop best) rs
  late-Beaten stop best r [] e all = tt
  late-Beaten stop best r (q ∷ rs) e (h, all) = (
    λ _ early. absurd (cc (later stop (time_of r) (time_of q) h e)),
    late-Beaten stop best r rs e all,
  )

  choose_stops :
      (r : ℕ) (rs : List ℕ) (stop : ℤ) (best : Chosen)
      → past_stop double_sha256 best stop (heap r) ≡ true
      → choose (r ∷ rs) stop best ≡ best
  unfolding choose
  choose_stops r rs stop best e = rw (e, choose) refl

  choose_goes_on :
      (r : ℕ) (rs : List ℕ) (stop : ℤ) (best : Chosen)
      → past_stop double_sha256 best stop (heap r) ≡ false
      → choose (r ∷ rs) stop best
        ≡ choose rs stop (look_at double_sha256 selected prev best r (heap r))
  unfolding choose
  choose_goes_on r rs stop best e = rw (e, choose) refl

  choose-All :
      (rs : List ℕ) (stop : ℤ) (best : Chosen)
      → Ascending rs
      → All (Beaten stop (choose rs stop best)) rs
  choose-All [] stop best sorted = tt
  choose-All (r ∷ rs) stop best (first, sorted) =
      elim (Bool-cases (past_stop double_sha256 best stop (heap r))) [
        | inl e ↦
            let p = stopped stop best best r e in
            subst (λ c. All (Beaten stop c) (r ∷ rs)) (sym (choose_stops r rs stop best e))
              (λ _ early. absurd (cc), late-Beaten stop best r rs p first)
        | inr e ↦
            subst (λ c. All (Beaten stop c) (r ∷ rs)) (sym (choose_goes_on r rs stop best e))
              (
                λ fresh _. choose_lowers rs stop _ _ (look_at_counts r best fresh),
                choose-All rs stop _ sorted,
              )
      ]

module _ (double_sha256 : List ℕ → ℕ) {S : Type 0} (env : Env S) where
  get_block_node_known :
      (hash r : ℕ) (s : BlockChain S)
      → lookup hash s.index ≡ some r
      → get_block_node env hash s ≡ (ok r, s)
  unfolding get_block_node
  get_block_node_known hash r s e =
      ap (λ o. elim o [ some q ↦ (ok q, s) | none ↦ load_block_node env hash s ]) e

  select_block-choose :
      (items : List BlockTimeHash) (rs selected : List ℕ) (stop : ℤ) (prev : ℕ) (best : Chosen)
      (s : BlockChain S)
      → Indexed s items rs
      → select_block double_sha256 env items selected stop prev best s
        ≡ (ok (choose double_sha256 s.heap selected prev rs stop best), s)
  unfolding select_block choose
  select_block-choose [] [] selected stop prev best s known = refl
  select_block-choose [] (r ∷ rs) selected stop prev best s known = absurd known
  select_block-choose (item ∷ items) [] selected stop prev best s known = absurd known
  select_block-choose (item ∷ items) (r ∷ rs) selected stop prev best s (known, more) =
      bind_step _ (get_block_node_known item.hash r s known)
        (elim (Bool-cases (past_stop double_sha256 best stop (s.heap r))) [
          | inl e ↦ rw (e, choose_stops double_sha256 s.heap selected prev r rs stop best e) refl
          | inr e ↦
              rw (e, choose_goes_on double_sha256 s.heap selected prev r rs stop best e)
                (select_block-choose items rs selected stop prev
                  (look_at double_sha256 selected prev best r (s.heap r)) s more)
        ])

  -- Where the candidates' nodes are in the index and stand in the order of their times,
  -- selectBlockFromCandidates loads nothing and succeeds; what it chooses was not chosen before, and
  -- has a selection hash that is at most that of each candidate that was not chosen before and is not
  -- after the stop.
  pub select_block-lowest :
      (items : List BlockTimeHash) (rs selected : List ℕ) (stop : ℤ) (prev : ℕ) (s : BlockChain S)
      → Indexed s items rs
      → Ascending double_sha256 s.heap selected prev rs
      → (best : Chosen) × (select_block double_sha256 env items selected stop prev none s
          ≡ (ok best, s))
        × IsOwn double_sha256 s.heap selected prev best
        × All (Beaten double_sha256 s.heap selected prev stop best) rs
  select_block-lowest items rs selected stop prev s known sorted = (
    choose double_sha256 s.heap selected prev rs stop none,
    select_block-choose items rs selected stop prev none s known,
    look_at-IsOwn_all double_sha256 s.heap selected prev rs stop none tt,
    choose-All double_sha256 s.heap selected prev rs stop none sorted,
  )
