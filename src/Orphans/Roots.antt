-- ===== src/Orphans/Roots.antt =====
-- GetOrphanRoot ends, and gives the first block of a chain of orphans.
use btcchain.Common.{
  ℕ, zero, suc, ◌+◌, ◌≤◌, ◌<◌, ◌≡◌, refl, sym, ◌∙◌, arith, ◌⊎◌, inl, inr, ◌==◌, leb, Bool-cases,
  ==_iff, none, some, Option-cases, List, [], ◌∷◌, length, lookup, if◌then◌else◌, if_false, ok,
}
use btcchain.Orphans.{OrphanBlock, OrphanPool, orphan_prev, root_loop, get_orphan_root}

-- `root` is reached from `hash` by going from orphans to their parents.
pub data Reaches (orphans : List (ℕ × OrphanBlock)) : ℕ → ℕ → Type 0 where
  here : {hash : ℕ} → Reaches orphans hash hash
  up :
      {hash root : ℕ} {o : OrphanBlock}
      → lookup hash orphans ≡ some o
      → Reaches orphans (orphan_prev o) root
      → Reaches orphans hash root

module _ (depth : ℕ → ℕ) where
  -- The number of entries whose hash is no deeper than n.
  up_to : ℕ → List (ℕ × OrphanBlock) → ℕ
  up_to n [] = 0
  up_to n ((h, o) ∷ m) = (if leb (depth h) n then 1 else 0) + up_to n m

  up_to-le-length : (n : ℕ) (m : List (ℕ × OrphanBlock)) → up_to n m ≤ length m
  unfolding up_to
  up_to-le-length n [] = omega arith
  up_to-le-length n ((h, o) ∷ m) = ground (arith, up_to-le-length n m)

  up_to_mono : (a b : ℕ) (m : List (ℕ × OrphanBlock)) → a ≤ b → up_to a m ≤ up_to b m
  unfolding up_to
  up_to_mono a b [] h = omega arith
  up_to_mono a b ((k, o) ∷ m) h = ground (arith, up_to_mono a b m h)

  up_to-lt :
      (a hash : ℕ) (o : OrphanBlock) (m : List (ℕ × OrphanBlock))
      → a < depth hash
      → lookup hash m ≡ some o
      → up_to a m < up_to (depth hash) m
  unfolding up_to
  up_to-lt a hash o [] h e = absurd (cc)
  up_to-lt a hash o ((k, v) ∷ m) h e = elim (Bool-cases (k == hash)) [
    | inl same ↦
        let q : k ≡ hash = (==_iff k hash).0 same in
        rw q (ground (arith, up_to_mono a (depth hash) m))
    | inr other ↦ ground (arith, up_to-lt a hash o m h (sym (if_false _ _ other) ∙ e))
  ]

  root_loop-root :
      (fuel : ℕ) (orphans : List (ℕ × OrphanBlock)) (orphan_root prev_hash : ℕ)
      → ((h : ℕ) (o : OrphanBlock) → lookup h orphans ≡ some o → depth (orphan_prev o) < depth h)
      → up_to (depth prev_hash) orphans < fuel
      → (root : ℕ) × (root_loop fuel orphans orphan_root prev_hash ≡ ok root)
        × (((lookup prev_hash orphans ≡ none) × (root ≡ orphan_root))
            ⊎ (Reaches orphans prev_hash root
                × ((o : OrphanBlock) × (lookup root orphans ≡ some o)
                    × (lookup (orphan_prev o) orphans ≡ none))))
  unfolding root_loop
  root_loop-root zero orphans orphan_root prev_hash falls h = absurd (omega arith)
  root_loop-root (suc fuel) orphans orphan_root prev_hash falls h =
      elim (Option-cases (lookup prev_hash orphans)) [
        | inl e ↦ (orphan_root, rw (e, root_loop) refl, inl (e, refl))
        | inr (o, e) ↦
            let lower =
              up_to-lt (depth (orphan_prev o)) prev_hash o orphans (falls prev_hash o e) e in
            let (root, found, which) =
              root_loop-root fuel orphans prev_hash (orphan_prev o) falls (omega arith) in
            (
              root,
              rw (e, root_loop) found,
              inr (elim which [
                | inl (top, same) ↦ (rw same here, (o, rw same e, top))
                | inr (reaches, rest) ↦ (up e reaches, rest)
              ]),
            )
      ]

  -- Where each orphan lies deeper than its parent, GetOrphanRoot ends: for a hash that is no
  -- orphan's it gives that hash, and otherwise the orphan that is reached by going to parents as
  -- long as they are orphans.
  pub get_orphan_root-root :
      (hash : ℕ) (pool : OrphanPool)
      → ((h : ℕ) (o : OrphanBlock)
          → lookup h pool.orphans ≡ some o
          → depth (orphan_prev o) < depth h)
      → (root : ℕ) × (get_orphan_root hash pool ≡ ok root)
        × (((lookup hash pool.orphans ≡ none) × (root ≡ hash))
            ⊎ (Reaches pool.orphans hash root
                × ((o : OrphanBlock) × (lookup root pool.orphans ≡ some o)
                    × (lookup (orphan_prev o) pool.orphans ≡ none))))
  unfolding get_orphan_root
  get_orphan_root-root hash pool falls =
      root_loop-root (length pool.orphans + 1) pool.orphans hash hash falls
        (omega (arith, up_to-le-length (depth hash) pool.orphans))
