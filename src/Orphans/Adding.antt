-- ===== src/Orphans/Adding.antt =====
-- addOrphanBlock never panics, and keeps the pool consistent.
use btcchain.Common.{
  ℕ, suc, ◌+◌, ◌*◌, ◌≤◌, ◌≡◌, refl, sym, ◌∙◌, ap, subst, arith, inl, inr, true, false, ◌==◌, ltb,
  Bool-cases, ==_refl, ◌⊎◌, panic, Option, none, some, Option-cases, List, [], ◌∷◌, All, length,
  lookup, lookup-remove, lookup-insert, length-remove-le, if◌then◌else◌, if_true, if_false, Result,
  ok, err, none_not_some,
}
use btcchain.Wire.{Block, nano}
use btcchain.Orphans.{
  OrphanBlock, OrphanPool, orphan_hash, max_orphan_blocks, remove_orphan_block, older, sweep,
  make_room, insert_orphan, add_orphan_block,
}
use btcchain.Orphans.Index.{
  IsConsistent, IsEntry, remove_orphan_block-IsConsistent, insert_orphan-IsConsistent,
  sweep-IsConsistent,
}

-- What a lookup misses before a removal, it misses after.
remove-fresh :
    (h : ℕ) (o : OrphanBlock) (pool : OrphanPool)
    → lookup h pool.orphans ≡ none
    → lookup h (remove_orphan_block o pool).orphans ≡ none
unfolding remove_orphan_block
remove-fresh h o pool fresh = elim (Bool-cases (orphan_hash o == h)) [
  | inl e ↦ lookup-remove (orphan_hash o) h pool.orphans ∙ if_true _ _ e
  | inr e ↦ lookup-remove (orphan_hash o) h pool.orphans ∙ if_false _ _ e ∙ fresh
]

sweep-fresh :
    (now h : ℕ) (es : List (ℕ × OrphanBlock)) (pool : OrphanPool)
    → lookup h pool.orphans ≡ none
    → lookup h (sweep now es pool).orphans ≡ none
unfolding sweep
sweep-fresh now h [] pool fresh = fresh
sweep-fresh now h ((k, o) ∷ es) pool fresh = elim (Bool-cases (ltb o.expiration now)) [
  | inl e ↦ rw e (sweep-fresh now h es (remove_orphan_block o pool) (remove-fresh h o pool fresh))
  | inr e ↦
      rw e (sweep-fresh now h es (record pool { oldest_orphan = older o pool.oldest_orphan }) fresh)
]

older-some :
    (o : OrphanBlock) (oldest : Option OrphanBlock) → (x : OrphanBlock) × (older o oldest ≡ some x)
unfolding older
older-some o none = (o, refl)
older-some o (some old) = (if ltb o.expiration old.expiration then o else old, ground arith)

sweep-some :
    (now : ℕ) (es : List (ℕ × OrphanBlock)) (pool : OrphanPool) (x : OrphanBlock)
    → pool.oldest_orphan ≡ some x
    → (y : OrphanBlock) × ((sweep now es pool).oldest_orphan ≡ some y)
unfolding sweep remove_orphan_block
sweep-some now [] pool x e = (x, e)
sweep-some now ((k, o) ∷ es) pool x e = elim (Bool-cases (ltb o.expiration now)) [
  | inl b ↦ rw b (sweep-some now es (remove_orphan_block o pool) x e)
  | inr b ↦
      let (y, at) = older-some o pool.oldest_orphan in
      rw b (sweep-some now es (record pool { oldest_orphan = older o pool.oldest_orphan }) y at)
]

-- Where the sweep finds no oldest orphan, it has removed each one that it visited.
sweep-emptied :
    (prev_of : ℕ → ℕ) (now j : ℕ) (v : OrphanBlock) (es : List (ℕ × OrphanBlock))
    (pool : OrphanPool)
    → All (IsEntry prev_of) es
    → (sweep now es pool).oldest_orphan ≡ none
    → lookup j (sweep now es pool).orphans ≡ some v
    → (lookup j pool.orphans ≡ some v) × (lookup j es ≡ none)
unfolding sweep remove_orphan_block
sweep-emptied prev_of now j v [] pool all = λ e at. (at, refl)
sweep-emptied prev_of now j v ((k, o) ∷ es) pool all = elim (Bool-cases (ltb o.expiration now)) [
  | inl b ↦ rw b (λ e at.
      let (was, later) = sweep-emptied prev_of now j v es (remove_orphan_block o pool) all.1 e at in
      elim (Bool-cases (orphan_hash o == j)) [
        | inl c ↦ absurd (
            none_not_some
              (sym (lookup-remove (orphan_hash o) j pool.orphans ∙ if_true _ _ c) ∙ was))
        | inr c ↦ (
          sym (lookup-remove (orphan_hash o) j pool.orphans ∙ if_false _ _ c) ∙ was,
          if_false _ _ (subst (λ h. (h == j) ≡ false) all.0.0 c) ∙ later,
        )
      ])
  | inr b ↦ rw b (λ e at.
      let (y, there) = older-some o pool.oldest_orphan in
      let (z, still) =
        sweep-some now es (record pool { oldest_orphan = older o pool.oldest_orphan }) y there in
      absurd (none_not_some (sym e ∙ still)))
]

-- A pool that is not empty after the sweep has an oldest orphan, so there is one to take out.
make_room-returns :
    (prev_of : ℕ → ℕ) (now : ℕ) (pool : OrphanPool)
    → All (IsEntry prev_of) pool.orphans
    → (roomy : OrphanPool) × (make_room (sweep now pool.orphans pool) ≡ ok roomy)
      × ((roomy ≡ sweep now pool.orphans pool)
          ⊎ ((o : OrphanBlock) × ((sweep now pool.orphans pool).oldest_orphan ≡ some o)
              × (roomy ≡ record (remove_orphan_block o (sweep now pool.orphans pool)) {
                oldest_orphan = none;
              })))
unfolding make_room
make_room-returns prev_of now pool all =
    let swept = sweep now pool.orphans pool in
    elim (Bool-cases (ltb max_orphan_blocks (length swept.orphans + 1))) [
      | inr b ↦ (swept, if_false _ _ b, inl refl)
      | inl b ↦ elim (Option-cases swept.oldest_orphan) [
        | inr (o, e) ↦
            let roomy = record (remove_orphan_block o swept) { oldest_orphan = none } in
            (roomy, if_true _ _ b ∙ ap (take_out swept) e, inr (o, e, refl))
        | inl e ↦ absurd (
            nonempty swept.orphans b λ j v at.
              let (was, gone) = sweep-emptied prev_of now j v pool.orphans pool all e at in
              none_not_some (sym gone ∙ was))
      ]
    ]
  where
    take_out : OrphanPool → Option OrphanBlock → Result OrphanPool
    take_out swept none = err panic
    take_out swept (some o) = ok (record (remove_orphan_block o swept) { oldest_orphan = none })

    nonempty :
        (m : List (ℕ × OrphanBlock))
        → ltb max_orphan_blocks (length m + 1) ≡ true
        → ((j : ℕ) (v : OrphanBlock) → lookup j m ≡ some v → ⊥)
        → ⊥
    nonempty [] b never = ground arith
    nonempty ((j, v) ∷ m) b never = never j v (if_true _ _ (==_refl j))

sweep-length :
    (now : ℕ) (es : List (ℕ × OrphanBlock)) (pool : OrphanPool)
    → length (sweep now es pool).orphans ≤ length pool.orphans
unfolding sweep remove_orphan_block
sweep-length now [] pool = omega arith
sweep-length now ((k, o) ∷ es) pool = elim (Bool-cases (ltb o.expiration now)) [
  | inl b ↦ rw b (
      omega (
        arith,
        sweep-length now es (remove_orphan_block o pool),
        length-remove-le (orphan_hash o) pool.orphans,
      ))
  | inr b ↦ rw b (sweep-length now es (record pool { oldest_orphan = older o pool.oldest_orphan }))
]

module _ (prev_of : ℕ → ℕ) where
  add_roomy :
      (now : ℕ) (block : Block) (pool roomy : OrphanPool)
      → make_room (sweep now pool.orphans pool) ≡ ok roomy
      → prev_of block.sha ≡ block.header.prev_block
      → lookup block.sha roomy.orphans ≡ none
      → IsConsistent prev_of roomy
      → length roomy.orphans ≤ length pool.orphans
      → (pool' : OrphanPool) × (o : OrphanBlock) × (add_orphan_block now block pool ≡ ok pool')
        × (o.block ≡ block)
        × (lookup block.sha pool'.orphans ≡ some o)
        × IsConsistent prev_of pool'
        × (length pool'.orphans ≤ suc (length pool.orphans))
  unfolding add_orphan_block insert_orphan
  add_roomy now block pool roomy made prev fresh consistent small =
      let o : OrphanBlock = record { block = block; expiration = now + 3600 * nano } in
      (
        insert_orphan o roomy,
        o,
        rw (made, add_orphan_block) refl,
        refl,
        lookup-insert block.sha block.sha o roomy.orphans ∙ if_true _ _ (==_refl block.sha),
        insert_orphan-IsConsistent prev_of o roomy (sym prev) fresh consistent,
        omega (arith, length-remove-le block.sha roomy.orphans),
      )

  -- For a pool whose two maps agree and a block that is not in it, where a hash fixes the parent,
  -- addOrphanBlock never panics; the block is then found by its hash, the two maps agree again, and
  -- the pool has grown by at most one.
  pub add_orphan_block-IsConsistent :
      (now : ℕ) (block : Block) (pool : OrphanPool)
      → prev_of block.sha ≡ block.header.prev_block
      → lookup block.sha pool.orphans ≡ none
      → IsConsistent prev_of pool
      → (pool' : OrphanPool) × (o : OrphanBlock) × (add_orphan_block now block pool ≡ ok pool')
        × (o.block ≡ block)
        × (lookup block.sha pool'.orphans ≡ some o)
        × IsConsistent prev_of pool'
        × (length pool'.orphans ≤ suc (length pool.orphans))
  unfolding remove_orphan_block
  add_orphan_block-IsConsistent now block pool prev fresh consistent =
      let swept = sweep now pool.orphans pool in
      let valid = sweep-IsConsistent prev_of now pool.orphans pool consistent.0 consistent in
      let missing = sweep-fresh now block.sha pool.orphans pool fresh in
      let small = sweep-length now pool.orphans pool in
      let (roomy, made, which) = make_room-returns prev_of now pool consistent.0 in
      elim which [
        | inl e ↦ add_roomy now block pool roomy made prev (rw e missing) (rw e valid) (rw e small)
        | inr (o, oldest, e) ↦
            let removed =
              remove_orphan_block-IsConsistent prev_of o swept (valid.3 o oldest) valid in
            add_roomy now block pool roomy made prev (rw e (remove-fresh block.sha o swept missing))
              (rw e (removed.0, removed.1, removed.2, λ o' q. absurd (none_not_some q)))
              (rw e (omega (arith, small, length-remove-le (orphan_hash o) swept.orphans)))
      ]
