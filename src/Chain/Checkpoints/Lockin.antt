-- ===== src/Chain/Checkpoints/Lockin.antt =====
-- The checkpoint that the chain is locked into moves forward through the net's list.
use btcchain.Common.{
  ℕ, zero, suc, ◌+◌, ◌≤◌, ◌<◌, ◌≡◌, ◌≢◌, ◌⊎◌, inl, inr, refl, sym, ◌∙◌, ap, subst, arith, Option,
  none, some, List, [], ◌∷◌, ◌||◌, Bool, false, ◌==◌, ==_iff, ltb, Bool-cases, if_false, length,
  get_elem?, Result, ok, Result-cases, ok_inj, some_inj, none_not_some,
}
use btcchain.Wire.{Block}
use btcchain.Chain.State.{BlockChain, Checkpoint, Env, bind}
use btcchain.Chain.Checkpoints.{
  find_hash, advance, from_cache, search_from, find_previous_checkpoint,
}

pub get_elem?-in_range :
    {A : Type 0} (l : List A) (i : ℕ) → i < length l → (a : A) × (get_elem? l i ≡ some a)
get_elem?-in_range [] i h = absurd (omega arith)
get_elem?-in_range (x ∷ l) zero h = (x, refl)
get_elem?-in_range (x ∷ l) (suc i) h = get_elem?-in_range l i (omega arith)

get_elem?-lt : {A : Type 0} (l : List A) (i : ℕ) (a : A) → get_elem? l i ≡ some a → i < length l
get_elem?-lt [] i a e = absurd (none_not_some e)
get_elem?-lt (x ∷ l) zero a e = omega arith
get_elem?-lt (x ∷ l) (suc i) a e = let h = get_elem?-lt l i a e in omega (arith, h)

-- No hash stands twice in the list.
abbrev pub IsDistinct : List Checkpoint → Type 0
IsDistinct checkpoints =
    (i j : ℕ) (c d : Checkpoint)
    → get_elem? checkpoints i ≡ some c
    → get_elem? checkpoints j ≡ some d
    → c.hash ≡ d.hash
    → i ≡ j

module _ (checkpoints : List Checkpoint) where
  find_hash_at :
      (n k : ℕ) (c : Checkpoint)
      → IsDistinct checkpoints
      → n ≤ length checkpoints
      → k < n
      → get_elem? checkpoints k ≡ some c
      → find_hash checkpoints c.hash n ≡ some k
  unfolding find_hash
  find_hash_at zero k c distinct h lt at = absurd (omega arith)
  find_hash_at (suc i) k c distinct h lt at =
      let (d, there) = get_elem?-in_range checkpoints i (omega arith) in
      elim (Bool-cases (d.hash == c.hash)) [
        | inl e ↦
            let q : i ≡ k = distinct i k d c there at ((==_iff d.hash c.hash).0 e) in
            rw (there, e, find_hash) (ap some q)
        | inr e ↦
            let other : i ≢ k =
              λ q. differ d c e (some_inj (sym there ∙ ap (get_elem? checkpoints) q ∙ at)) in
            rw (there, e, find_hash)
              (find_hash_at i k c distinct (omega arith) (omega (arith, other)) at)
      ]
    where
      differ : (d c : Checkpoint) → (d.hash == c.hash) ≡ false → d ≢ c
      differ d c e q = ground (arith, ap Checkpoint.hash q)

le_of_test : (a b : ℕ) → ltb a b ≡ false → b ≤ a
le_of_test a b h = ground arith

nonempty : (b : Bool) (n : ℕ) → (b || (n == 0)) ≡ false → 0 < n
nonempty b n h = ground arith

module _ {S : Type 0} (env : Env S) (checkpoints : List Checkpoint) where
  -- The chain is locked into the first k checkpoints: the last of them is the cached block, and the
  -- one after them is the next.
  abbrev pub LockedAt : ℕ → BlockChain S → Type 0
  LockedAt zero s = (s.next_checkpoint ≡ get_elem? checkpoints 0) × (s.checkpoint_block ≡ none)
  LockedAt (suc j) s =
      (s.next_checkpoint ≡ get_elem? checkpoints (suc j))
      × ((c : Checkpoint) × (b : Block) × (get_elem? checkpoints j ≡ some c)
          × (s.checkpoint_block ≡ some b)
          × (b.sha ≡ c.hash))

  LockedAt-next :
      (k : ℕ) (s : BlockChain S) → LockedAt k s → s.next_checkpoint ≡ get_elem? checkpoints k
  LockedAt-next zero s l = l.0
  LockedAt-next (suc j) s l = l.0

  -- The outcome of a search from a state that is locked at k.
  abbrev pub Advances : ℕ → ℕ → Result (Option Block) → BlockChain S → Type 0
  Advances height k result s' =
      (LockedAt k s'
        ⊎ (LockedAt (suc k) s'
            × ((c : Checkpoint) × (get_elem? checkpoints k ≡ some c) × (c.height ≤ height))))
      × ((block : Option Block) → result ≡ ok block → block ≡ s'.checkpoint_block)

  advance-Advances :
      (height k : ℕ) (next : Checkpoint) (s : BlockChain S)
      → ((db : S) (hash : ℕ) (b : Block) → env.fetch_block_by_sha db hash ≡ ok b → b.sha ≡ hash)
      → IsDistinct checkpoints
      → get_elem? checkpoints k ≡ some next
      → next.height ≤ height
      → LockedAt k s
      → Advances height k (advance env checkpoints next s).0 (advance env checkpoints next s).1
  unfolding advance bind
  advance-Advances height k next s fetched distinct at reached locked =
      elim (Result-cases (env.fetch_block_by_sha s.db next.hash)) [
        | inr (e, failed) ↦ rw failed (inl locked, λ block q. absurd (cc))
        | inl (b, got) ↦
            let index =
              find_hash_at checkpoints (length checkpoints) k next distinct (omega arith)
                (get_elem?-lt checkpoints k next at) at in
            let one_on : get_elem? checkpoints (k + 1) ≡ get_elem? checkpoints (suc k) =
              ap (get_elem? checkpoints) (omega arith) in
            rw (got) (
              inr (
                (
                  ap (λ o. elim o [ none ↦ none | some i ↦ get_elem? checkpoints (i + 1) ]) index
                      ∙ one_on,
                  (next, b, at, refl, fetched s.db next.hash b got),
                ),
                (next, at, reached),
              ),
              λ block q. sym (ok_inj q),
            )
      ]

  stays :
      (height k : ℕ) (s : BlockChain S) (o : Option Block)
      → o ≡ s.checkpoint_block
      → LockedAt k s
      → Advances height k (ok o) s
  stays height k s o e locked = (inl locked, λ block q. sym (ok_inj q) ∙ e)

  from_cache-Advances :
      (k best : ℕ) (next : Option Checkpoint) (cached : Option Block) (s : BlockChain S)
      → ((db : S) (hash : ℕ) (b : Block) → env.fetch_block_by_sha db hash ≡ ok b → b.sha ≡ hash)
      → IsDistinct checkpoints
      → 0 < length checkpoints
      → s.next_checkpoint ≡ next
      → s.checkpoint_block ≡ cached
      → LockedAt k s
      → Advances
          (s.heap best).height
          k
          (from_cache env checkpoints next cached best s).0
          (from_cache env checkpoints next cached best s).1
  unfolding from_cache
  from_cache-Advances zero best none none s fetched distinct some_left n c locked =
      let (first, there) = get_elem?-in_range checkpoints 0 some_left in
      absurd (none_not_some (sym n ∙ locked.0 ∙ there))
  from_cache-Advances (suc j) best none none s fetched distinct some_left n c locked =
      let (_, _, _, block, _) = locked.1 in absurd (none_not_some (sym c ∙ block))
  from_cache-Advances k best none (some b) s fetched distinct some_left n c locked =
      stays (s.heap best).height k s (some b) (sym c) locked
  from_cache-Advances k best (some next) cached s fetched distinct some_left n c locked =
      elim (Bool-cases (ltb (s.heap best).height next.height)) [
        | inl below ↦ rw below (stays (s.heap best).height k s cached (sym c) locked)
        | inr reached ↦ rw reached (
            advance-Advances (s.heap best).height k next s fetched distinct
              (sym (LockedAt-next k s locked) ∙ n) (le_of_test _ _ reached) locked)
      ]

  -- Where the database gives the block that was asked for, no hash stands twice in the list, and the
  -- chain has an end and is locked into the first k checkpoints, findPreviousCheckpoint leaves it
  -- locked into the first k, or into the first k + 1, which only happens from the height of the
  -- checkpoint at k on; where it succeeds, it gives the block of the last one.
  pub find_previous_checkpoint-Advances :
      (k best : ℕ) (s : BlockChain S)
      → ((db : S) (hash : ℕ) (b : Block) → env.fetch_block_by_sha db hash ≡ ok b → b.sha ≡ hash)
      → IsDistinct checkpoints
      → (s.no_checkpoints || (length checkpoints == 0)) ≡ false
      → s.best_chain ≡ some best
      → LockedAt k s
      → Advances
          (s.heap best).height
          k
          (find_previous_checkpoint env checkpoints s).0
          (find_previous_checkpoint env checkpoints s).1
  unfolding find_previous_checkpoint search_from
  find_previous_checkpoint-Advances k best s fetched distinct enabled at locked =
      let P : Result (Option Block) × BlockChain S → Type 0 =
        λ r. Advances (s.heap best).height k r.0 r.1 in
      subst P (sym (if_false _ _ enabled)) (
        subst (λ o. P (search_from env checkpoints o s)) (sym at)
          (from_cache-Advances k best s.next_checkpoint s.checkpoint_block s fetched distinct
            (nonempty s.no_checkpoints (length checkpoints) enabled) refl refl locked))
