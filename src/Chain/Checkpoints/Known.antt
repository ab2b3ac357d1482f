-- ===== src/Chain/Checkpoints/Known.antt =====
-- The search for the last known checkpoint, and the check of a block against the list.
use btcchain.Common.{
  ℕ, zero, suc, ◌+◌, ◌≤◌, ◌<◌, ◌≡◌, ◌↔◌, inl, inr, refl, sym, ◌∙◌, ap, subst, arith, Option, none,
  some, List, [], ◌∷◌, ◌||◌, Bool, true, false, ◌==◌, ==_iff, Bool-cases, if_true, if_false, All,
  length, get_elem?, lookup, insert, lookup-insert, Result, ok, some_inj,
}
use btcchain.Wire.{Block}
use btcchain.Chain.State.{BlockChain, Checkpoint, Env, bind}
use btcchain.Chain.Checkpoints.{
  find_existing, by_height_from, checkpoints_by_height, verify_checkpoint, initial_search,
  lock_into,
}
use btcchain.Chain.Checkpoints.Lockin.{LockedAt, get_elem?-in_range}

-- i is the last of the first n checkpoints that the database has.
abbrev pub IsLastKnown : (ℕ → Bool) → List Checkpoint → ℕ → Option ℕ → Type 0
IsLastKnown known checkpoints n none =
    (j : ℕ) (d : Checkpoint) → j < n → get_elem? checkpoints j ≡ some d → known d.hash ≡ false
IsLastKnown known checkpoints n (some i) =
    (i < n)
    × ((c : Checkpoint) × (get_elem? checkpoints i ≡ some c) × (known c.hash ≡ true))
    × ((j : ℕ) (d : Checkpoint)
        → i < j
        → j < n
        → get_elem? checkpoints j ≡ some d
        → known d.hash ≡ false)

below : (j n : ℕ) → j < suc n → (j == n) ≡ false → j < n
below j n h e = ground arith

last_one :
    (known : ℕ → Bool) (checkpoints : List Checkpoint) (n : ℕ) (c : Checkpoint)
    → get_elem? checkpoints n ≡ some c
    → known c.hash ≡ false
    → (j : ℕ) (d : Checkpoint) → j ≡ n
    → get_elem? checkpoints j ≡ some d
    → known d.hash ≡ false
last_one known checkpoints n c at unknown j d e there =
    subst (λ x. known x.hash ≡ false)
      (some_inj (sym at ∙ ap (get_elem? checkpoints) (sym e) ∙ there)) unknown

IsLastKnown-suc :
    (known : ℕ → Bool) (checkpoints : List Checkpoint) (n : ℕ) (c : Checkpoint) (o : Option ℕ)
    → get_elem? checkpoints n ≡ some c
    → known c.hash ≡ false
    → IsLastKnown known checkpoints n o
    → IsLastKnown known checkpoints (suc n) o
IsLastKnown-suc known checkpoints n c none at unknown last = λ j d lt there.
    elim (Bool-cases (j == n)) [
      | inl e ↦ last_one known checkpoints n c at unknown j d ((==_iff j n).0 e) there
      | inr e ↦ last j d (below j n lt e) there
    ]
IsLastKnown-suc known checkpoints n c (some i) at unknown (lt, found, last) = (
  omega arith,
  found,
  λ j d above below_suc there. elim (Bool-cases (j == n)) [
    | inl e ↦ last_one known checkpoints n c at unknown j d ((==_iff j n).0 e) there
    | inr e ↦ last j d above (below j n below_suc e) there
  ],
)

find_existing-last :
    (exists_sha : ℕ → Result Bool) (known : ℕ → Bool) (checkpoints : List Checkpoint) (n : ℕ)
    → ((h : ℕ) → exists_sha h ≡ ok (known h))
    → n ≤ length checkpoints
    → (o : Option ℕ) × (find_existing exists_sha checkpoints n ≡ ok o)
      × IsLastKnown known checkpoints n o
unfolding find_existing
find_existing-last exists_sha known checkpoints zero answers h =
    (none, refl, λ j d lt there. absurd (omega arith))
find_existing-last exists_sha known checkpoints (suc n) answers h =
    let (c, at) = get_elem?-in_range checkpoints n (omega arith) in
    elim (Bool-cases (known c.hash)) [
      | inl has ↦ (
        some n,
        rw (at, answers c.hash, has, find_existing) refl,
        (omega arith, (c, at, has), λ j d above below_suc there. absurd (omega arith)),
      )
      | inr lacks ↦
          let (o, found, last) =
            find_existing-last exists_sha known checkpoints n answers (omega arith) in
          (
            o,
            rw (at, answers c.hash, lacks, find_existing) found,
            IsLastKnown-suc known checkpoints n c o at lacks last,
          )
    ]

module _ {S : Type 0} (env : Env S) (checkpoints : List Checkpoint) where
  -- The state after the search.
  abbrev pub Found :
      (ℕ → Bool) → BlockChain S → Option ℕ → Result (Option Block) × BlockChain S → Type 0
  Found known s none (result, s') =
      (result ≡ ok none)
      × (s'.next_checkpoint ≡ get_elem? checkpoints 0)
      × (s'.checkpoint_block ≡ s.checkpoint_block)
  Found known s (some i) (result, s') =
      (result ≡ ok s'.checkpoint_block) × LockedAt env checkpoints (suc i) s'

  Found-after :
      (known : ℕ → Bool) (s : BlockChain S) (o : Option ℕ)
      → ((h : ℕ)
          → known h ≡ true
          → (b : Block) × (env.fetch_block_by_sha s.db h ≡ ok b) × (b.sha ≡ h))
      → IsLastKnown known checkpoints (length checkpoints) o
      → find_existing (env.exists_sha s.db) checkpoints (length checkpoints) ≡ ok o
      → Found known s o (initial_search env checkpoints s)
  unfolding initial_search lock_into bind
  Found-after known s none gives last found = rw (found, initial_search) (refl, refl, refl)
  Found-after known s (some i) gives (lt, (c, at, has), rest) found =
      let (b, got, same) = gives c.hash has in
      let one_on : get_elem? checkpoints (i + 1) ≡ get_elem? checkpoints (suc i) =
        ap (get_elem? checkpoints) (omega arith) in
      rw (found, at, got, initial_search, lock_into) (refl, (one_on, (c, b, refl, refl, same)))

  -- Where the database answers each question and gives the blocks that it has, the initial search
  -- succeeds, and locks the chain into the last checkpoint of the list that the database has, or,
  -- where it has none, expects the first.
  pub initial_search-last :
      (known : ℕ → Bool) (s : BlockChain S)
      → ((h : ℕ) → env.exists_sha s.db h ≡ ok (known h))
      → ((h : ℕ)
          → known h ≡ true
          → (b : Block) × (env.fetch_block_by_sha s.db h ≡ ok b) × (b.sha ≡ h))
      → (o : Option ℕ) × IsLastKnown known checkpoints (length checkpoints) o
        × Found known s o (initial_search env checkpoints s)
  initial_search-last known s answers gives =
      let (o, found, last) =
        find_existing-last (env.exists_sha s.db) known checkpoints (length checkpoints) answers
          (omega arith) in
      (o, last, Found-after known s o gives last found)

-- Heights grow along the list.
abbrev pub IsAscending : List Checkpoint → Type 0
IsAscending [] = Unit {0}
IsAscending (c ∷ cs) = All (λ d. c.height < d.height) cs × IsAscending cs

by_height_from-skip :
    (h : ℕ) (m : List (ℕ × Checkpoint)) (cs : List Checkpoint)
    → All (λ d. h < d.height) cs
    → lookup h (by_height_from m cs) ≡ lookup h m
unfolding by_height_from
by_height_from-skip h m [] all = refl
by_height_from-skip h m (c ∷ cs) all =
    by_height_from-skip h (insert c.height c m) cs all.1
    ∙ lookup-insert c.height h c m
    ∙ if_false _ _ (differs c.height h all.0)
  where
    differs : (a b : ℕ) → b < a → (a == b) ≡ false
    differs a b lt = ground arith

-- What the check says of a looked-up checkpoint.
abbrev agrees : ℕ → Option Checkpoint → Bool
agrees hash none = true
agrees hash (some c) = c.hash == hash

none_match :
    (height hash : ℕ) (cs : List Checkpoint)
    → All (λ d. height < d.height) cs
    → All (λ c. c.height ≡ height → c.hash ≡ hash) cs
none_match height hash [] all = tt
none_match height hash (c ∷ cs) all =
    (λ e. absurd (omega (arith, all.0)), none_match height hash cs all.1)

by_height_from-agrees :
    (height hash : ℕ) (m : List (ℕ × Checkpoint)) (cs : List Checkpoint)
    → IsAscending cs
    → lookup height m ≡ none
    → (agrees hash (lookup height (by_height_from m cs)) ≡ true)
      ↔ All (λ c. c.height ≡ height → c.hash ≡ hash) cs
unfolding by_height_from
by_height_from-agrees height hash m [] up missing = (λ _. tt, λ _. ap (agrees hash) missing)
by_height_from-agrees height hash m (c ∷ cs) (low, up) missing =
    elim (Bool-cases (c.height == height)) [
      | inl e ↦
          let same : c.height ≡ height = (==_iff c.height height).0 e in
          let low' : All (λ d. height < d.height) cs =
            subst (λ h. All (λ d. h < d.height) cs) same low in
          let there : lookup height (by_height_from (insert c.height c m) cs) ≡ some c =
            by_height_from-skip height (insert c.height c m) cs low'
            ∙ lookup-insert c.height height c m
            ∙ if_true _ _ e in
          (
            λ h. (
              λ _. (==_iff c.hash hash).0 (sym (ap (agrees hash) there) ∙ h),
              none_match height hash cs low',
            ),
            λ (at, _). ap (agrees hash) there ∙ (==_iff c.hash hash).1 (at same),
          )
      | inr e ↦
          let (to, from) =
            by_height_from-agrees height hash (insert c.height c m) cs up
              (lookup-insert c.height height c m ∙ if_false _ _ e ∙ missing) in
          (λ h. (λ same. absurd (not_same c.height height e same), to h), λ (_, rest). from rest)
    ]
  where
    not_same : (a b : ℕ) → (a == b) ≡ false → a ≡ b → ⊥
    not_same a b e q = ground arith

-- Where heights grow along the list and checkpoints are on, verifyCheckpoint accepts a height and a
-- hash just where each checkpoint of that height has that hash.
pub verify_checkpoint_iff :
    {S : Type 0} (checkpoints : List Checkpoint) (height hash : ℕ) (s : BlockChain S)
    → IsAscending checkpoints
    → (s.no_checkpoints || (length checkpoints == 0)) ≡ false
    → (verify_checkpoint checkpoints height hash s ≡ true)
      ↔ All (λ c. c.height ≡ height → c.hash ≡ hash) checkpoints
unfolding verify_checkpoint checkpoints_by_height
verify_checkpoint_iff checkpoints height hash s up enabled =
    rw (enabled) (by_height_from-agrees height hash [] checkpoints up refl)
