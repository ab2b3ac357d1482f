-- ===== src/Orphans.antt =====
-- The orphan pool of chain.go: blocks whose parent is not known yet, found by their hash and by
-- their parent's. The lock makes each method one step. Orphans are values here; the code tells them
-- apart by their hash alone. A loop over the map `orphans` goes in the order of the list, which
-- stands for whichever order Go takes.
pub mod Index
pub mod Adding
pub mod Roots
use btcchain.Common.{
  ℕ, zero, suc, ◌+◌, ◌*◌, Option, none, some, List, [], ◌∷◌, ◌++◌, Bool, true, false, ◌==◌, ltb,
  if◌then◌else◌, length, lookup, insert, remove, Result, ok, err, panic, divergence,
}
use btcchain.Wire.{Block, nano}

pub record OrphanBlock : Type 0 where
  pub block : Block
  pub expiration : ℕ

pub record OrphanPool : Type 0 where
  pub orphans : List (ℕ × OrphanBlock)
  pub prev_orphans : List (ℕ × List OrphanBlock)
  pub oldest_orphan : Option OrphanBlock

abbrev pub max_orphan_blocks : ℕ
max_orphan_blocks = 100

abbrev pub orphan_hash : OrphanBlock → ℕ
orphan_hash o = o.block.sha

abbrev pub orphan_prev : OrphanBlock → ℕ
orphan_prev o = o.block.header.prev_block

-- `b.prevOrphans[hash]`, nil for a missing key.
abbrev pub waiting : ℕ → List (ℕ × List OrphanBlock) → List OrphanBlock
waiting hash m = elim (lookup hash m) [ none ↦ [] | some l ↦ l ]

-- The loop of removeOrphanBlock takes out each entry with the hash.
unfoldable pub without : ℕ → List OrphanBlock → List OrphanBlock
without hash [] = []
without hash (o ∷ os) =
    let rest = without hash os in if orphan_hash o == hash then rest else o ∷ rest

-- `b.prevOrphans[prevHash] = orphans`, and the entry goes where no orphan is left.
unfoldable pub set_waiting :
    ℕ → List OrphanBlock → List (ℕ × List OrphanBlock) → List (ℕ × List OrphanBlock)
set_waiting hash [] m = remove hash m
set_waiting hash (o ∷ os) m = insert hash (o ∷ os) m

unfoldable pub remove_orphan_block : OrphanBlock → OrphanPool → OrphanPool
remove_orphan_block o pool = record pool {
  orphans = remove (orphan_hash o) pool.orphans;
  prev_orphans =
      set_waiting (orphan_prev o)
        (without (orphan_hash o) (waiting (orphan_prev o) pool.prev_orphans)) pool.prev_orphans;
}

-- `if b.oldestOrphan == nil || oBlock.expiration.Before(b.oldestOrphan.expiration)`
unfoldable pub older : OrphanBlock → Option OrphanBlock → Option OrphanBlock
older o none = some o
older o (some oldest) = if ltb o.expiration oldest.expiration then some o else some oldest

-- The loop of addOrphanBlock over the entries that the pool has when it starts.
unfoldable pub sweep : ℕ → List (ℕ × OrphanBlock) → OrphanPool → OrphanPool
sweep now [] pool = pool
sweep now ((h, o) ∷ entries) pool =
    if ltb o.expiration now
    then sweep now entries (remove_orphan_block o pool)
    else sweep now entries (record pool { oldest_orphan = older o pool.oldest_orphan })

-- The limit: removeOrphanBlock dereferences its argument.
unfoldable pub make_room : OrphanPool → Result OrphanPool
make_room pool =
    if ltb max_orphan_blocks (length pool.orphans + 1)
    then elim pool.oldest_orphan [
      | none ↦ err panic
      | some o ↦ ok (record (remove_orphan_block o pool) { oldest_orphan = none })
    ]
    else ok pool

unfoldable pub insert_orphan : OrphanBlock → OrphanPool → OrphanPool
insert_orphan o pool = record pool {
  orphans = insert (orphan_hash o) o pool.orphans;
  prev_orphans =
      insert (orphan_prev o) (waiting (orphan_prev o) pool.prev_orphans ++ (o ∷ []))
        pool.prev_orphans;
}

-- addOrphanBlock at the time `now`, which is read once. An orphan is kept for an hour.
unfoldable pub add_orphan_block : ℕ → Block → OrphanPool → Result OrphanPool
add_orphan_block now block pool = elim (make_room (sweep now pool.orphans pool)) [
  | err e ↦ err e
  | ok roomy ↦ ok (insert_orphan (record { block = block; expiration = now + 3600 * nano }) roomy)
]

unfoldable pub is_known_orphan : ℕ → OrphanPool → Bool
is_known_orphan hash pool = elim (lookup hash pool.orphans) [ none ↦ false | some _ ↦ true ]

-- The loop of GetOrphanRoot, on fuel.
unfoldable pub root_loop : ℕ → List (ℕ × OrphanBlock) → ℕ → ℕ → Result ℕ
root_loop zero orphans orphan_root prev_hash = err divergence
root_loop (suc fuel) orphans orphan_root prev_hash = elim (lookup prev_hash orphans) [
  | none ↦ ok orphan_root
  | some o ↦ root_loop fuel orphans prev_hash (orphan_prev o)
]

unfoldable pub get_orphan_root : ℕ → OrphanPool → Result ℕ
get_orphan_root hash pool = root_loop (length pool.orphans + 1) pool.orphans hash hash
