-- ===== src/PoolExamples.antt =====
-- Runs of the orphan pool, the checkpoints and the median time at concrete inputs.
use btcchain.Common.{
  ℕ, zero, suc, ◌≤◌, ◌<◌, ◌≡◌, ◌⊎◌, inl, inr, refl, arith, false, Option, none, some, List, [], ◌∷◌,
  length, lookup, ok, none_not_some, some_inj, ok_inj, sym, ap, ◌∙◌, Bool-cases, ◌==◌, ==_iff,
  if_true, if_false, if◌then◌else◌,
}
use btcchain.Common.Int.{ℤ, pos}
use btcchain.Wire.{Block}
use btcchain.Orphans.{OrphanBlock, OrphanPool, orphan_prev, add_orphan_block, get_orphan_root}
use btcchain.Orphans.Index.{IsConsistent}
use btcchain.Orphans.Adding.{add_orphan_block-IsConsistent}
use btcchain.Orphans.Roots.{Reaches, get_orphan_root-root}
use btcchain.MedianTime.{
  MedianTime, default_max_entries, new_median_time, abs_below, max_allowed_offset_secs,
  add_time_sample,
}
use btcchain.MedianTime.Offsets.{
  IsMedian, IsValid, add_time_sample-IsValid, add_time_sample-IsMedian,
}
use btcchain.Chain.State.{BlockChain, Checkpoint}
use btcchain.Chain.Checkpoints.{initial_search, find_previous_checkpoint}
use btcchain.Chain.Checkpoints.Lockin.{IsDistinct, Advances, find_previous_checkpoint-Advances}
use btcchain.Chain.Checkpoints.Known.{IsLastKnown, Found, initial_search-last}
use btcchain.ChainExamples.{env, chain, block_of}

abbrev empty_pool : OrphanPool
empty_pool = record { orphans = []; prev_orphans = []; oldest_orphan = none }

-- Block n + 1 stands on block n.
abbrev before : ℕ → ℕ
before zero = 0
before (suc n) = n

add_orphan_block-IsConsistent_example :
    (pool' : OrphanPool) × (o : OrphanBlock) × (add_orphan_block 7 (block_of 5 4) empty_pool
      ≡ ok pool')
    × (o.block ≡ block_of 5 4)
    × (lookup 5 pool'.orphans ≡ some o)
    × IsConsistent before pool'
    × (length pool'.orphans ≤ suc 0)
add_orphan_block-IsConsistent_example =
    add_orphan_block-IsConsistent before 7 (block_of 5 4) empty_pool refl refl (
      tt,
      λ h o e. absurd (none_not_some e),
      λ p o has. absurd has,
      λ o e. absurd (none_not_some e),
    )

abbrev orphan : OrphanBlock
orphan = record { block = block_of 5 4; expiration = 9 }

abbrev one_orphan : OrphanPool
one_orphan = record {
  orphans = (5, orphan) ∷ [];
  prev_orphans = (4, orphan ∷ []) ∷ [];
  oldest_orphan = none;
}

falls : (h : ℕ) (o : OrphanBlock) → lookup h one_orphan.orphans ≡ some o → orphan_prev o < h
falls h o e = elim (Bool-cases (5 == h)) [
  | inl same ↦
      let there : orphan ≡ o = some_inj (sym (if_true _ _ same) ∙ e) in
      omega (arith, (==_iff 5 h).0 same, ap orphan_prev there)
  | inr other ↦ absurd (none_not_some (sym (if_false _ _ other) ∙ e))
]

get_orphan_root-root_example :
    (root : ℕ) × (get_orphan_root 5 one_orphan ≡ ok root)
    × (((lookup 5 one_orphan.orphans ≡ none) × (root ≡ 5))
        ⊎ (Reaches one_orphan.orphans 5 root
            × ((o : OrphanBlock) × (lookup root one_orphan.orphans ≡ some o)
                × (lookup (orphan_prev o) one_orphan.orphans ≡ none))))
get_orphan_root-root_example = get_orphan_root-root (λ h. h) 5 one_orphan falls

add_time_sample-IsValid_example :
    (m' : MedianTime) × (add_time_sample default_max_entries 50 3 (pos 7) new_median_time ≡ ok m')
    × IsValid default_max_entries m'
add_time_sample-IsValid_example =
    add_time_sample-IsValid default_max_entries 50 3 (pos 7) new_median_time (omega arith)
      (omega arith, refl, omega arith)

-- Four samples of four sources.
abbrev four_samples : MedianTime
four_samples = record {
  known_ids = 1 ∷ 2 ∷ 3 ∷ 4 ∷ [];
  offsets = pos 3 ∷ pos 1 ∷ pos 4 ∷ pos 1 ∷ [];
  offset_secs = pos 0;
  invalid_time_checked = false;
}

add_time_sample-IsMedian_example :
    (m' : MedianTime) × (median : ℤ) × (add_time_sample 200 50 9 (pos 7) four_samples ≡ ok m')
    × (length m'.offsets ≡ suc 4)
    × IsMedian median m'.offsets
    × (m'.offset_secs ≡ (if abs_below median max_allowed_offset_secs then median else pos 0))
add_time_sample-IsMedian_example =
    add_time_sample-IsMedian 200 50 9 (pos 7) four_samples refl (omega arith) (omega arith) refl

abbrev first_checkpoint : Checkpoint
first_checkpoint = record { height = 1; hash = 101 }

abbrev two_checkpoints : List Checkpoint
two_checkpoints = first_checkpoint ∷ record { height = 8; hash = 108 } ∷ []

initial_search-last_example :
    (o : Option ℕ) × IsLastKnown (λ h. false) two_checkpoints 2 o
    × Found env two_checkpoints (λ h. false) chain o (initial_search env two_checkpoints chain)
initial_search-last_example =
    initial_search-last env two_checkpoints (λ h. false) chain (λ h. refl) (λ h e. absurd (cc))

two-IsDistinct : IsDistinct two_checkpoints
two-IsDistinct zero zero c d e f same = refl
two-IsDistinct zero (suc zero) c d e f same =
    absurd (omega (arith, ap Checkpoint.hash (some_inj e), ap Checkpoint.hash (some_inj f)))
two-IsDistinct (suc zero) zero c d e f same =
    absurd (omega (arith, ap Checkpoint.hash (some_inj e), ap Checkpoint.hash (some_inj f)))
two-IsDistinct (suc zero) (suc zero) c d e f same = refl
two-IsDistinct (suc (suc i)) j c d e f same = absurd (none_not_some e)
two-IsDistinct i (suc (suc j)) c d e f same = absurd (none_not_some f)

abbrev waiting_chain : BlockChain (Unit {0})
waiting_chain = record chain { next_checkpoint = some first_checkpoint }

find_previous_checkpoint-Advances_example :
    Advances env two_checkpoints 1 0
      (find_previous_checkpoint env two_checkpoints waiting_chain).0
      (find_previous_checkpoint env two_checkpoints waiting_chain).1
find_previous_checkpoint-Advances_example =
    find_previous_checkpoint-Advances env two_checkpoints 0 1 waiting_chain
      (λ db hash b e. sym (ap Block.sha (ok_inj e))) two-IsDistinct refl refl (refl, refl)
