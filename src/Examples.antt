-- ===== src/Examples.antt =====
-- Runs of the theorems at concrete inputs.
use btcchain.Common.{
  ℕ, ◌+◌, ◌-◌, ◌*◌, ◌^◌, ◌≤◌, ◌<◌, ◌≡◌, refl, arith, some, List, [], ◌∷◌, ◌++◌, length, last?,
}
use btcchain.Common.Int.{pos}
use btcchain.Difficulty.Compact.{compact_to_big, big_to_compact}
use btcchain.Difficulty.Compact.Precision.{compact_precision}
use btcchain.Difficulty.Compact.RoundTrip.{compact_roundtrip}
use btcchain.Merkle.{next_power_of_two, build_merkle_tree_store}
use btcchain.Merkle.Store.{
  merkle_root, build_merkle_tree_store-root, build_merkle_tree_store-repeat,
}

compact_precision_example :
    (v : ℕ) × (compact_to_big (big_to_compact (pos 123_456_789)) ≡ pos v)
    × (v ≤ 123_456_789)
    × (2 ^ 15 * (123_456_789 - v) ≤ v)
compact_precision_example = compact_precision 123_456_789 (omega arith) (omega arith)

compact_roundtrip_example :
    big_to_compact (compact_to_big ((3 + 25) * 2 ^ 24 + 0xffff)) ≡ (3 + 25) * 2 ^ 24 + 0xffff
compact_roundtrip_example = compact_roundtrip 25 0xffff (omega arith) (omega arith) (omega arith)

abbrev pair_hash : ℕ → ℕ → ℕ
pair_hash a b = 3 * a + 5 * b + 1

abbrev three_hashes : List ℕ
three_hashes = 10 ∷ 20 ∷ 30 ∷ []

build_merkle_tree_store-root_example :
    (d : ℕ) × (next_power_of_two (length three_hashes) ≡ 2 ^ d)
    × (length three_hashes ≤ 2 ^ d)
    × (2 ^ d < 2 * length three_hashes)
    × (last? (build_merkle_tree_store pair_hash three_hashes)
        ≡ some (merkle_root pair_hash d three_hashes))
build_merkle_tree_store-root_example =
    build_merkle_tree_store-root pair_hash three_hashes (omega arith)

build_merkle_tree_store-repeat_example :
    last? (build_merkle_tree_store pair_hash ((10 ∷ 20 ∷ []) ++ (30 ∷ [])))
    ≡ last? (build_merkle_tree_store pair_hash ((10 ∷ 20 ∷ []) ++ (30 ∷ 30 ∷ [])))
build_merkle_tree_store-repeat_example =
    build_merkle_tree_store-repeat pair_hash 1 (10 ∷ 20 ∷ []) 30 (omega arith) refl
