-- ===== src/Merkle.antt =====
-- merkle.go. The double SHA-256 of two concatenated hashes (btcwire.DoubleSha256) is a parameter.
-- A list is the Go slice of pointers, and `none` its nil entries.
pub mod Slices
pub mod PowerOfTwo
pub mod Store
use Prim.Native.Nat.{bit_and}
use btcchain.Common.{
  ℕ, zero, suc, ◌+◌, ◌-◌, ◌*◌, ◌/◌, ◌^◌, ◌≡◌, refl, ◌==◌, ltb, if◌then◌else◌, Option, none, some,
  List, [], ◌∷◌, ◌++◌, map, length, get_or, set, replicate, last?,
}

-- math.Log2 rounded down, exact below 2 ^ 53. A number has fewer binary digits than its value.
log2_loop : ℕ → ℕ → ℕ
log2_loop zero n = 0
log2_loop (suc f) n = let more = suc (log2_loop f (n / 2)) in if ltb n 2 then 0 else more

unfoldable pub log2 : ℕ → ℕ
unfolding log2_loop
log2 n = log2_loop n n

unfoldable pub next_power_of_two : ℕ → ℕ
unfolding log2
next_power_of_two n = if bit_and n (n - 1) == 0 then n else 2 ^ (log2 n + 1)

module _ {H : Type 0} (hash_merkle_branches : H → H → H) where
  -- The switch in the loop: no left child, no right child, both.
  unfoldable pub parent : Option H → Option H → Option H
  parent none right = none
  parent (some left) none = some (hash_merkle_branches left left)
  parent (some left) (some right) = some (hash_merkle_branches left right)

  -- The loop `for i := 0; i < arraySize-1; i += 2`, with the rounds that are left.
  unfoldable pub fill : ℕ → ℕ → ℕ → List (Option H) → List (Option H)
  fill zero i offset merkles = merkles
  fill (suc rounds) i offset merkles =
      let node = parent (get_or merkles i none) (get_or merkles (i + 1) none) in
      fill rounds (i + 2) (offset + 1) (set merkles offset node)

  -- The array has 2 * p - 1 entries for the next power of two p, so the loop makes p - 1 rounds.
  unfoldable pub build_merkle_tree_store : List H → List (Option H)
  unfolding parent fill next_power_of_two
  build_merkle_tree_store transactions =
      let next_pot = next_power_of_two (length transactions) in
      let leaves = map some transactions in
      let array_size = next_pot * 2 - 1 in
      let merkles = leaves ++ replicate (array_size - length transactions) none in
      fill (next_pot - 1) 0 next_pot merkles

three_leaves :
    last? (build_merkle_tree_store (λ (a b : ℕ). a * 10 + b) (1 ∷ 2 ∷ 3 ∷ []))
    ≡ some (some (12 * 10 + 33))
unfolding build_merkle_tree_store
three_leaves = refl
