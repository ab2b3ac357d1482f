-- ===== src/Merkle/Store.antt =====
-- The array that BuildMerkleTreeStore fills holds the levels of the tree one after the other.
use mathlib.Core.List.{append_assoc, append-nil}
use native.Mathlib.Nat.{pow-suc, one-le-pow, pow-zero}
use btcchain.Common.{
  ℕ, zero, suc, ◌+◌, ◌-◌, ◌*◌, ◌^◌, ◌≤◌, ◌<◌, ◌≡◌, refl, ap, ◌∙◌, sym, arith, Option, none, some,
  List, [], ◌∷◌, ◌++◌, map, length, get_or, replicate, last?, length-append,
}
use btcchain.Merkle.{parent, fill, build_merkle_tree_store, next_power_of_two}
use btcchain.Merkle.Slices.{
  set-middle, reads_left, reads_right, replicate-append, last?-snoc, length-leaves,
}
use btcchain.Merkle.PowerOfTwo.{next_power_of_two_lem, next_power_of_two-odd}

module _ {H : Type 0} (hash_merkle_branches : H → H → H) where
  -- The parents of the nodes of one level.
  abbrev pub level : List (Option H) → List (Option H)
  level [] = []
  level (x ∷ []) = parent hash_merkle_branches x none ∷ []
  level (x ∷ y ∷ rest) = parent hash_merkle_branches x y ∷ level rest

  abbrev pub levels : ℕ → List (Option H) → List (Option H)
  levels zero l = l
  levels (suc d) l = l ++ levels d (level l)

  -- The state of the loop: the slice is filled up to the offset.
  abbrev run : ℕ → ℕ → List (Option H) → List (Option H) → List (Option H)
  run rounds room pre front =
      fill hash_merkle_branches rounds (length pre) (length front) (front ++ replicate room none)

  -- One round reads two children at i and writes their parent at the offset.
  fill_step :
      (r k : ℕ) (pre rest : List (Option H)) (x y : Option H)
      → run (suc r) (suc k) pre (pre ++ (x ∷ y ∷ rest))
        ≡ run r k
            (pre ++ (x ∷ y ∷ []))
            ((pre ++ (x ∷ y ∷ rest)) ++ (parent hash_merkle_branches x y ∷ []))
  unfolding fill
  fill_step r k pre rest x y =
      let front = pre ++ (x ∷ y ∷ rest) in
      let tail = none ∷ replicate k none in
      let node = parent hash_merkle_branches x y in
      rw (
        reads_left pre rest tail x y none,
        reads_right pre rest tail x y none,
        set-middle front (replicate k none) none node,
        append_assoc front (node ∷ []) (replicate k none),
        length-append pre (x ∷ y ∷ []),
        length-append front (node ∷ []),
      )

  -- m rounds append the parents of the 2 * m nodes at i.
  fill_level :
      (m r n k room : ℕ) (pre l acc : List (Option H))
      → length l ≡ 2 * m
      → n ≡ m + r
      → room ≡ m + k
      → run n room pre (pre ++ (l ++ acc)) ≡ run r k (pre ++ l) (pre ++ (l ++ (acc ++ level l)))
  fill_level zero r n k room pre [] acc e en ek =
      let en' : n ≡ r = omega arith in
      let ek' : room ≡ k = omega arith in rw (en', ek', append-nil pre, append-nil acc)
  fill_level (suc m) r n k room pre [] acc e en ek = absurd (omega arith)
  fill_level m r n k room pre (x ∷ []) acc e en ek = absurd (omega arith)
  fill_level zero r n k room pre (x ∷ y ∷ l) acc e en ek = absurd (omega arith)
  fill_level (suc m) r n k room pre (x ∷ y ∷ l) acc e en ek =
      let node = parent hash_merkle_branches x y in
      let en' : n ≡ suc (m + r) = omega arith in
      let ek' : room ≡ suc (m + k) = omega arith in
      let step = fill_step (m + r) (m + k) pre (l ++ acc) x y in
      let rest =
        fill_level m r (m + r) k (m + k) (pre ++ (x ∷ y ∷ [])) l (acc ++ (node ∷ [])) (omega arith)
          refl refl in
      rw (en', ek') (step ∙ simp append_assoc (simp append_assoc at rest))

  length-level : (m : ℕ) (l : List (Option H)) → length l ≡ 2 * m → length (level l) ≡ m
  length-level zero [] e = refl
  length-level (suc m) [] e = absurd (omega arith)
  length-level m (x ∷ []) e = absurd (omega arith)
  length-level zero (x ∷ y ∷ l) e = absurd (omega arith)
  length-level (suc m) (x ∷ y ∷ l) e = ap suc (length-level m l (omega arith))

  -- From a level of 2 ^ d nodes the loop appends all levels above it.
  fill_levels :
      (d n room : ℕ) (pre l : List (Option H))
      → length l ≡ 2 ^ d
      → suc n ≡ 2 ^ d
      → suc room ≡ 2 ^ d
      → run n room pre (pre ++ l) ≡ pre ++ levels d l
  unfolding fill
  fill_levels zero n room pre l e en er =
      let en' : n ≡ 0 = omega (arith, pow-zero 2) in
      let er' : room ≡ 0 = omega (arith, pow-zero 2) in rw (en', er') (append-nil (pre ++ l))
  fill_levels (suc d) n room pre l e en er =
      let p : 2 ^ suc d ≡ 2 ^ d * 2 = pow-suc 2 d in
      let positive : 0 < 2 ^ d = one-le-pow d 2 (omega arith) in
      let half : length l ≡ 2 * 2 ^ d = omega arith in
      let r = 2 ^ d - 1 in
      let one_level = fill_level (2 ^ d) r n r room pre l [] half (omega arith) (omega arith) in
      let above =
        fill_levels d r r (pre ++ l) (level l) (length-level (2 ^ d) l half) (omega arith)
          (omega arith) in
      (rw (append-nil l) at one_level) ∙ simp append_assoc (simp append_assoc at above)

  tree_root : ℕ → List (Option H) → Option H
  tree_root zero l = get_or l 0 none
  tree_root (suc d) l = tree_root d (level l)

  last?-levels :
      (d : ℕ) (pre l : List (Option H))
      → length l ≡ 2 ^ d
      → last? (pre ++ levels d l) ≡ some (tree_root d l)
  unfolding tree_root
  last?-levels zero pre [] e = absurd (omega (arith, pow-zero 2))
  last?-levels zero pre (x ∷ []) e = last?-snoc pre x
  last?-levels zero pre (x ∷ y ∷ l) e = absurd (omega (arith, pow-zero 2))
  last?-levels (suc d) pre l e =
      rw (← append_assoc pre l (levels d (level l)))
        (last?-levels d (pre ++ l) (level l) (length-level (2 ^ d) l (omega (arith, pow-suc 2 d))))

  -- The specification: each round hashes the hashes in pairs, an odd last one with itself.
  abbrev pub combine : List H → List H
  combine [] = []
  combine (x ∷ []) = hash_merkle_branches x x ∷ []
  combine (x ∷ y ∷ rest) = hash_merkle_branches x y ∷ combine rest

  abbrev pub merkle_root : ℕ → List H → Option H
  merkle_root zero [] = none
  merkle_root zero (x ∷ xs) = some x
  merkle_root (suc rounds) xs = merkle_root rounds (combine xs)

  level-none : (m : ℕ) (q : ℕ) → q ≡ 2 * m → level (replicate q none) ≡ replicate m none
  unfolding parent
  level-none zero zero e = refl
  level-none zero (suc q) e = absurd (omega arith)
  level-none (suc m) zero e = absurd (omega arith)
  level-none (suc m) (suc zero) e = absurd (omega arith)
  level-none (suc m) (suc (suc q)) e = ap (◌∷◌ none) (level-none m q (omega arith))

  level-some :
      (m q : ℕ) (xs : List H)
      → length xs + q ≡ 2 * m
      → (q' : ℕ) × (level (map some xs ++ replicate q none)
          ≡ map some (combine xs) ++ replicate q' none)
  unfolding parent
  level-some m q [] e = (m, level-none m q (omega arith))
  level-some m zero (x ∷ []) e = absurd (omega arith)
  level-some m (suc q) (x ∷ []) e =
      (m - 1, ap (◌∷◌ (some (hash_merkle_branches x x))) (level-none (m - 1) q (omega arith)))
  level-some m q (x ∷ y ∷ xs) e =
      let (q', rest) = level-some (m - 1) q xs (omega arith) in
      (q', ap (◌∷◌ (some (hash_merkle_branches x y))) rest)

  tree_root-some :
      (d q : ℕ) (xs : List H)
      → length xs + q ≡ 2 ^ d
      → tree_root d (map some xs ++ replicate q none) ≡ merkle_root d xs
  unfolding tree_root
  tree_root-some zero zero [] e = absurd (omega (arith, pow-zero 2))
  tree_root-some zero (suc q) [] e = refl
  tree_root-some zero q (x ∷ xs) e = refl
  tree_root-some (suc d) q xs e =
      let even : length xs + q ≡ 2 * 2 ^ d = omega (arith, pow-suc 2 d) in
      let (q', same) = level-some (2 ^ d) q xs even in
      let l = map some xs ++ replicate q none in
      let size : length (level l) ≡ 2 ^ d = length-level (2 ^ d) l (length-leaves xs q ∙ even) in
      rw same
        (tree_root-some d q' (combine xs) (sym (length-leaves (combine xs) q') ∙ (rw same at size)))

  -- The array is the levels of the tree, from the transactions up.
  build-levels :
      (d : ℕ) (xs : List H)
      → next_power_of_two (length xs) ≡ 2 ^ d
      → length xs ≤ 2 ^ d
      → build_merkle_tree_store hash_merkle_branches xs
        ≡ levels d (map some xs ++ replicate (2 ^ d - length xs) none)
  unfolding build_merkle_tree_store
  build-levels d xs e h =
      let p = 2 ^ d in
      let n = length xs in
      let positive : 0 < p = one-le-pow d 2 (omega arith) in
      let leaves = map some xs ++ replicate (p - n) none in
      let size : length leaves ≡ p = length-leaves xs (p - n) ∙ omega arith in
      let split : p * 2 - 1 - n ≡ (p - n) + (p - 1) = omega arith in
      let filled = fill_levels d (p - 1) (p - 1) [] leaves size (omega arith) (omega arith) in
      rw
        (
          e,
          split,
          ← replicate-append {A = Option H} (p - n) (p - 1) none,
          ← append_assoc (map some xs) (replicate (p - n) none) (replicate (p - 1) none),
        )
        (rw size at filled)

  pub root_at :
      (d : ℕ) (xs : List H)
      → next_power_of_two (length xs) ≡ 2 ^ d
      → length xs ≤ 2 ^ d
      → last? (build_merkle_tree_store hash_merkle_branches xs) ≡ some (merkle_root d xs)
  root_at d xs e h =
      let q = 2 ^ d - length xs in
      rw (build-levels d xs e h) (
        last?-levels d [] (map some xs ++ replicate q none) (length-leaves xs q ∙ omega arith)
        ∙ ap some (tree_root-some d q xs (omega arith)))

  -- For at least one transaction the last entry of the array, which the block check compares with
  -- the header, is the root that pairwise hashing gives in d rounds, an odd last hash paired with
  -- itself, where 2 ^ d is nextPowerOfTwo of the number n of transactions and n ≤ 2 ^ d < 2 * n.
  pub build_merkle_tree_store-root :
      (xs : List H)
      → 0 < length xs
      → (d : ℕ) × (next_power_of_two (length xs) ≡ 2 ^ d)
        × (length xs ≤ 2 ^ d)
        × (2 ^ d < 2 * length xs)
        × (last? (build_merkle_tree_store hash_merkle_branches xs) ≡ some (merkle_root d xs))
  build_merkle_tree_store-root xs positive =
      let (d, e, h, least) = next_power_of_two_lem (length xs) positive in
      (d, e, h, least, root_at d xs e h)

  combine-repeat :
      (m : ℕ) (xs : List H) (x : H)
      → length xs ≡ 2 * m
      → combine (xs ++ (x ∷ [])) ≡ combine (xs ++ (x ∷ x ∷ []))
  combine-repeat m [] x e = refl
  combine-repeat m (y ∷ []) x e = absurd (omega arith)
  combine-repeat m (y ∷ z ∷ xs) x e =
      ap (◌∷◌ (hash_merkle_branches y z)) (combine-repeat (m - 1) xs x (omega arith))

  merkle_root-repeat :
      (d m : ℕ) (xs : List H) (x : H)
      → 0 < m
      → length xs ≡ 2 * m
      → 2 * m + 1 ≤ 2 ^ d
      → merkle_root d (xs ++ (x ∷ [])) ≡ merkle_root d (xs ++ (x ∷ x ∷ []))
  merkle_root-repeat zero m xs x positive e h = absurd (omega (arith, pow-zero 2))
  merkle_root-repeat (suc d) m xs x positive e h = ap (merkle_root d) (combine-repeat m xs x e)

  -- The root does not tell a list of an odd number of transactions, at least three, from the list
  -- with the last one repeated. (The block check has to reject duplicates on its own.)
  pub build_merkle_tree_store-repeat :
      (m : ℕ) (xs : List H) (x : H)
      → 0 < m
      → length xs ≡ 2 * m
      → last? (build_merkle_tree_store hash_merkle_branches (xs ++ (x ∷ [])))
        ≡ last? (build_merkle_tree_store hash_merkle_branches (xs ++ (x ∷ x ∷ [])))
  build_merkle_tree_store-repeat m xs x positive e =
      let one : length (xs ++ (x ∷ [])) ≡ 2 * m + 1 = omega (arith, length-append xs (x ∷ [])) in
      let two : length (xs ++ (x ∷ x ∷ [])) ≡ 2 * m + 2 =
        omega (arith, length-append xs (x ∷ x ∷ [])) in
      let (d, p, h, _) = next_power_of_two_lem (2 * m + 2) (omega arith) in
      let p' = next_power_of_two-odd m positive ∙ p in
      root_at d (xs ++ (x ∷ [])) (ap next_power_of_two one ∙ p') (omega arith)
      ∙ ap some (merkle_root-repeat d m xs x positive e (omega arith))
      ∙ sym (root_at d (xs ++ (x ∷ x ∷ [])) (ap next_power_of_two two ∙ p) (omega arith))
