-- ===== src/Merkle/Slices.antt =====
-- Reads and writes in the middle of the slice that BuildMerkleTreeStore (merkle.go) fills.
use mathlib.Core.List.{append_assoc}
use btcchain.Common.{
  ℕ, zero, suc, ◌+◌, ◌≡◌, refl, ap, arith, Option, none, some, List, [], ◌∷◌, ◌++◌, map, length,
  get_or, set, replicate, last?, length-replicate,
}

module _ {A : Type 0} where
  pub get_or-middle : (pre rest : List A) (x d : A) → get_or (pre ++ (x ∷ rest)) (length pre) d ≡ x
  get_or-middle [] rest x d = refl
  get_or-middle (y ∷ pre) rest x d = get_or-middle pre rest x d

  pub set-middle :
      (pre rest : List A) (x v : A) → set (pre ++ (x ∷ rest)) (length pre) v ≡ pre ++ (v ∷ rest)
  set-middle [] rest x v = refl
  set-middle (y ∷ pre) rest x v = ap (◌∷◌ y) (set-middle pre rest x v)

  pub get_or-second :
      (pre rest : List A) (x y d : A) → get_or (pre ++ (x ∷ y ∷ rest)) (suc (length pre)) d ≡ y
  get_or-second [] rest x y d = refl
  get_or-second (z ∷ pre) rest x y d = get_or-second pre rest x y d

  -- The three accesses of one round, in a slice that continues behind `front`.
  pub reads_left :
      (pre rest tail : List A) (x y d : A)
      → get_or ((pre ++ (x ∷ y ∷ rest)) ++ tail) (length pre) d ≡ x
  reads_left pre rest tail x y d =
      rw (append_assoc pre (x ∷ y ∷ rest) tail) (get_or-middle pre (y ∷ (rest ++ tail)) x d)

  pub reads_right :
      (pre rest tail : List A) (x y d : A)
      → get_or ((pre ++ (x ∷ y ∷ rest)) ++ tail) (length pre + 1) d ≡ y
  reads_right pre rest tail x y d =
      let e : length pre + 1 ≡ suc (length pre) = omega arith in
      rw (append_assoc pre (x ∷ y ∷ rest) tail, e) (get_or-second pre (rest ++ tail) x y d)

  pub replicate-append : (m n : ℕ) (x : A) → replicate m x ++ replicate n x ≡ replicate (m + n) x
  replicate-append zero n x = let e : 0 + n ≡ n = omega arith in rw e
  replicate-append (suc m) n x =
      let e : suc m + n ≡ suc (m + n) = omega arith in rw e (ap (◌∷◌ x) (replicate-append m n x))

  pub last?-snoc : (pre : List A) (x : A) → last? (pre ++ (x ∷ [])) ≡ some x
  last?-snoc [] x = refl
  last?-snoc (y ∷ []) x = refl
  last?-snoc (y ∷ z ∷ pre) x = last?-snoc (z ∷ pre) x

  pub length-leaves :
      (xs : List A) (q : ℕ) → length (map some xs ++ replicate q none) ≡ length xs + q
  length-leaves [] q = omega (arith, length-replicate {A = Option A} q none)
  length-leaves (x ∷ xs) q = omega (arith, length-leaves xs q)
