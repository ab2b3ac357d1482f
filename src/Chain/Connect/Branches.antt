-- ===== src/Chain/Connect/Branches.antt =====
-- The two loops of getReorganizeNodes (chain.go): where the walk down a side chain ends.
use btcchain.Common.{
  ℕ, zero, suc, ◌≡◌, refl, ap, sym, ◌∙◌, ◌<◌, Option, none, some, List, [], ◌∷◌, ◌++◌, ◌==◌,
  Result-cases, ok, ◌⊎◌, inl, inr, arith, Bool-cases, Option-cases,
}
use mathlib.Core.List.{append_assoc}
use btcchain.Chain.State.{BlockNode, BlockChain}
use btcchain.Chain.Connect.{side_walk, main_walk, height_of, get_reorganize_nodes}

side_walk-front :
    (fuel : ℕ) (heap : ℕ → BlockNode) (n : ℕ) (acc : List ℕ) (a : ℕ) (attach : List ℕ)
    → side_walk fuel heap n acc ≡ ok (a, attach)
    → (early : List ℕ) × (attach ≡ early ++ acc)
unfolding side_walk
side_walk-front zero heap n acc a attach h = absurd (cc)
side_walk-front (suc fuel) heap n acc a attach h = elim (Option-cases ((heap n).parent)) [
  | inl e ↦ ([], cc (rw (e, side_walk) at h))
  | inr (p, e) ↦ elim (Bool-cases ((heap n).in_main_chain)) [
    | inl i ↦ ([], cc (rw (e, i, side_walk) at h))
    | inr i ↦
        let (early, shape) =
          side_walk-front fuel heap p (n ∷ acc) a attach (rw (e, i, side_walk) at h) in
        (early ++ (n ∷ []), shape ∙ sym (append_assoc early (n ∷ []) acc))
  ]
]

-- The nodes to attach are none, or end with the node itself.
side_walk-last :
    (fuel : ℕ) (heap : ℕ → BlockNode) (r : ℕ) (a : ℕ) (attach : List ℕ)
    → side_walk fuel heap r [] ≡ ok (a, attach)
    → (attach ≡ []) ⊎ ((ns : List ℕ) × (attach ≡ ns ++ (r ∷ [])))
unfolding side_walk
side_walk-last zero heap r a attach h = absurd (cc)
side_walk-last (suc fuel) heap r a attach h = elim (Option-cases ((heap r).parent)) [
  | inl e ↦ inl (cc (rw (e, side_walk) at h))
  | inr (p, e) ↦ elim (Bool-cases ((heap r).in_main_chain)) [
    | inl i ↦ inl (cc (rw (e, i, side_walk) at h))
    | inr i ↦ inr (side_walk-front fuel heap p (r ∷ []) a attach (rw (e, i, side_walk) at h))
  ]
]

module _ {S : Type 0} where
  pub get_reorganize_nodes-last :
      (s : BlockChain S) (r : ℕ) (detach attach : List ℕ)
      → get_reorganize_nodes s (some r) ≡ ok (detach, attach)
      → (attach ≡ []) ⊎ ((ns : List ℕ) × (attach ≡ ns ++ (r ∷ [])))
  unfolding get_reorganize_nodes
  get_reorganize_nodes-last s r detach attach h =
      elim (Result-cases (side_walk (height_of s.heap (some r)) s.heap r [])) [
        | inr (e, w) ↦ absurd (cc (rw (w, get_reorganize_nodes) at h))
        | inl ((a, up), w) ↦
            elim (Result-cases
              (main_walk (height_of s.heap s.best_chain) s.heap s.best_chain (s.heap a).hash)) [
                | inr (e, m) ↦ absurd (cc (rw (w, m, get_reorganize_nodes) at h))
                | inl (down, m) ↦
                    let same : up ≡ attach = cc (rw (w, m, get_reorganize_nodes) at h) in
                    side_walk-last _ s.heap r a attach (w ∙ ap (λ l. ok (a, l)) same)
              ]
      ]

-- Heights fall along parents.
abbrev pub IsDescending : (ℕ → BlockNode) → Type 0
IsDescending heap = (n p : ℕ) → (heap n).parent ≡ some p → (heap p).height < (heap n).height

side_walk-ok :
    (heap : ℕ → BlockNode)
    → IsDescending heap
    → (fuel n : ℕ) (acc : List ℕ) → (heap n).height < fuel
    → (result : ℕ × List ℕ) × (side_walk fuel heap n acc ≡ ok result)
unfolding side_walk
side_walk-ok heap falls zero n acc h = absurd (omega arith)
side_walk-ok heap falls (suc fuel) n acc h = elim (Option-cases ((heap n).parent)) [
  | inl e ↦ ((n, acc), rw (e, side_walk) refl)
  | inr (p, e) ↦ elim (Bool-cases ((heap n).in_main_chain)) [
    | inl i ↦ ((n, acc), rw (e, i, side_walk) refl)
    | inr i ↦
        let (result, done) =
          side_walk-ok heap falls fuel p (n ∷ acc) (omega (arith, falls n p e)) in
        (result, rw (e, i, side_walk) done)
  ]
]

main_walk-ok :
    (heap : ℕ → BlockNode)
    → IsDescending heap
    → (fuel n hash : ℕ) → (heap n).height < fuel
    → (result : List ℕ) × (main_walk fuel heap (some n) hash ≡ ok result)
unfolding main_walk
main_walk-ok heap falls zero n hash h = absurd (omega arith)
main_walk-ok heap falls (suc fuel) n hash h = elim (Option-cases ((heap n).parent)) [
  | inl e ↦ ([], rw (e, main_walk) refl)
  | inr (p, e) ↦ elim (Bool-cases ((heap n).hash == hash)) [
    | inl i ↦ ([], rw (e, i, main_walk) refl)
    | inr i ↦
        let (result, done) = main_walk-ok heap falls fuel p hash (omega (arith, falls n p e)) in
        (n ∷ result, rw (e, i, done, main_walk) refl)
  ]
]

main_walk-ends :
    (heap : ℕ → BlockNode)
    → IsDescending heap
    → (best : Option ℕ) (hash : ℕ)
    → (result : List ℕ) × (main_walk (height_of heap best) heap best hash ≡ ok result)
unfolding main_walk
main_walk-ends heap falls none hash = ([], refl)
main_walk-ends heap falls (some b) hash =
    main_walk-ok heap falls (suc (heap b).height) b hash (omega arith)

-- Where heights fall along parents, getReorganizeNodes ends: the fuel is enough for both walks.
pub get_reorganize_nodes-ok :
    {S : Type 0} (s : BlockChain S) (node : Option ℕ)
    → IsDescending s.heap
    → (result : List ℕ × List ℕ) × (get_reorganize_nodes s node ≡ ok result)
unfolding get_reorganize_nodes
get_reorganize_nodes-ok s none falls = (([], []), refl)
get_reorganize_nodes-ok s (some r) falls =
    let ((a, attach), w) =
      side_walk-ok s.heap falls (height_of s.heap (some r)) r [] (omega arith) in
    let (detach, m) = main_walk-ends s.heap falls s.best_chain (s.heap a).hash in
    ((detach, attach), rw (w, m, get_reorganize_nodes) refl)
