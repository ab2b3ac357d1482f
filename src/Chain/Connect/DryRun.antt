-- ===== src/Chain/Connect/DryRun.antt =====
-- A dry run of connectBestChain (chain.go) connects nothing.
use btcchain.Common.{
  ℕ, ◌≡◌, refl, sym, ◌∙◌, Option, none, some, List, [], ◌∷◌, true, false, leb, Result, ok, err,
  lookup, panic, subst, if◌then◌else◌, Result-cases, Option-cases, Bool-cases, inl, inr,
}
use btcchain.Wire.{Block}
use btcchain.Chain.State.{BlockChain, Env, bind_all}
use btcchain.Chain.Connect.{
  Flags, get_reorganize_nodes, check_cached, check_attach, reorganize_chain, on_best, extend_best,
  append_child, add_to_side, undo_side, choose_best, connect_best_chain,
}

module _ {S : Type 0} (env : Env S) where
  -- What a dry run must not touch.
  abbrev pub Kept : BlockChain S → BlockChain S → Type 0
  Kept t s =
      (t.db ≡ s.db)
      × (t.best_chain ≡ s.best_chain)
      × (t.notifications ≡ s.notifications)
      × (t.pool ≡ s.pool)

  pub check_cached-state : (ns : List ℕ) (s : BlockChain S) → (check_cached env ns s).1 ≡ s
  unfolding check_cached
  check_cached-state [] s = refl
  check_cached-state (n ∷ ns) s = elim (Option-cases (lookup (s.heap n).hash s.block_cache)) [
    | inl e ↦ rw (e, check_cached) refl
    | inr (b, e) ↦ rw (e, check_cached) (check_cached-state ns s)
  ]

  pub check_attach-state : (ns : List ℕ) (s : BlockChain S) → (check_attach env ns s).1 ≡ s
  unfolding check_attach
  check_attach-state [] s = refl
  check_attach-state (n ∷ ns) s = elim (Option-cases (lookup (s.heap n).hash s.block_cache)) [
    | inl e ↦ rw (e, check_attach) refl
    | inr (b, e) ↦ elim (Result-cases (env.check_connect_block s n b)) [
      | inl (t, c) ↦ rw (e, c, check_attach) (check_attach-state ns s)
      | inr (x, c) ↦ rw (e, c, check_attach) refl
    ]
  ]

  -- A dry run of reorganizeChain leaves the whole state as it was, whether the checks pass or fail.
  pub reorganize_chain-dry :
      (detach attach : List ℕ) (flags : Flags) (s : BlockChain S)
      → flags.dry_run ≡ true
      → (reorganize_chain env detach attach flags s).1 ≡ s
  unfolding reorganize_chain
  reorganize_chain-dry detach attach flags s dry =
      let Q = λ (t : BlockChain S). t ≡ s in
      bind_all Q _ _ (check_cached-state attach s)
        λ _ q. bind_all Q _ _ (check_attach-state attach _ ∙ q) λ _ q. rw (dry) q

  extend_best-dry :
      (r : ℕ) (block : Block) (flags : Flags) (s : BlockChain S)
      → flags.dry_run ≡ true
      → (extend_best env r block flags s).1 ≡ s
  unfolding extend_best
  extend_best-dry r block flags s dry =
      let Q = λ (t : BlockChain S). t ≡ s in
      bind_all Q _ _
        (elim (Bool-cases flags.fast_add) [ inl f ↦ rw (f) refl | inr f ↦ rw (f) refl ])
        λ _ q. rw (dry) q

  append_child-Kept :
      (p : Option ℕ) (r : ℕ) (s t : BlockChain S) → Kept s t → Kept (append_child env p r s).1 t
  unfolding append_child
  append_child-Kept none r s t k = k
  append_child-Kept (some p) r s t k = k

  add_to_side-Kept :
      (r : ℕ) (block : Block) (s : BlockChain S) → Kept (add_to_side env r block s).1 s
  unfolding add_to_side
  add_to_side-Kept r block s =
      let Q = λ (t : BlockChain S). Kept t s in
      bind_all Q _ _ (refl, refl, refl, refl)
        λ _ q. bind_all Q _ _ q λ _ q. bind_all Q _ _ q λ p q. append_child-Kept p r _ s q

  undo_side-Kept : (r : ℕ) (s t : BlockChain S) → Kept s t → Kept (undo_side env r s) t
  unfolding undo_side
  undo_side-Kept r s t k = elim (Option-cases ((s.heap r).parent)) [
    | inl e ↦ rw (e, undo_side) k
    | inr (p, e) ↦ rw (e, undo_side) k
  ]

  -- The body of choose_best, for any end of the main chain.
  choice-dry :
      (best : Option ℕ) (r : ℕ) (flags : Flags) (s : BlockChain S)
      → flags.dry_run ≡ true
      → (elim best as (λ _. Result (Unit {0}) × BlockChain S) [
        | none ↦ (err panic, s)
        | some b ↦
            if leb (s.heap r).work_sum (s.heap b).work_sum
            then (ok tt, s)
            else elim (get_reorganize_nodes s (some r)) [
              | err e ↦ (err e, s)
              | ok (detach, attach) ↦ reorganize_chain env detach attach flags s
            ]
      ]).1
        ≡ s
  choice-dry none r flags s dry = refl
  choice-dry (some b) r flags s dry =
      elim (Bool-cases (leb (s.heap r).work_sum (s.heap b).work_sum)) [
        | inl e ↦ rw (e) refl
        | inr e ↦ elim (Result-cases (get_reorganize_nodes s (some r))) [
          | inr (x, g) ↦ rw (e, g) refl
          | inl ((detach, attach), g) ↦ rw (e, g) (reorganize_chain-dry detach attach flags s dry)
        ]
      ]

  choose_best-dry :
      (r : ℕ) (flags : Flags) (s : BlockChain S)
      → flags.dry_run ≡ true
      → (choose_best env r flags s).1 ≡ s
  unfolding choose_best
  choose_best-dry r flags s dry = choice-dry s.best_chain r flags s dry

  dry_side :
      (r : ℕ) (block : Block) (flags : Flags) (s : BlockChain S)
      → flags.dry_run ≡ true
      → on_best env s r ≡ ok false
      → (connect_best_chain env r block flags s).1
        ≡ undo_side env r (choose_best env r flags (add_to_side env r block s).1).1
  unfolding connect_best_chain
  dry_side r block flags s dry o = rw (o, dry, connect_best_chain) refl

  -- A dry run of connectBestChain, whether it succeeds or fails, changes neither the database nor
  -- the end of the main chain nor the orphan pool, and sends no notification.
  pub connect_best_chain-dry :
      (r : ℕ) (block : Block) (flags : Flags) (s : BlockChain S)
      → flags.dry_run ≡ true
      → Kept (connect_best_chain env r block flags s).1 s
  unfolding connect_best_chain
  connect_best_chain-dry r block flags s dry = elim (Result-cases (on_best env s r)) [
    | inr (x, o) ↦ rw (o, connect_best_chain) (refl, refl, refl, refl)
    | inl (true, o) ↦
        let same : (connect_best_chain env r block flags s).1 ≡ s =
          rw (o, connect_best_chain) (extend_best-dry r block flags s dry) in
        subst (λ t. Kept t s) (sym same) (refl, refl, refl, refl)
    | inl (false, o) ↦
        let side = (add_to_side env r block s).1 in
        let chosen = choose_best-dry r flags side dry in
        let kept : Kept (choose_best env r flags side).1 s =
          subst (λ t. Kept t s) (sym chosen) (add_to_side-Kept r block s) in
        subst (λ t. Kept t s) (sym (dry_side r block flags s dry o)) (undo_side-Kept r _ s kept)
  ]
