-- ===== src/Chain/Connect/Selection.antt =====
-- The node with the most work becomes the end of the main chain.
use btcchain.Common.{
  ℕ, ◌≡◌, refl, ap, sym, ◌∙◌, ◌≤◌, Option, none, some, List, [], ◌∷◌, ◌++◌, true, false, ◌==◌, leb,
  leb→le, Result-cases, if◌then◌else◌, Result, ok, err, panic, ◌⊎◌, inl, inr, arith, Bool-cases,
  Option-cases,
}
use btcchain.Wire.{Block}
use btcchain.Chain.State.{BlockChain, Env, bind, bind_all, bind_ok, send_notification}
use btcchain.Chain.Nodes.{adopt, link, load_block_node, get_prev_node_from_node}
use btcchain.Chain.Connect.Branches.{get_reorganize_nodes-last}
use btcchain.Chain.Connect.{
  Flags, get_reorganize_nodes, connect_block, attach_one, attach_all, log_reorganize,
  reorganize_chain, on_best, append_child, extend_best, add_to_side, choose_best,
  connect_best_chain,
}

module _ {S : Type 0} (env : Env S) where
  adopt-best :
      (r : ℕ) (cs : List ℕ) (s : BlockChain S) → (adopt env r cs s).1.best_chain ≡ s.best_chain
  unfolding adopt bind
  adopt-best r [] s = refl
  adopt-best r (c ∷ cs) s = adopt-best r cs _

  link-best :
      (r h p : ℕ) (parent_node : Option ℕ) (waiting : Option (List ℕ)) (root : Option ℕ)
      (s : BlockChain S)
      → (link env r h p parent_node waiting root s).1.best_chain ≡ s.best_chain
  unfolding link bind
  link-best r h p (some q) waiting root s = refl
  link-best r h p none (some cs) root s = adopt-best r cs s
  link-best r h p none none (some old) s = refl
  link-best r h p none none none s = refl

  -- Loading a node leaves the end of the main chain alone.
  pub load_block_node-best :
      (h : ℕ) (s : BlockChain S) → (load_block_node env h s).1.best_chain ≡ s.best_chain
  unfolding load_block_node
  load_block_node-best h s =
      let Q = λ (t : BlockChain S). t.best_chain ≡ s.best_chain in
      bind_all Q _ _ refl λ _ q. bind_all Q _ _ q λ _ q. bind_all Q _ _ q λ _ q.
        bind_all Q _ _ q λ _ q. bind_all Q _ _ q λ _ q. bind_all Q _ _ q λ _ q.
          bind_all Q _ _ q λ _ q.
            bind_all Q _ _ q
              λ _ q. bind_all Q _ _ (link-best _ h _ _ _ _ _ ∙ q) λ _ q. bind_all Q _ _ q λ _ q. q

  connect_block-best :
      (r : ℕ) (block : Block) (s : BlockChain S)
      → (connect_block env r block s).0 ≡ ok tt
      → (connect_block env r block s).1.best_chain ≡ some r
  unfolding connect_block send_notification
  connect_block-best r block s =
      let Q = λ (t : BlockChain S). t.best_chain ≡ some r in
      bind_ok Q tt _ _ λ _ _. bind_ok Q tt _ _ λ _ _. bind_ok Q tt _ _ λ _ _.
        bind_ok Q tt _ _ λ _ _.
          bind_ok Q tt _ _
            λ _ _. bind_ok Q tt _ _ λ _ _. bind_ok Q tt _ _ λ _ _. bind_ok Q tt _ _ λ _ _ _. refl

  pub get_prev_node_from_node-best :
      (r : ℕ) (s : BlockChain S) → (get_prev_node_from_node env r s).1.best_chain ≡ s.best_chain
  unfolding get_prev_node_from_node
  get_prev_node_from_node-best r s = elim (Option-cases ((s.heap r).parent)) [
    | inl e ↦ elim (Bool-cases ((s.heap r).hash == env.genesis_hash)) [
      | inl g ↦ rw (e, g, get_prev_node_from_node) refl
      | inr g ↦
          rw (e, g, get_prev_node_from_node)
            (bind_all (λ t. t.best_chain ≡ s.best_chain) _ _ (load_block_node-best _ s) λ _ q. q)
    ]
    | inr (p, e) ↦ rw (e, get_prev_node_from_node) refl
  ]

  attach_one-best :
      (n : ℕ) (s : BlockChain S)
      → (attach_one env n s).0 ≡ ok tt
      → (attach_one env n s).1.best_chain ≡ some n
  unfolding attach_one
  attach_one-best n s =
      let Q = λ (t : BlockChain S). t.best_chain ≡ some n in
      bind_ok Q tt _ _ λ cached _.
        bind_ok Q tt _ _ λ block _. bind_ok Q tt _ _ λ _ e. λ _. connect_block-best n block _ e

  -- Attaching a list leaves its last node as the best one.
  attach_all-best :
      (ns : List ℕ) (r : ℕ) (s : BlockChain S)
      → (attach_all env (ns ++ (r ∷ [])) s).0 ≡ ok tt
      → (attach_all env (ns ++ (r ∷ [])) s).1.best_chain ≡ some r
  unfolding attach_all
  attach_all-best [] r s =
      bind_ok (λ t. t.best_chain ≡ some r) tt _ _ λ _ e _. attach_one-best r _ e
  attach_all-best (n ∷ ns) r s =
      bind_ok (λ t. t.best_chain ≡ some r) tt _ _ λ _ _. attach_all-best ns r _

  log_reorganize-best :
      (detach attach : List ℕ) (s : BlockChain S)
      → (log_reorganize env detach attach s).1.best_chain ≡ s.best_chain
  unfolding log_reorganize
  log_reorganize-best detach [] s = refl
  log_reorganize-best detach (first ∷ rest) s = ground (arith, get_prev_node_from_node-best first s)

  reorganize_chain-best :
      (detach ns : List ℕ) (r : ℕ) (flags : Flags) (s : BlockChain S)
      → flags.dry_run ≡ false
      → (reorganize_chain env detach (ns ++ (r ∷ [])) flags s).0 ≡ ok tt
      → (reorganize_chain env detach (ns ++ (r ∷ [])) flags s).1.best_chain ≡ some r
  unfolding reorganize_chain
  reorganize_chain-best detach ns r flags s live =
      let Q = λ (t : BlockChain S). t.best_chain ≡ some r in
      bind_ok Q tt _ _ λ _ _. bind_ok Q tt _ _ λ _ _. rw (live) (
        bind_ok Q tt _ _ λ _ _.
          bind_ok Q tt _ _ λ _ e _. log_reorganize-best detach _ _ ∙ attach_all-best ns r _ e)

  append_child-best :
      (p : Option ℕ) (r : ℕ) (s : BlockChain S)
      → (append_child env p r s).1.best_chain ≡ s.best_chain
  unfolding append_child
  append_child-best none r s = refl
  append_child-best (some p) r s = refl

  append_child-work :
      (p : Option ℕ) (r : ℕ) (s : BlockChain S) (q : ℕ)
      → ((append_child env p r s).1.heap q).work_sum ≡ (s.heap q).work_sum
  unfolding append_child
  append_child-work none r s q = refl
  append_child-work (some p) r s q = elim (Bool-cases (q == p)) [
    | inl e ↦ rw (e) refl
    | inr e ↦ rw (e) refl
  ]

  extend_best-best :
      (r : ℕ) (block : Block) (flags : Flags) (s : BlockChain S)
      → flags.dry_run ≡ false
      → (extend_best env r block flags s).0 ≡ ok tt
      → (extend_best env r block flags s).1.best_chain ≡ some r
  unfolding extend_best
  extend_best-best r block flags s live =
      let Q = λ (t : BlockChain S). t.best_chain ≡ some r in
      bind_ok Q tt _ _ λ _ _. rw (live) (
        bind_ok Q tt _ _
          λ _ e. bind_ok Q tt _ _ λ p _ _. append_child-best p r _ ∙ connect_block-best r block _ e)

  add_to_side-best :
      (r : ℕ) (block : Block) (s : BlockChain S)
      → (add_to_side env r block s).1.best_chain ≡ s.best_chain
  unfolding add_to_side
  add_to_side-best r block s =
      let Q = λ (t : BlockChain S). t.best_chain ≡ s.best_chain in
      bind_all Q _ _ refl
        λ _ q. bind_all Q _ _ q λ _ q. bind_all Q _ _ q λ p q. append_child-best p r _ ∙ q

  add_to_side-work :
      (r : ℕ) (block : Block) (s : BlockChain S) (q : ℕ)
      → ((add_to_side env r block s).1.heap q).work_sum ≡ (s.heap q).work_sum
  unfolding add_to_side
  add_to_side-work r block s q =
      let Q = λ (t : BlockChain S). (t.heap q).work_sum ≡ (s.heap q).work_sum in
      bind_all Q _ _ refl λ _ e.
        bind_all Q _ _ (elim (Bool-cases (q == r)) [ inl h ↦ rw (h) e | inr h ↦ rw (h) e ])
          λ _ e. bind_all Q _ _ e λ p e. append_child-work p r _ q ∙ e

  reorganize_chain-nil :
      (detach : List ℕ) (r : ℕ) (flags : Flags) (s : BlockChain S)
      → flags.dry_run ≡ false
      → (reorganize_chain env detach [] flags s).0 ≡ ok tt
      → (reorganize_chain env detach [] flags s).1.best_chain ≡ some r
  unfolding reorganize_chain log_reorganize
  reorganize_chain-nil detach r flags s live =
      let Q = λ (t : BlockChain S). t.best_chain ≡ some r in
      bind_ok Q tt _ _ λ _ _.
        bind_ok Q tt _ _
          λ _ _. rw (live) (bind_ok Q tt _ _ λ _ _. bind_ok Q tt _ _ λ _ e h. absurd (cc))

  choose_best-reorganize :
      (r b : ℕ) (flags : Flags) (s : BlockChain S) (detach attach : List ℕ)
      → s.best_chain ≡ some b
      → leb (s.heap r).work_sum (s.heap b).work_sum ≡ false
      → get_reorganize_nodes s (some r) ≡ ok (detach, attach)
      → choose_best env r flags s ≡ reorganize_chain env detach attach flags s
  unfolding choose_best
  choose_best-reorganize r b flags s detach attach best more found =
      let choose : Option ℕ → Result (Unit {0}) × BlockChain S = λ best_chain. elim best_chain [
        | none ↦ (err panic, s)
        | some b ↦
            if leb (s.heap r).work_sum (s.heap b).work_sum
            then (ok tt, s)
            else elim (get_reorganize_nodes s (some r)) [
              | err e ↦ (err e, s)
              | ok (detach, attach) ↦ reorganize_chain env detach attach flags s
            ]
      ] in
      ap choose best ∙ rw (more, found) refl

  choose_best-best :
      (r b : ℕ) (flags : Flags) (s : BlockChain S)
      → flags.dry_run ≡ false
      → s.best_chain ≡ some b
      → (choose_best env r flags s).0 ≡ ok tt
      → ((choose_best env r flags s).1.best_chain ≡ some r)
        ⊎ (((choose_best env r flags s).1.best_chain ≡ some b)
            × ((s.heap r).work_sum ≤ (s.heap b).work_sum))
  unfolding choose_best
  choose_best-best r b flags s live best h =
      elim (Bool-cases (leb (s.heap r).work_sum (s.heap b).work_sum)) [
        | inl e ↦ inr (rw (best, e, choose_best) best, leb→le _ _ e)
        | inr e ↦ elim (Result-cases (get_reorganize_nodes s (some r))) [
          | inr (x, g) ↦ absurd (cc (rw (best, e, g, choose_best) at h))
          | inl ((detach, attach), g) ↦
              let path : choose_best env r flags s ≡ reorganize_chain env detach attach flags s =
                choose_best-reorganize r b flags s detach attach best e g in
              let run = sym (ap (λ x. x.0) path) ∙ h in
              elim (get_reorganize_nodes-last s r detach attach g) [
                | inl z ↦ inl (
                    ap (λ x. x.1.best_chain) path
                    ∙ (rw (z) (reorganize_chain-nil detach r flags s live (rw (z) at run))))
                | inr (ns, z) ↦ inl (
                    ap (λ x. x.1.best_chain) path
                    ∙ (rw (z) (reorganize_chain-best detach ns r flags s live (rw (z) at run))))
              ]
        ]
      ]

  on_best-none :
      (r : ℕ) (s : BlockChain S) → on_best env s r ≡ ok false → (b : ℕ) × (s.best_chain ≡ some b)
  unfolding on_best
  on_best-none r s o = elim (Option-cases s.best_chain) [
    | inl n ↦ absurd (cc (rw (n, on_best) at o))
    | inr found ↦ found
  ]

  connect_best_chain-side :
      (r : ℕ) (block : Block) (flags : Flags) (s : BlockChain S)
      → flags.dry_run ≡ false
      → on_best env s r ≡ ok false
      → connect_best_chain env r block flags s
        ≡ choose_best env r flags (add_to_side env r block s).1
  unfolding connect_best_chain
  connect_best_chain-side r block flags s live o = rw (o, live, connect_best_chain) refl

  -- A run of connectBestChain that is not a dry run and succeeds leaves the node at the end of the
  -- main chain, or leaves the end of the main chain as it was, which then has at least the work of
  -- the node.
  pub connect_best_chain-best :
      (r : ℕ) (block : Block) (flags : Flags) (s : BlockChain S)
      → flags.dry_run ≡ false
      → (connect_best_chain env r block flags s).0 ≡ ok tt
      → ((connect_best_chain env r block flags s).1.best_chain ≡ some r)
        ⊎ ((b : ℕ) × ((connect_best_chain env r block flags s).1.best_chain ≡ some b)
            × (s.best_chain ≡ some b)
            × ((s.heap r).work_sum ≤ (s.heap b).work_sum))
  unfolding connect_best_chain
  connect_best_chain-best r block flags s live h = elim (Result-cases (on_best env s r)) [
    | inr (x, o) ↦ absurd (cc (rw (o, connect_best_chain) at h))
    | inl (true, o) ↦ inl (
        rw (o, connect_best_chain)
          (extend_best-best r block flags s live (rw (o, connect_best_chain) at h)))
    | inl (false, o) ↦
        let side = (add_to_side env r block s).1 in
        let path = connect_best_chain-side r block flags s live o in
        let to = ap (λ x. x.1.best_chain) path in
        let (b, best) = on_best-none r s o in
        let side_best = add_to_side-best r block s ∙ best in
        elim (choose_best-best r b flags side live side_best (sym (ap (λ x. x.0) path) ∙ h)) [
          | inl q ↦ inl (to ∙ q)
          | inr (q, w) ↦ inr (
            b,
            to ∙ q,
            best,
            (rw (add_to_side-work r block s b, add_to_side-work r block s r) at w),
          )
        ]
  ]
