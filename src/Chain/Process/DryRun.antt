-- ===== src/Chain/Process/DryRun.antt =====
-- A dry run of ProcessBlock (process.go) changes nothing that matters.
use btcchain.Common.{◌≡◌, refl, ℕ, Bool, true, false, Bool-cases, inl, inr, Result}
use btcchain.Wire.{Block}
use btcchain.Chain.State.{BlockChain, Env, bind_all}
use btcchain.Chain.Loads.{find_previous_checkpoint-Kept}
use btcchain.Chain.Connect.{Flags}
use btcchain.Chain.Connect.DryRun.{Kept}
use btcchain.Chain.Accept.{Net, Kernel, maybe_accept_block}
use btcchain.Chain.Accept.DryRun.{KernelKeeps, maybe_accept_block-dry, Kept-trans, unless_skip}
use btcchain.Chain.Process.{
  ppc_process_block, store_orphan, process_orphans, store_or_accept, process_block,
}

module _ {S : Type 0} (env : Env S) (net : Net) (kernel : Kernel S) (t : BlockChain S) where
  abbrev Q : BlockChain S → Type 0
  Q s = Kept env s t

  ppc_process_block-Kept :
      (block : Block) (s : BlockChain S) → Q s → Q (ppc_process_block net block s).1
  unfolding ppc_process_block
  ppc_process_block-Kept block s k = elim (Bool-cases (net.block_is_proof_of_stake block)) [
    | inr e ↦ rw (e, ppc_process_block) k
    | inl e ↦ rw (e, ppc_process_block) (bind_all Q _ _ k λ _ k. k)
  ]

  store_orphan-dry :
      (now : ℕ) (block : Block) (flags : Flags) (s : BlockChain S)
      → flags.dry_run ≡ true
      → Q s
      → Q (store_orphan env net kernel now block flags s).1
  unfolding store_orphan
  store_orphan-dry now block flags s dry k = rw (dry, store_orphan) k

  store_or_accept-dry :
      (now : ℕ) (block : Block) (flags : Flags) (missing : Bool) (s : BlockChain S)
      → KernelKeeps env net kernel
      → flags.dry_run ≡ true
      → Q s
      → Q (store_or_accept env net kernel now block flags missing s).1
  unfolding store_or_accept
  store_or_accept-dry now block flags true s keeps dry k =
      bind_all Q _ _ (store_orphan-dry now block flags s dry k) λ _ k. k
  store_or_accept-dry now block flags false s keeps dry k =
      let accepted = maybe_accept_block-dry env net kernel block flags s keeps dry in
      bind_all Q _ _
        (Kept-trans env net kernel (maybe_accept_block env net kernel block flags s).1 s t accepted
          k)
        λ _ k.
          bind_all Q _ _
            (unless_skip env net kernel t flags.dry_run
              (process_orphans env net kernel block.sha flags) _ dry k)
            λ _ k. k

module _ {S : Type 0} (env : Env S) (net : Net) (kernel : Kernel S) where
  -- Where the operations of kernel.go only load nodes, a dry run of ProcessBlock, whatever its
  -- result, changes neither the database nor the end of the main chain nor the orphan pool, and
  -- sends no notification.
  pub process_block-dry :
      (check : Block → Result (Unit {0})) (now : ℕ) (block : Block) (flags : Flags)
      (s : BlockChain S)
      → KernelKeeps env net kernel
      → flags.dry_run ≡ true
      → Kept env (process_block env net kernel check now block flags s).1 s
  unfolding process_block
  process_block-dry check now block flags s keeps dry =
      let P : BlockChain S → Type 0 = λ x. Kept env x s in
      bind_all P _ _ (refl, refl, refl, refl)
        λ _ k. bind_all P _ _ k λ _ k. bind_all P _ _ k λ _ k. bind_all P _ _ k λ _ k.
          bind_all P _ _ (ppc_process_block-Kept env net kernel s block _ k) λ _ k.
            bind_all P _ _ k λ _ k.
              bind_all P _ _ (find_previous_checkpoint-Kept env s _ _ k) λ _ k.
                bind_all P _ _ k λ _ k. bind_all P _ _ k λ missing k.
                  store_or_accept-dry env net kernel s now block flags missing _ keeps dry k
