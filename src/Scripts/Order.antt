-- ===== src/Scripts/Order.antt =====
-- A run of the validator (scriptval.go) that takes one item after the other.
use btcchain.Common.{
  ℕ, zero, suc, ◌+◌, ◌<◌, ◌≡◌, refl, arith, inl, inr, none, some, List, [], ◌∷◌, length, Result, ok,
  Result-cases, ◌>>◌,
}
use btcchain.Scripts.{
  ValidateItem, Validator, start, send, receive, fail, finish, Reach, here, next,
}
use btcchain.Scripts.Runs.{some_routine}
use btcchain.Scripts.Blocks.{MayValidate}

-- The first error among the items, in their order.
abbrev pub in_order : (ValidateItem → Result (Unit {0})) → List ValidateItem → Result (Unit {0})
in_order validate [] = ok tt
in_order validate (item ∷ items) = validate item >> in_order validate items

module _ (validate : ValidateItem → Result (Unit {0})) (n : ℕ) (first : Validator) where
  take_in_order :
      (unsent : List ValidateItem) (idle processed : ℕ)
      → 0 < idle
      → processed + length unsent ≡ n
      → Reach validate n first (record {
        unsent = unsent;
        held = [];
        idle = idle;
        processed_items = processed;
        returned = none;
      })
      → (v : Validator) × Reach validate n first v × (v.returned ≡ some (in_order validate unsent))
  take_in_order unsent zero processed some_idle counted run = absurd (omega arith)
  take_in_order [] (suc idle) processed some_idle counted run =
      (_, next run (finish [] [] (suc idle) processed (omega arith)), refl)
  take_in_order (item ∷ rest) (suc idle) processed some_idle counted run =
      let sent = next run (send item rest [] idle processed) in
      elim (Result-cases (validate item)) [
        | inl (u, e) ↦ rw e (
            take_in_order rest (suc idle) (suc processed) (omega arith) (omega arith)
              (next sent (receive item rest [] [] idle processed e)))
        | inr (x, e) ↦ rw e (_, next sent (fail item rest [] [] idle processed x e), refl)
      ]

-- Whatever the items and the processors are, Validate may return the first error in the order of the
-- items, or success where there is none.
pub validate-in_order :
    (validate : ValidateItem → Result (Unit {0})) (cpus : ℕ) (items : List ValidateItem)
    → MayValidate validate cpus items (in_order validate items)
unfolding start
validate-in_order validate cpus [] = refl
validate-in_order validate cpus (item ∷ items) =
    take_in_order validate _ _ (item ∷ items) _ 0
      (some_routine validate (item ∷ items) cpus (length (item ∷ items)) (omega arith))
      (omega arith) here
