-- ===== src/Scripts.antt =====
-- scriptval.go: the scripts of a transaction's or a block's inputs, and the validator that runs them
-- in goroutines. btcscript is a parameter.
pub mod Passing
pub mod Failing
pub mod Runs
pub mod Blocks
pub mod Order
use btcchain.Common.{
  ℕ, zero, suc, ◌+◌, ◌*◌, ◌%◌, ◌^◌, ◌≡◌, List, [], ◌∷◌, ◌++◌, length, get_elem?, Bool, true, false,
  ◌==◌, ltb, leb, if◌then◌else◌, Result, ok, err, Error, rule, ◌>>=◌, ◌>>◌, reject_if, or_panic,
  Option, none, some, bad_tx_input, script_malformed, script_validation,
}
use btcchain.Wire.{Block, Tx, TxIn, max_uint32}
use btcchain.TxStore.{TxStore}
use btcchain.Inputs.{find_origin}

-- txValidateItem
pub record ValidateItem : Type 0 where
  pub tx_in_index : ℕ
  pub tx_in : TxIn
  pub tx : Tx

-- What btcscript says of a script pair: NewScript fails, Execute fails, or neither.
pub data ScriptOutcome : Type 0 where
  malformed refused passed : ScriptOutcome

-- The inputs of a transaction from place i on; those with a coinbase's index are left out.
unfoldable pub items_from : ℕ → Tx → List TxIn → List ValidateItem
items_from i tx [] = []
items_from i tx (input ∷ ins) =
    let rest = items_from (suc i) tx ins in
    if input.previous_out_point.index == max_uint32
    then rest
    else record { tx_in_index = i; tx_in = input; tx = tx } ∷ rest

unfoldable pub items_of_block : List Tx → List ValidateItem
items_of_block [] = []
items_of_block (tx ∷ txs) = items_from 0 tx tx.tx_in ++ items_of_block txs

-- The goroutines that Validate starts for this many items, at least one, on this many processors.
unfoldable pub max_go_routines : ℕ → ℕ → ℕ
max_go_routines cpus items =
    let wanted = if leb (cpus * 3) 0 then 1 else cpus * 3 in
    if ltb items wanted then items else wanted

-- run_script: signature script, output script, index, transaction, the flag ScriptBip16.
module _ (run_script : List ℕ → List ℕ → ℕ → Tx → Bool → ScriptOutcome) where
  -- What validateHandler sends for an item.
  unfoldable pub validate_item : TxStore → Bool → ValidateItem → Result (Unit {0})
  validate_item store bip16 item =
      find_origin store item.tx_in.previous_out_point.hash >>= λ (entry, origin).
      let index = item.tx_in.previous_out_point.index in
      reject_if (leb (length origin.tx_out % 2 ^ 32) index) bad_tx_input
      >> (or_panic (get_elem? origin.tx_out index) >>= λ out.
          elim (run_script item.tx_in.signature_script out.pk_script item.tx_in_index item.tx
            bip16) [
              | malformed ↦ err (rule script_malformed)
              | refused ↦ err (rule script_validation)
              | passed ↦ ok tt
            ])

-- The state of Validate between the communications on its channels: the items not sent yet, those
-- that a handler holds until its result is received, the handlers that wait for an item, the results
-- received, and what Validate has returned.
pub record Validator : Type 0 where
  pub unsent : List ValidateItem
  pub held : List ValidateItem
  pub idle : ℕ
  pub processed_items : ℕ
  pub returned : Option (Result (Unit {0}))

unfoldable pub start : ℕ → List ValidateItem → Validator
start cpus items = record {
  unsent = items;
  held = [];
  idle = max_go_routines cpus (length items);
  processed_items = 0;
  returned = none;
}

-- `validate` gives the result of a handler. A select takes any case that can communicate, and any
-- handler may be the one that communicates.
pub data Step (validate : ValidateItem → Result (Unit {0})) (num_inputs : ℕ)
    : Validator → Validator → Type 0 where
  -- An item goes to a handler.
  send :
      (item : ValidateItem) (rest held : List ValidateItem) (idle processed : ℕ)
      → Step validate num_inputs
          (record {
            unsent = item ∷ rest;
            held = held;
            idle = suc idle;
            processed_items = processed;
            returned = none;
          })
          (record {
            unsent = rest;
            held = item ∷ held;
            idle = idle;
            processed_items = processed;
            returned = none;
          })
  -- A handler's success is received, and the handler waits for an item again.
  receive :
      (item : ValidateItem) (unsent before after : List ValidateItem) (idle processed : ℕ)
      → validate item ≡ ok tt
      → Step validate num_inputs
          (record {
            unsent = unsent;
            held = before ++ (item ∷ after);
            idle = idle;
            processed_items = processed;
            returned = none;
          })
          (record {
            unsent = unsent;
            held = before ++ after;
            idle = suc idle;
            processed_items = suc processed;
            returned = none;
          })
  -- A handler's error is received: the channel quitChan is closed, and Validate returns it.
  fail :
      (item : ValidateItem) (unsent before after : List ValidateItem) (idle processed : ℕ)
      (e : Error)
      → validate item ≡ err e
      → Step validate num_inputs
          (record {
            unsent = unsent;
            held = before ++ (item ∷ after);
            idle = idle;
            processed_items = processed;
            returned = none;
          })
          (record {
            unsent = unsent;
            held = before ++ after;
            idle = idle;
            processed_items = suc processed;
            returned = some (err e);
          })
  -- All results are there.
  finish :
      (unsent held : List ValidateItem) (idle processed : ℕ)
      → processed ≡ num_inputs
      → Step validate num_inputs
          (record {
            unsent = unsent;
            held = held;
            idle = idle;
            processed_items = processed;
            returned = none;
          })
          (record {
            unsent = unsent;
            held = held;
            idle = idle;
            processed_items = processed;
            returned = some (ok tt);
          })

pub data Reach (validate : ValidateItem → Result (Unit {0})) (num_inputs : ℕ) (s : Validator)
    : Validator → Type 0 where
  here : Reach validate num_inputs s s
  next :
      {t u : Validator}
      → Reach validate num_inputs s t
      → Step validate num_inputs t u
      → Reach validate num_inputs s u
