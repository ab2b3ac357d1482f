-- ===== src/CoinAge.antt =====
-- The coin age of a transaction and of a block, and the money supply (ppc.go).
use btcchain.Common.{
  ℕ, ◌+◌, ◌*◌, ◌%◌, ◌^◌, ◌==◌, ltb, Bool, true, false, Option, none, some, List, [], ◌∷◌, get_elem?,
  lookup, if◌then◌else◌, Result, ok, err, failure, ◌>>=◌, or_panic,
}
use btcchain.Common.Int.{ℤ, pos, pos_part, neg_part, int64, ◌+ℤ◌, ◌-ℤ◌, ◌*ℤ◌, ltb_ℤ, euclid_div}
use btcchain.Wire.{Block, Tx, TxIn, unix}
use btcchain.Reward.{cent, coin}
use btcchain.Validate.{is_coin_base}
use btcchain.TxStore.{TxData, TxStore}
use btcchain.Inputs.{sum_out}
use btcchain.Chain.State.{BlockChain, Env, M, bind}
use btcchain.Chain.Nodes.{get_prev_node_from_node}
use btcchain.Chain.Lookup.{TxDb, block_at_height, fetch_input_transactions}

-- big.Int.Uint64: the lowest 64 bits.
abbrev pub uint64 : ℤ → ℕ
uint64 a = (pos_part a + neg_part a) % 2 ^ 64

module _ {S : Type 0} (env : Env S) (stake_min_age : ℕ) where
  -- What an output of an earlier transaction adds, in cent-seconds: the value of the output times
  -- the time since, if the block that holds it is old enough.
  unfoldable pub age_of : ℕ → Tx → ℕ → Block → Result ℤ
  age_of time prev index block =
      if ltb_ℤ (pos time) (int64 (pos (unix block.header.timestamp) +ℤ pos stake_min_age))
      then ok (pos 0)
      else or_panic (get_elem? prev.tx_out index) >>= λ out.
          ok (euclid_div (out.value *ℤ (pos time -ℤ pos (unix prev.time))) (pos cent))

  unfoldable pub add_age : S → ℕ → TxData → ℕ → ℤ → Result ℤ
  add_age db time entry index total = elim entry.tx [
    | none ↦ ok total
    | some prev ↦ elim (ltb time (unix prev.time)) [
      | true ↦ err failure
      | false ↦ block_at_height env db entry.block_height >>= λ block.
          age_of time prev index block >>= λ age. ok (total +ℤ age)
    ]
  ]

  -- The loop over the inputs; one that is not in the store does not count.
  unfoldable pub sum_ages : S → ℕ → TxStore → List TxIn → ℤ → Result ℤ
  sum_ages db time store [] total = ok total
  sum_ages db time store (i ∷ ins) total =
      (elim (lookup i.previous_out_point.hash store) [
        | none ↦ ok total
        | some entry ↦ add_age db time entry i.previous_out_point.index total
      ])
      >>= sum_ages db time store ins

  unfoldable pub get_coin_age_tx : S → Tx → TxStore → Result ℕ
  get_coin_age_tx db tx store =
      if is_coin_base tx
      then ok 0
      else sum_ages db (unix tx.time) store tx.tx_in (pos 0) >>= λ total.
          ok (uint64 (euclid_div (total *ℤ pos cent) (pos (coin * 24 * 60 * 60))))

  unfoldable pub sum_coin_ages : S → TxStore → List Tx → ℕ → Result ℕ
  sum_coin_ages db store [] total = ok total
  sum_coin_ages db store (tx ∷ txs) total =
      get_coin_age_tx db tx store >>= λ age. sum_coin_ages db store txs ((total + age) % 2 ^ 64)

  unfoldable pub get_coin_age_block : TxDb S → ℕ → Block → M S ℕ
  get_coin_age_block txs r block s = bind (fetch_input_transactions env txs r block s) λ store s'. (
    sum_coin_ages s'.db store block.transactions 0 >>= λ total.
        ok (if total == 0 then 1 else total),
    s',
  )

-- nValueIn, nValueOut and nFees of CalcMintAndMoneySupply.
pub record Flow : Type 0 where
  pub value_in : ℤ
  pub value_out : ℤ
  pub fees : ℤ

-- An input that is not in the store, has no transaction or no such output is a panic.
unfoldable pub sum_in : TxStore → List TxIn → ℤ → Result ℤ
sum_in store [] total = ok total
sum_in store (i ∷ ins) total = or_panic (lookup i.previous_out_point.hash store) >>= λ entry.
    or_panic entry.tx >>= λ origin.
    or_panic (get_elem? origin.tx_out i.previous_out_point.index) >>= λ out.
    sum_in store ins (int64 (total +ℤ out.value))

module _ (is_coin_stake : Tx → Bool) where
  unfoldable pub add_flow : TxStore → Tx → Flow → Result Flow
  add_flow store tx flow =
      let tx_out = sum_out (pos 0) tx.tx_out in
      if is_coin_base tx
      then ok (record flow { value_out = int64 (flow.value_out +ℤ tx_out) })
      else sum_in store tx.tx_in (pos 0) >>= λ tx_in. ok (record {
        value_in = int64 (flow.value_in +ℤ tx_in);
        value_out = int64 (flow.value_out +ℤ tx_out);
        fees = if is_coin_stake tx then flow.fees else int64 (flow.fees +ℤ int64 (tx_in -ℤ tx_out));
      })

  unfoldable pub sum_flow : TxStore → List Tx → Flow → Result Flow
  sum_flow store [] flow = ok flow
  sum_flow store (tx ∷ txs) flow = add_flow store tx flow >>= sum_flow store txs

  abbrev pub no_flow : Flow
  no_flow = record { value_in = pos 0; value_out = pos 0; fees = pos 0 }

  unfoldable pub set_supply : Block → Flow → ℤ → Block
  set_supply block flow before = record block {
    meta = record (block.meta) {
      mint = int64 (int64 (flow.value_out -ℤ flow.value_in) +ℤ flow.fees);
      money_supply = int64 (int64 (before +ℤ flow.value_out) -ℤ flow.value_in);
    };
  }

  -- The supply before the block: that of the node below, or none.
  abbrev pub supply_before : {S : Type 0} → BlockChain S → Option ℕ → ℤ
  supply_before s none = pos 0
  supply_before s (some p) = ((s.heap p).meta).money_supply

  module _ {S : Type 0} (env : Env S) (txs : TxDb S) where
    unfoldable pub calc_mint_and_money_supply : ℕ → Block → M S Block
    calc_mint_and_money_supply r block s =
        bind (fetch_input_transactions env txs r block s) λ store s'.
          bind (sum_flow store block.transactions no_flow, s')
            λ flow s''.
              bind (get_prev_node_from_node env r s'')
                λ prev t. (ok (set_supply block flow (supply_before t prev)), t)
