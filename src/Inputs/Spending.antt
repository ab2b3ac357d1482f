-- ===== src/Inputs/Spending.antt =====
-- CheckTransactionInputs (validate.go) marks what it spends and refuses what is marked.
use btcchain.Common.{
  ℕ, ◌%◌, ◌^◌, ◌≡◌, ◌≢◌, sym, ◌∙◌, ap, subst, inl, inr, leb, Bool, false, Option-cases, Option,
  none, some, List, [], ◌∷◌, length, get_elem?, lookup, insert, All, Result, ok, >>=-ok_then,
  All-pair, not, ◌&&◌, spend_too_high, ok_inj, reject_if, reject_if_iff, or_panic, or_panic-eq,
  All-imp, bad_tx_input, double_spend,
}
use btcchain.Common.Int.{ℤ, pos, ltb_ℤ}
use btcchain.Wire.{OutPoint, Tx, TxIn, TxOut}
use btcchain.Validate.{Packages, is_coin_base}
use btcchain.TxStore.{TxData, TxStore}
use btcchain.TxStore.Marks.{IsSpent, spend_in, spend_in-IsSpent, spend_in-keeps}
use btcchain.Inputs.{
  find_origin, check_maturity, add_input, check_input, check_inputs, settle, sum_out,
  ppc_check_transaction_input, ppc_check_transaction_inputs, check_transaction_inputs,
}

find_origin-lookup :
    (store : TxStore) (hash : ℕ) (entry : TxData) (origin : Tx)
    → find_origin store hash ≡ ok (entry, origin)
    → (lookup hash store ≡ some entry) × (entry.tx ≡ some origin)
unfolding find_origin
find_origin-lookup store hash entry origin h = elim (Option-cases (lookup hash store)) [
  | inl e ↦ absurd (cc (rw (e, find_origin) at h))
  | inr (found, e) ↦ elim (Option-cases found.error) [
    | inr (x, f) ↦ absurd (cc (rw (e, f, find_origin) at h))
    | inl f ↦ elim (Option-cases found.tx) [
      | inl t ↦ absurd (cc (rw (e, f, t, find_origin) at h))
      | inr (tx, t) ↦
          let pair : ok (found, tx) ≡ ok (entry, origin) = rw (e, f, t, find_origin) at h in
          (
            e ∙ ap (λ p. some p.0) (ok_inj pair),
            ap (λ p. p.0.tx) (sym (ok_inj pair)) ∙ t ∙ ap (λ p. some p.1) (ok_inj pair),
          )
    ]
  ]
]

unspent_apart :
    (p : OutPoint) (store : TxStore) (entry : TxData)
    → lookup p.hash store ≡ some entry
    → get_elem? entry.spent p.index ≡ some false
    → ¬ IsSpent p store
unspent_apart p store entry found unspent (other, at, spent) =
    let mark : Option TxData → Option Bool =
      λ o. elim o [ none ↦ none | some x ↦ get_elem? x.spent p.index ] in
    let same : mark (some other) ≡ mark (some entry) = ap mark (sym at ∙ found) in
    absurd (cc (sym spent ∙ same ∙ unspent))

module _ (packages : Packages) (coinbase_maturity : ℤ) (coin_age : Tx → TxStore → Result ℕ) where
  open packages use {is_coin_stake}

  -- What one round that succeeds has found.
  pub record Round (i : TxIn) (total : ℤ) (store : TxStore) (sum : ℤ) (next : TxStore)
      : Type 0 where
    pub entry : TxData
    pub origin : Tx
    pub out : TxOut
    pub found : lookup i.previous_out_point.hash store ≡ some entry
    pub has_tx : entry.tx ≡ some origin
    pub unspent : get_elem? entry.spent i.previous_out_point.index ≡ some false
    pub has_out : get_elem? origin.tx_out i.previous_out_point.index ≡ some out
    pub added : add_input packages coinbase_maturity coin_age total out.value ≡ ok sum
    pub marked :
        next ≡ insert i.previous_out_point.hash (spend_in entry i.previous_out_point.index) store

  pub check_input-Round :
      (tx : Tx) (height : ℤ) (i : TxIn) (total : ℤ) (store : TxStore) (sum : ℤ) (next : TxStore)
      → check_input packages coinbase_maturity coin_age tx height i total store ≡ ok (sum, next)
      → Round i total store sum next
  unfolding check_input
  check_input-Round tx height i total store sum next =
      let p = i.previous_out_point in
      >>=-ok_then (find_origin store p.hash) _ λ (entry, origin) found.
        let (at, has_tx) = find_origin-lookup store p.hash entry origin found in
        >>=-ok_then (check_maturity packages coinbase_maturity coin_age height entry origin) _
          λ _ _.
            >>=-ok_then (reject_if (leb (length entry.spent % 2 ^ 32) p.index) bad_tx_input) _
              λ _ _. >>=-ok_then (or_panic (get_elem? entry.spent p.index)) _ λ spent is_at.
                >>=-ok_then (reject_if spent double_spend) _ λ _ unspent.
                  let fresh = (reject_if_iff spent double_spend).0 unspent in
                  >>=-ok_then (or_panic (get_elem? origin.tx_out p.index)) _ λ out out_at.
                    >>=-ok_then (add_input packages coinbase_maturity coin_age total out.value) _
                      λ new added. >>=-ok_then (ppc_check_transaction_input tx origin) _ λ _ _ last.
                        let pair = ok_inj last in
                        record {
                          entry = entry;
                          origin = origin;
                          out = out;
                          found = at;
                          has_tx = has_tx;
                          unspent = or_panic-eq _ spent is_at ∙ ap some fresh;
                          has_out = or_panic-eq _ out out_at;
                          added = added ∙ ap (λ x. ok x.0) pair;
                          marked = sym (ap (λ x. x.1) pair);
                        }

  pub check_input-IsSpent :
      (tx : Tx) (height : ℤ) (i : TxIn) (total : ℤ) (store : TxStore) (sum : ℤ) (next : TxStore)
      → check_input packages coinbase_maturity coin_age tx height i total store ≡ ok (sum, next)
      → IsSpent i.previous_out_point next
  check_input-IsSpent tx height i total store sum next h =
      let round = check_input-Round tx height i total store sum next h in
      subst (IsSpent i.previous_out_point) (sym round.marked)
        (spend_in-IsSpent i.previous_out_point round.entry false store round.unspent)

  -- The loop leaves a marked output marked.
  pub check_inputs-keeps :
      (tx : Tx) (height : ℤ) (ins : List TxIn) (total : ℤ) (store : TxStore) (sum : ℤ)
      (next : TxStore) (p : OutPoint)
      → check_inputs packages coinbase_maturity coin_age tx height ins total store ≡ ok (sum, next)
      → IsSpent p store
      → IsSpent p next
  unfolding check_inputs
  check_inputs-keeps tx height [] total store sum next p h spent =
      subst (IsSpent p) (ap (λ x. x.1) (ok_inj h)) spent
  check_inputs-keeps tx height (i ∷ ins) total store sum next p h spent =
      >>=-ok_then (check_input packages coinbase_maturity coin_age tx height i total store) _
        (λ (mid, after) one rest.
          let round = check_input-Round tx height i total store mid after one in
          let kept = spend_in-keeps p i.previous_out_point round.entry store round.found spent in
          check_inputs-keeps tx height ins mid after sum next p rest
            (subst (IsSpent p) (sym round.marked) kept))
        h

  -- It marks each input's output ...
  pub check_inputs-IsSpent :
      (tx : Tx) (height : ℤ) (ins : List TxIn) (total : ℤ) (store : TxStore) (sum : ℤ)
      (next : TxStore)
      → check_inputs packages coinbase_maturity coin_age tx height ins total store ≡ ok (sum, next)
      → All (λ i. IsSpent i.previous_out_point next) ins
  unfolding check_inputs
  check_inputs-IsSpent tx height [] total store sum next = λ _. tt
  check_inputs-IsSpent tx height (i ∷ ins) total store sum next =
      >>=-ok_then (check_input packages coinbase_maturity coin_age tx height i total store) _
        λ (mid, after) one rest.
          let p = i.previous_out_point in
          let round = check_input-Round tx height i total store mid after one in
          let spent = spend_in-IsSpent p round.entry false store round.unspent in
          (
            check_inputs-keeps tx height ins mid after sum next p rest
                (subst (IsSpent p) (sym round.marked) spent),
            check_inputs-IsSpent tx height ins mid after sum next rest,
          )

  -- ... none of which was marked before.
  pub check_inputs-fresh :
      (tx : Tx) (height : ℤ) (ins : List TxIn) (total : ℤ) (store : TxStore) (sum : ℤ)
      (next : TxStore)
      → check_inputs packages coinbase_maturity coin_age tx height ins total store ≡ ok (sum, next)
      → All (λ i. ¬ IsSpent i.previous_out_point store) ins
  unfolding check_inputs
  check_inputs-fresh tx height [] total store sum next = λ _. tt
  check_inputs-fresh tx height (i ∷ ins) total store sum next =
      >>=-ok_then (check_input packages coinbase_maturity coin_age tx height i total store) _
        λ (mid, after) one rest.
          let p = i.previous_out_point in
          let round = check_input-Round tx height i total store mid after one in
          (
            unspent_apart p store round.entry round.found round.unspent,
            All-imp
                (λ j fresh spent.
                  let kept =
                    spend_in-keeps j.previous_out_point p round.entry store round.found spent in
                  fresh (subst (IsSpent j.previous_out_point) (sym round.marked) kept))
                ins (check_inputs-fresh tx height ins mid after sum next rest),
          )

  settle-store :
      (tx : Tx) (total : ℤ) (store : TxStore) (fee : ℤ) (next : TxStore)
      → settle packages coinbase_maturity coin_age tx total store ≡ ok (fee, next)
      → store ≡ next
  unfolding settle
  settle-store tx total store fee next =
      >>=-ok_then
        (reject_if (not (is_coin_stake tx) && ltb_ℤ total (sum_out (pos 0) tx.tx_out))
          spend_too_high)
        _
        λ _ _.
          >>=-ok_then
            (ppc_check_transaction_inputs packages coinbase_maturity coin_age tx store total
              (sum_out (pos 0) tx.tx_out))
            _ λ _ _ last. ap (λ x. x.1) (ok_inj last)

  -- The two parts of a run for a transaction that is no coinbase.
  pub check_transaction_inputs-parts :
      (tx : Tx) (height : ℤ) (store : TxStore) (fee : ℤ) (next : TxStore)
      → is_coin_base tx ≡ false
      → check_transaction_inputs packages coinbase_maturity coin_age tx height store
        ≡ ok (fee, next)
      → (total : ℤ) × (check_inputs packages coinbase_maturity coin_age tx height tx.tx_in
            (pos 0)
            store
          ≡ ok (total, next))
        × (settle packages coinbase_maturity coin_age tx total next ≡ ok (fee, next))
  unfolding check_transaction_inputs
  check_transaction_inputs-parts tx height store fee next plain h =
      let run = rw (plain, check_transaction_inputs) at h in
      >>=-ok_then
        (check_inputs packages coinbase_maturity coin_age tx height tx.tx_in (pos 0) store) _
        (λ (total, mid) loop settled.
          let same = settle-store tx total mid fee next settled in
          (
            total,
            loop ∙ ap (λ x. ok (total, x)) same,
            subst (λ x. settle packages coinbase_maturity coin_age tx total x ≡ ok (fee, next)) same
                settled,
          ))
        run

  -- A transaction that passes CheckTransactionInputs and is no coinbase spends outputs that were
  -- not spent before, and leaves them spent.
  pub check_transaction_inputs-marks :
      (tx : Tx) (height : ℤ) (store : TxStore) (fee : ℤ) (next : TxStore)
      → is_coin_base tx ≡ false
      → check_transaction_inputs packages coinbase_maturity coin_age tx height store
        ≡ ok (fee, next)
      → All
          (λ i. (¬ IsSpent i.previous_out_point store) × IsSpent i.previous_out_point next)
          tx.tx_in
  check_transaction_inputs-marks tx height store fee next plain h =
      let (total, loop, _) = check_transaction_inputs-parts tx height store fee next plain h in
      (All-pair (λ i. ¬ IsSpent i.previous_out_point store) (λ i. IsSpent i.previous_out_point next)
          tx.tx_in).1
        (
          check_inputs-fresh tx height tx.tx_in (pos 0) store total next loop,
          check_inputs-IsSpent tx height tx.tx_in (pos 0) store total next loop,
        )

  -- After one transaction has passed, no other one that passes spends an output that the first one
  -- has spent: a double spend is refused. (Neither is a coinbase.)
  pub check_transaction_inputs-apart :
      (tx later : Tx) (height height' : ℤ) (store mid next : TxStore) (fee fee' : ℤ)
      → is_coin_base tx ≡ false
      → is_coin_base later ≡ false
      → check_transaction_inputs packages coinbase_maturity coin_age tx height store ≡ ok (fee, mid)
      → check_transaction_inputs packages coinbase_maturity coin_age later height' mid
        ≡ ok (fee', next)
      → All (λ i. All (λ j. i.previous_out_point ≢ j.previous_out_point) later.tx_in) tx.tx_in
  check_transaction_inputs-apart tx later height height' store mid next fee fee' plain plain' h h' =
      let fresh = check_transaction_inputs-marks later height' mid fee' next plain' h' in
      All-imp
        (λ i (_, spent).
          All-imp (λ j (unspent, _) e. unspent (subst (λ p. IsSpent p mid) e spent)) later.tx_in
            fresh)
        tx.tx_in (check_transaction_inputs-marks tx height store fee mid plain h)
