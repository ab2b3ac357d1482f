-- ===== src/Validate/Amounts.antt =====
-- The amounts of a transaction's outputs (CheckTransactionSanity in validate.go).
use btcchain.Common.{
  ℕ, ◌+◌, ◌^◌, ◌≤◌, ◌<◌, ◌≡◌, ◌↔◌, refl, sym, ◌∙◌, arith, ltb, leb, leb→le, Bool-cases, List, [],
  ◌∷◌, All, ok, err, ap, rule, bad_tx_out_value, inl, inr,
}
use btcchain.Common.Int.{ℤ, pos, negsuc, ◌+ℤ◌, ◌≤ℤ◌, int64, pos_part, neg_part, ℤ-cases, int64-eq}
use btcchain.Wire.{TxOut}
use btcchain.Validate.{check_out_values}

abbrev pub InRange : ℕ → ℤ → Type 0
InRange max v = (pos 0 ≤ℤ v) × (v ≤ℤ pos max)

-- The sum of the amounts, without wrap-around.
abbrev pub sum_values : List TxOut → ℕ
sum_values [] = 0
sum_values (o ∷ outs) = pos_part o.value + sum_values outs

+ℤ-pos : (a b : ℕ) → pos a +ℤ pos b ≡ pos (a + b)
unfolding ◌+ℤ◌
+ℤ-pos a b = ground arith

pub int64_add : (a b : ℕ) → a + b < 2 ^ 63 → int64 (pos a +ℤ pos b) ≡ pos (a + b)
int64_add a b h = rw (+ℤ-pos a b) (int64-eq (pos (a + b)) (h, omega arith))

module _ (max : ℕ) (small : max < 2 ^ 62) where
  value_step :
      (t n : ℕ) (o : TxOut) (outs : List TxOut)
      → o.value ≡ pos n
      → t + n ≤ max
      → check_out_values max (pos t) (o ∷ outs) ≡ check_out_values max (pos (t + n)) outs
  unfolding check_out_values
  value_step t n o outs v h = rw (v, int64_add t n (omega arith)) ground arith

  value_stop :
      (t n : ℕ) (o : TxOut) (outs : List TxOut)
      → o.value ≡ pos n
      → t ≤ max
      → max < t + n
      → check_out_values max (pos t) (o ∷ outs) ≡ err (rule bad_tx_out_value)
  unfolding check_out_values
  value_stop t n o outs v h more = elim (Bool-cases (ltb max n)) [
    | inl e ↦ rw (v) ground arith
    | inr e ↦ rw (v, int64_add t n (ground arith)) ground arith
  ]

  value_negative :
      (t n : ℕ) (o : TxOut) (outs : List TxOut)
      → o.value ≡ negsuc n
      → check_out_values max (pos t) (o ∷ outs) ≡ err (rule bad_tx_out_value)
  unfolding check_out_values
  value_negative t n o outs v = rw (v) ground arith

  -- From a total of at most max, which is below 2 ^ 62, the loop accepts exactly the outputs of
  -- which each amount is between 0 and max and the sum with the total, without wrap-around, is at
  -- most max: no overflow gets past the check.
  pub check_out_values_iff :
      (t : ℕ) (outs : List TxOut)
      → t ≤ max
      → (check_out_values max (pos t) outs ≡ ok tt)
        ↔ (All (λ o. InRange max o.value) outs × (t + sum_values outs ≤ max))
  unfolding check_out_values
  check_out_values_iff t [] h = (λ _. (tt, omega arith), λ _. refl)
  check_out_values_iff t (o ∷ outs) h = elim (ℤ-cases o.value) [
    | inr (n, v) ↦
        let stop = value_negative t n o outs v in
        (λ e. absurd (cc), λ ((low, _), _). absurd (omega (arith, ap pos_part v, ap neg_part v)))
    | inl (n, v) ↦
        let size = ap pos_part v in
        let sign = ap neg_part v in
        elim (Bool-cases (leb (t + n) max)) [
          | inl fits ↦
              let le = leb→le (t + n) max fits in
              let (to, from) = check_out_values_iff (t + n) outs le in
              let step = value_step t n o outs v le in
              (
                λ e.
                    let (rest, sum) = to (sym step ∙ e) in
                    (((omega arith, omega arith), rest), omega arith),
                λ ((inside, rest), sum). step ∙ from (rest, omega arith),
              )
          | inr over ↦
              let more : max < t + n = ground arith in
              let stop = value_stop t n o outs v h more in
              (λ e. absurd (cc), λ (inside, sum). absurd (omega arith))
        ]
  ]
