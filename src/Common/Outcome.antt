-- ===== src/Common/Outcome.antt =====
-- Results of fallible Go functions: a value, a rule violation with its code (error.go), any other
-- error, or a run-time panic.
use mathlib.Core.Path.{◌≡◌, refl, ap}
use mathlib.Core.Bool.{Bool, true, false}
use mathlib.Core.Option.{Option, none, some}
use mathlib.Core.Logic.{◌↔◌, ◌⊎◌, inl, inr}

-- error.go. `ErrDuplicateBlock` is `duplicate_block`, and so on, in the order of the source.
pub data ErrorCode : Type 0 where
  duplicate_block block_too_big block_version_too_old invalid_time time_too_old : ErrorCode
  time_too_new difficulty_too_low unexpected_difficulty high_hash bad_merkle_root : ErrorCode
  bad_checkpoint fork_too_old checkpoint_time_too_old no_transactions : ErrorCode
  too_many_transactions no_tx_inputs no_tx_outputs tx_too_big bad_tx_out_value : ErrorCode
  duplicate_tx_inputs bad_tx_input missing_tx unfinalized_tx duplicate_tx overwrite_tx : ErrorCode
  immature_spend double_spend spend_too_high bad_fees too_many_sig_ops : ErrorCode
  first_tx_not_coinbase multiple_coinbases bad_coinbase_script_len bad_coinbase_value : ErrorCode
  missing_coinbase_height bad_coinbase_height script_malformed script_validation : ErrorCode
  proof_of_stake_check empty_tx_out earlier_timestamp bad_coinstake_value : ErrorCode
  insufficient_fee wrong_coinstake_position coinbase_not_empty : ErrorCode
  coinstake_time_violation block_before_tx bad_block_signature duplicate_stake : ErrorCode

-- `rule c` is a RuleError, `failure` any other error, `panic` a Go run-time panic;
-- `divergence` stands for a loop that does not end.
pub data Error : Type 0 where
  rule : ErrorCode → Error
  failure panic divergence : Error

pub data Result {ℓ} (V : Type ℓ) : Type ℓ where
  ok : V → Result V
  err : Error → Result V

-- The rest of a function after a call: it runs only if the call gave no error.
infixl 5 ◌>>=◌ ◌>>◌
abbrev pub ◌>>=◌ {ι κ} : {V : Type ι} {W : Type κ} → Result V → (V → Result W) → Result W
err stop >>= rest = err stop
ok v >>= rest = rest v

-- `if bad { return ruleError(c, ...) }`
abbrev pub reject_if : Bool → ErrorCode → Result (Unit {0})
reject_if true c = err (rule c)
reject_if false c = ok tt

-- A nil dereference or an index out of range.
abbrev pub or_panic {ℓ} : {A : Type ℓ} → Option A → Result A
or_panic none = err panic
or_panic (some a) = ok a

abbrev pub ◌>>◌ {κ} : {W : Type κ} → Result (Unit {0}) → Result W → Result W
check >> rest = check >>= λ done. rest

-- To split on a computed result and keep the equation.
pub Result-cases {ℓ} :
    {A : Type ℓ} (r : Result A) → ((a : A) × (r ≡ ok a)) ⊎ ((e : Error) × (r ≡ err e))
Result-cases (ok a) = inl (a, refl)
Result-cases (err e) = inr (e, refl)

-- What a chain of checks accepts is what each of them accepts.
pub >>_iff {ℓ κ} :
    {P : Type ℓ} {Q : Type κ} (m k : Result (Unit {0}))
    → (m ≡ ok tt) ↔ P
    → (k ≡ ok tt) ↔ Q
    → ((m >> k) ≡ ok tt) ↔ (P × Q)
>>_iff (ok tt) k (to, from) (to', from') = (λ h. (to refl, to' h), λ (p, q). from' q)
>>_iff (err e) k (to, from) _ = (λ h. absurd (cc), λ (p, q). absurd (cc (from p)))

-- The later check may use what the first one has found.
pub >>_iff_after {ℓ κ} :
    {P : Type ℓ} {Q : Type κ} (m k : Result (Unit {0}))
    → (m ≡ ok tt) ↔ P
    → (P → (k ≡ ok tt) ↔ Q)
    → ((m >> k) ≡ ok tt) ↔ (P × Q)
>>_iff_after (ok tt) k (to, from) next =
    (λ h. (to refl, (next (to refl)).0 h), λ (p, q). (next p).1 q)
>>_iff_after (err e) k (to, from) _ = (λ h. absurd (cc), λ (p, q). absurd (cc (from p)))

pub reject_if_iff : (b : Bool) (c : ErrorCode) → (reject_if b c ≡ ok tt) ↔ (b ≡ false)
reject_if_iff true c = (λ h. absurd (cc), λ h. absurd (cc))
reject_if_iff false c = (λ h. refl, λ h. refl)

pub reject_iff {ℓ} :
    {P : Type ℓ} (b : Bool) (c : ErrorCode) → (b ≡ false) ↔ P → (reject_if b c ≡ ok tt) ↔ P
reject_iff true c (to, from) = (λ h. absurd (cc), λ p. absurd (cc (from p)))
reject_iff false c (to, from) = (λ _. to refl, λ _. refl)

pub ok_inj {ℓ} : {A : Type ℓ} {a b : A} → Path (Result A) (ok a) (ok b) → a ≡ b
ok_inj {a} h = ap (λ r. elim r [ ok x ↦ x | err _ ↦ a ]) h

-- To go on from a chain that succeeds, with its first value as a variable.
pub >>=-ok_then {ℓ κ ι} :
    {A : Type ℓ} {B : Type κ} {P : Type ι} (m : Result A) (f : A → Result B) {b : B}
    → ((a : A) → m ≡ ok a → f a ≡ ok b → P)
    → (m >>= f) ≡ ok b
    → P
>>=-ok_then (ok a) f k h = k a refl h
>>=-ok_then (err e) f k h = absurd (cc)

pub or_panic-eq : {A : Type 0} (o : Option A) (a : A) → or_panic o ≡ ok a → o ≡ some a
or_panic-eq none a h = absurd (cc)
or_panic-eq (some b) a h = cc
