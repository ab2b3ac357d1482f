-- ===== src/Wire.antt =====
-- The data that the btcwire and btcutil packages hand to this one: the fields that it reads.
-- A hash is the number that its 32 bytes stand for (Difficulty/Compact.antt), a time.Time the
-- nanoseconds since the Unix epoch, an amount an int64, a script the list of its bytes.
use btcchain.Common.{ℕ, ◌-◌, ◌/◌, ◌^◌, List, Bool, ◌==◌, ◌&&◌}
use btcchain.Common.Int.{ℤ}

abbrev pub nano : ℕ
nano = 1_000_000_000

-- time.Time.Unix
abbrev pub unix : ℕ → ℕ
unix t = t / nano

abbrev pub max_uint32 : ℕ
max_uint32 = 2 ^ 32 - 1

pub record OutPoint : Type 0 where
  pub hash : ℕ
  pub index : ℕ

abbrev pub out_point_eq : OutPoint → OutPoint → Bool
out_point_eq p q = (p.hash == q.hash) && (p.index == q.index)

pub record TxIn : Type 0 where
  pub previous_out_point : OutPoint
  pub signature_script : List ℕ
  pub sequence : ℕ

pub record TxOut : Type 0 where
  pub value : ℤ
  pub pk_script : List ℕ

-- A btcutil.Tx with its cached hash; `time` is the Peercoin timestamp, `size` its serialized size.
pub record Tx : Type 0 where
  pub sha : ℕ
  pub time : ℕ
  pub tx_in : List TxIn
  pub tx_out : List TxOut
  pub lock_time : ℕ
  pub size : ℕ

pub record Header : Type 0 where
  pub version : ℤ
  pub prev_block : ℕ
  pub merkle_root : ℕ
  pub timestamp : ℕ
  pub bits : ℕ

-- The Peercoin data kept beside a block.
pub record Meta : Type 0 where
  pub flags : ℕ
  pub chain_trust : ℕ
  pub mint : ℤ
  pub money_supply : ℤ
  pub stake_modifier : ℕ
  pub hash_proof_of_stake : ℕ
  pub stake_modifier_checksum : ℕ

pub record Block : Type 0 where
  pub sha : ℕ
  pub header : Header
  pub transactions : List Tx
  pub signature : List ℕ
  pub size : ℕ
  pub height : ℕ
  pub meta : Meta
