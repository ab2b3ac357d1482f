-- ===== src/Chain/State.antt =====
-- The state of a BlockChain (chain.go). Nodes live in a heap and point to one another, as in the
-- source; `heap` gives the node at each pointer below `next`. Maps are association lists.
use btcchain.Common.{
  ℕ, ◌≡◌, refl, ap, ◌∙◌, Option, none, some, List, [], ◌∷◌, ◌++◌, Bool, true, false, ◌==◌,
  if◌then◌else◌, lookup, Result, ok, err, Error,
}
use btcchain.Common.Int.{ℤ}
use btcchain.Wire.{Block, Header, Meta, OutPoint}
use btcchain.Orphans.{OrphanPool}

pub record BlockNode : Type 0 where
  pub parent : Option ℕ
  pub children : List ℕ
  pub hash : ℕ
  pub parent_hash : ℕ
  pub height : ℕ
  pub work_sum : ℕ
  pub in_main_chain : Bool
  pub version : ℤ
  pub bits : ℕ
  pub timestamp : ℕ
  pub meta : Meta

-- notifications.go
pub data Notification : Type 0 where
  block_accepted block_connected block_disconnected : Block → Notification

-- btcnet.Checkpoint
pub record Checkpoint : Type 0 where
  pub height : ℕ
  pub hash : ℕ

-- ppc.go: a staked output with the time of its coinstake.
pub record Stake : Type 0 where
  pub out_point : OutPoint
  pub time : ℕ

-- S is the state of the block database. The two lists of stakes are package variables.
pub record BlockChain (S : Type 0) : Type 0 where
  pub db : S
  pub heap : ℕ → BlockNode
  pub next : ℕ
  pub root : Option ℕ
  pub best_chain : Option ℕ
  pub index : List (ℕ × ℕ)
  pub dep_nodes : List (ℕ × List ℕ)
  pub block_cache : List (ℕ × Block)
  pub pool : OrphanPool
  pub no_checkpoints : Bool
  pub no_verify : Bool
  pub checkpoint_block : Option Block
  pub next_checkpoint : Option Checkpoint
  pub stake_seen : List Stake
  pub stake_seen_orphan : List Stake
  pub wants_notifications : Bool
  pub notifications : List Notification

-- The block database (package btcdb), and the two operations of other files that chain.go calls.
pub record Env (S : Type 0) : Type 0 where
  pub fetch_block_header_by_sha : S → ℕ → Result (Header × Meta)
  pub fetch_block_height_by_sha : S → ℕ → Result ℕ
  pub fetch_block_by_sha : S → ℕ → Result Block
  pub insert_block : S → Block → Result S
  pub drop_after_block_by_sha : S → ℕ → Result S
  pub exists_sha : S → ℕ → Result Bool
  -- the height is -1 for an empty database
  pub newest_sha : S → Result (ℕ × ℤ)
  pub fetch_block_sha_by_height : S → ℕ → Result ℕ
  pub fetch_height_range : S → ℕ → ℕ → Result (List ℕ)
  pub genesis_hash : ℕ
  -- validate.go: may the block be connected in the place of this node?
  pub check_connect_block : BlockChain S → ℕ → Block → Result (Unit {0})
  -- ppc.go: the block with its mint and money supply filled in
  pub calc_mint_and_money_supply : BlockChain S → ℕ → Block → Result Block

-- A method: its result, and the state that it leaves behind also when it fails.
abbrev pub M : Type 0 → Type 0 → Type 0
M S A = BlockChain S → Result A × BlockChain S

-- Shut, so that proofs go step by step with the rules below.
unfoldable pub bind {ℓ} :
    {S : Type 0} {A : Type 0} {B : Type ℓ}
    → Result A × BlockChain S
    → (A → BlockChain S → Result B × BlockChain S)
    → Result B × BlockChain S
bind (r, s) f = elim r [ ok a ↦ f a s | err e ↦ (err e, s) ]

infixl 5 ◌>>=◌ ◌>>◌
abbrev pub ◌>>=◌ : {S A B : Type 0} → M S A → (A → M S B) → M S B
◌>>=◌ m f s = bind (m s) f

abbrev pub ◌>>◌ : {S B : Type 0} → M S (Unit {0}) → M S B → M S B
m >> k = m >>= λ _. k

abbrev pub pure : {S A : Type 0} → A → M S A
pure a s = (ok a, s)

abbrev pub fail : {S A : Type 0} → Error → M S A
fail e s = (err e, s)

abbrev pub require : {S : Type 0} → Bool → Error → M S (Unit {0})
require b e s = (elim b [ true ↦ ok tt | false ↦ err e ], s)

abbrev pub or_fail : {S A : Type 0} → Option A → Error → M S A
or_fail o e s = (elim o [ some a ↦ ok a | none ↦ err e ], s)

abbrev pub unless : {S : Type 0} → Bool → M S (Unit {0}) → M S (Unit {0})
unless b m s = elim b [ true ↦ (ok tt, s) | false ↦ m s ]

-- A read-only step.
abbrev pub ask : {S A : Type 0} → (BlockChain S → Result A) → M S A
ask f s = (f s, s)

abbrev pub modify : {S : Type 0} → (BlockChain S → BlockChain S) → M S (Unit {0})
modify f s = (ok tt, f s)

abbrev pub update : (ℕ → BlockNode) → ℕ → (BlockNode → BlockNode) → ℕ → BlockNode
update heap r f q = if q == r then f (heap q) else heap q

abbrev pub set_node : {S : Type 0} → ℕ → (BlockNode → BlockNode) → M S (Unit {0})
set_node r f = modify (λ s. record s { heap = update s.heap r f })

abbrev pub lookup_or_nil : ℕ → List (ℕ × List ℕ) → List ℕ
lookup_or_nil k m = elim (lookup k m) [ none ↦ [] | some l ↦ l ]

-- sendNotification does nothing when New was given no callback.
unfoldable pub send_notification : {S : Type 0} → Notification → M S (Unit {0})
send_notification n = modify (λ s. record s {
  notifications = if s.wants_notifications then s.notifications ++ (n ∷ []) else s.notifications;
})

-- What holds after a step holds after the whole, if each later part keeps it.
pub bind_all {ℓ κ} :
    {S A : Type 0} {B : Type ℓ} (Q : BlockChain S → Type κ) (p : Result A × BlockChain S)
    (f : A → BlockChain S → Result B × BlockChain S)
    → Q p.1
    → ((a : A) → Q p.1 → Q (f a p.1).1)
    → Q (bind p f).1
unfolding bind
bind_all Q (ok a, s) f q k = k a q
bind_all Q (err e, s) f q k = q

-- A whole that succeeds has a first step that succeeds.
pub bind_ok {ℓ κ} :
    {S A : Type 0} {B : Type ℓ} (Q : BlockChain S → Type κ) (b : B) (p : Result A × BlockChain S)
    (f : A → BlockChain S → Result B × BlockChain S)
    → ((a : A) → p.0 ≡ ok a → (f a p.1).0 ≡ ok b → Q (f a p.1).1)
    → (bind p f).0 ≡ ok b
    → Q (bind p f).1
unfolding bind
bind_ok Q b (ok a, s) f k h = k a refl h
bind_ok Q b (err e, s) f k h = absurd (cc)

-- A step whose outcome is known goes on with it.
pub bind_step {ℓ} :
    {S A : Type 0} {B : Type ℓ} {p : Result A × BlockChain S} {a : A} {s : BlockChain S}
    (f : A → BlockChain S → Result B × BlockChain S) {q : Result B × BlockChain S}
    → p ≡ (ok a, s)
    → f a s ≡ q
    → bind p f ≡ q
unfolding bind
bind_step f e k = ap (λ x. bind x f) e ∙ k

-- To go on from a whole that succeeds, with the value and the state of its first step as variables.
pub bind_then {ℓ κ} :
    {S A : Type 0} {B : Type ℓ} {P : Type κ} (p : Result A × BlockChain S)
    (f : A → BlockChain S → Result B × BlockChain S) {b : B}
    → ((a : A) (s : BlockChain S) → p ≡ (ok a, s) → (f a s).0 ≡ ok b → P)
    → (bind p f).0 ≡ ok b
    → P
unfolding bind
bind_then (ok a, s) f k h = k a s refl h
bind_then (err e, s) f k h = absurd (cc)
