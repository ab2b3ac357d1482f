-- ===== src/StakeModifier/Later.antt =====
-- getKernelStakeModifier of kernel.go: from a block of the main chain on, the modifier about a
-- selection interval later.
pub mod Found
use btcchain.Common.{
  ℕ, zero, suc, ◌+◌, ◌-◌, ◌%◌, ◌^◌, ◌<◌, ◌≡◌, ◌≢◌, ◌⊎◌, refl, arith, Option, none, some, Bool, true,
  false, ◌||◌, ltb, leb, if◌then◌else◌, Result, ok, err, failure, panic, divergence, inl, inr,
  Bool-cases, Result-cases, ok_inj, ◌∙◌, sym, ap, subst,
}
use btcchain.Common.Int.{ℤ, pos, int64, ◌+ℤ◌, ◌-ℤ◌, ltb_ℤ}
use btcchain.Wire.{Header, Meta, unix}
use btcchain.Chain.State.{BlockChain, Env}
use btcchain.StakeModifier.{StakeParams, is_generated_stake_modifier, selection_interval}

-- int32(v) of a number that is not negative.
abbrev pub int32 : ℕ → ℤ
int32 v = let w = v % 2 ^ 32 in if ltb w (2 ^ 31) then pos w else pos w -ℤ pos (2 ^ 32)

-- The modifier, with the height and the time of the block that it was generated at.
pub record KernelModifier : Type 0 where
  pub modifier : ℕ
  pub height : ℤ
  pub time : ℕ

-- The block that the loop is at, with the height and time of the last modifier.
pub record Position : Type 0 where
  pub block_height : ℕ
  pub block_time : ℕ
  pub meta : Meta
  pub modifier_height : ℤ
  pub modifier_time : ℕ

abbrev pub move_to : Position → Header × Meta → Position
move_to at (header, meta) = record {
  block_height = at.block_height + 1;
  block_time = unix header.timestamp;
  meta = meta;
  modifier_height =
      if is_generated_stake_modifier meta then int32 (at.block_height + 1) else at.modifier_height;
  modifier_time =
      if is_generated_stake_modifier meta then unix header.timestamp else at.modifier_time;
}

module _ {S : Type 0} (env : Env S) (params : StakeParams) (s : BlockChain S) where
  open env use {fetch_block_header_by_sha, fetch_block_height_by_sha, fetch_block_sha_by_height}

  -- The header and meta data of the block at a height of the main chain.
  abbrev pub block_at : ℕ → Result (Header × Meta)
  block_at height = elim (fetch_block_sha_by_height s.db height) [
    | err e ↦ err e
    | ok sha ↦ fetch_block_header_by_sha s.db sha
  ]

  -- At the best block: an error for one who prints, or where the block is old enough to stake.
  abbrev pub at_best : Bool → ℕ → Position → Result KernelModifier
  at_best print adjusted at =
      if print
        || ltb_ℤ (pos adjusted)
            (int64 ((pos at.block_time +ℤ pos params.stake_min_age) -ℤ selection_interval params))
      then err failure
      else ok (record { modifier = 0; height = at.modifier_height; time = at.modifier_time })

  -- The loop, on fuel, until a modifier at `target` or later.
  unfoldable pub seek : ℕ → Bool → ℕ → ℤ → ℕ → Position → Result KernelModifier
  seek zero print adjusted target best at = err divergence
  seek (suc fuel) print adjusted target best at = elim (ltb_ℤ (pos at.modifier_time) target) [
    | false ↦ ok (record {
      modifier = at.meta.stake_modifier;
      height = at.modifier_height;
      time = at.modifier_time;
    })
    | true ↦ elim (leb best at.block_height) [
      | true ↦ at_best print adjusted at
      | false ↦ elim (block_at (at.block_height + 1)) [
        | err e ↦ err e
        | ok found ↦ seek fuel print adjusted target best (move_to at found)
      ]
    ]
  ]

  -- The first loop test that fails needs no best block; the others dereference it.
  unfoldable pub seek_from : Bool → ℕ → ℤ → Option ℕ → Position → Result KernelModifier
  seek_from print adjusted target (some b) at =
      let best = (s.heap b).height in
      seek (best - at.block_height + 1) print adjusted target best at
  seek_from print adjusted target none at = elim (ltb_ℤ (pos at.modifier_time) target) [
    | true ↦ err panic
    | false ↦ seek 1 print adjusted target 0 at
  ]

  unfoldable pub get_kernel_stake_modifier : ℕ → ℕ → Bool → Result KernelModifier
  get_kernel_stake_modifier hash adjusted print = elim (fetch_block_header_by_sha s.db hash) [
    | err e ↦ err failure
    | ok (header, meta) ↦ elim (fetch_block_height_by_sha s.db hash) [
      | err e ↦ err failure
      | ok height ↦
          let time = unix header.timestamp in
          seek_from print adjusted (int64 (pos time +ℤ selection_interval params)) s.best_chain
            (record {
              block_height = height;
              block_time = time;
              meta = meta;
              modifier_height = int32 height;
              modifier_time = time;
            })
    ]
  ]

  at_best-ends :
      (print : Bool) (adjusted : ℕ) (at : Position) → at_best print adjusted at ≢ err divergence
  at_best-ends print adjusted at =
      elim (Bool-cases (
        print
        || ltb_ℤ (pos adjusted) (
            int64
              ((pos at.block_time +ℤ pos params.stake_min_age) -ℤ selection_interval params)))) [
                | inl y ↦ rw y (λ e. cc)
                | inr y ↦ rw y (λ e. cc)
              ]

  -- The fuel is enough: the height falls short of the best block's by less in each step.
  seek_ends :
      (fuel : ℕ) (print : Bool) (adjusted : ℕ) (target : ℤ) (best : ℕ) (at : Position)
      → best - at.block_height < fuel
      → ((h : ℕ) → block_at h ≢ err divergence)
      → seek fuel print adjusted target best at ≢ err divergence
  unfolding seek
  seek_ends zero print adjusted target best at h db = absurd (omega arith)
  seek_ends (suc fuel) print adjusted target best at h db =
      elim (Bool-cases (ltb_ℤ (pos at.modifier_time) target)) [
        | inr late ↦ rw (late, seek) (λ e. cc)
        | inl early ↦ elim (Bool-cases (leb best at.block_height)) [
          | inl top ↦ rw (early, top, seek) (at_best-ends print adjusted at)
          | inr below ↦ elim (Result-cases (block_at (at.block_height + 1))) [
            | inl (found, f) ↦
                rw (early, below, f, seek)
                  (seek_ends fuel print adjusted target best (move_to at found) (ground arith) db)
            | inr (stop, f) ↦
                rw (early, below, f, seek) (λ e. db (at.block_height + 1) (f ∙ ap err (cc)))
          ]
        ]
      ]

  seek_from_ends :
      (print : Bool) (adjusted : ℕ) (target : ℤ) (best : Option ℕ) (at : Position)
      → ((h : ℕ) → block_at h ≢ err divergence)
      → seek_from print adjusted target best at ≢ err divergence
  unfolding seek_from
  seek_from_ends print adjusted target (some b) at db =
      seek_ends ((s.heap b).height - at.block_height + 1) print adjusted target (s.heap b).height at
        (omega arith) db
  seek_from_ends print adjusted target none at db =
      elim (Bool-cases (ltb_ℤ (pos at.modifier_time) target)) [
        | inl early ↦ rw (early, seek_from) (λ e. cc)
        | inr late ↦ rw (late, seek_from) (seek_ends 1 print adjusted target 0 at (omega arith) db)
      ]

  pub kernel_modifier_ends :
      (hash adjusted : ℕ) (print : Bool)
      → ((h : ℕ) → block_at h ≢ err divergence)
      → get_kernel_stake_modifier hash adjusted print ≢ err divergence
  unfolding get_kernel_stake_modifier
  kernel_modifier_ends hash adjusted print db =
      elim (Result-cases (fetch_block_header_by_sha s.db hash)) [
        | inr (stop, f) ↦ rw (f, get_kernel_stake_modifier) (λ e. cc)
        | inl (found, f) ↦ elim (Result-cases (fetch_block_height_by_sha s.db hash)) [
          | inr (stop, g) ↦ rw (f, g, get_kernel_stake_modifier) (λ e. cc)
          | inl (height, g) ↦
              rw (f, g, get_kernel_stake_modifier)
                (seek_from_ends print adjusted _ s.best_chain _ db)
        ]
      ]
