-- ===== src/StakeModifier/Later/Found.antt =====
-- Which modifier getKernelStakeModifier finds (kernel.go).
use btcchain.Common.{
  ℕ, zero, suc, ◌+◌, ◌/◌, ◌%◌, ◌≤◌, ◌<◌, ◌≡◌, ◌≢◌, ◌⊎◌, refl, arith, Option, none, some, Bool, true,
  false, ◌==◌, leb, if◌then◌else◌, Result, ok, err, divergence, inl, inr, Bool-cases, Result-cases,
  ok_inj, ◌∙◌, sym, ap, subst,
}
use btcchain.Common.Int.{ℤ, pos, int64, ◌+ℤ◌, ◌-ℤ◌, ltb_ℤ}
use btcchain.Wire.{Header, Meta, unix}
use btcchain.Chain.State.{BlockChain, Env}
use btcchain.StakeModifier.{StakeParams, is_generated_stake_modifier, selection_interval}
use btcchain.StakeModifier.Later.{
  int32, KernelModifier, Position, move_to, block_at, at_best, seek, seek_from,
  get_kernel_stake_modifier, kernel_modifier_ends,
}

-- A block with a modifier of its own: bit 2 of the flags.
abbrev pub HasModifier : Meta → Type 0
HasModifier meta = (meta.flags / 4) % 2 ≡ 1

generated_iff :
    (meta : Meta)
    → ((is_generated_stake_modifier meta ≡ true) × HasModifier meta)
      ⊎ ((is_generated_stake_modifier meta ≡ false) × (¬ HasModifier meta))
generated_iff meta = elim (Bool-cases (is_generated_stake_modifier meta)) [
  | inl e ↦ inl (e, ground arith)
  | inr e ↦ inr (e, λ h. ground arith)
]

module _ {S : Type 0} (env : Env S) (s : BlockChain S) where
  -- The database has this header, with this meta data, at this height of the main chain.
  abbrev pub IsBlockAt : ℕ → Header × Meta → Type 0
  IsBlockAt height found =
      (sha : ℕ) × (env.fetch_block_sha_by_height s.db height ≡ ok sha)
      × (env.fetch_block_header_by_sha s.db sha ≡ ok found)

  -- No block above one height and up to another, with a modifier of its own, has reached the target.
  abbrev pub NoneBetween : ℤ → ℕ → ℕ → Type 0
  NoneBetween target low high =
      (h : ℕ) (header : Header) (meta : Meta)
      → low < h
      → h ≤ high
      → IsBlockAt h (header, meta)
      → HasModifier meta
      → ltb_ℤ (pos (unix header.timestamp)) target ≡ true

  -- The modifier of the first block above a height that has one of its own and has reached the
  -- target; with its height and time.
  abbrev pub IsFirstModifier : ℤ → ℕ → KernelModifier → Type 0
  IsFirstModifier target low k =
      (height : ℕ) × (header : Header) × (meta : Meta) × (low < height + 1)
      × IsBlockAt (height + 1) (header, meta)
      × HasModifier meta
      × (ltb_ℤ (pos (unix header.timestamp)) target ≡ false)
      × (k ≡ record {
        modifier = meta.stake_modifier;
        height = int32 (height + 1);
        time = unix header.timestamp;
      })
      × NoneBetween target low height

  -- Without the order to print, and with no such block up to the best one: the modifier 0.
  abbrev pub IsMissing : ℤ → ℕ → ℕ → Bool → KernelModifier → Type 0
  IsMissing target low best print k =
      (print ≡ false) × (k.modifier ≡ 0) × NoneBetween target low best

  block_at-IsBlockAt :
      (params : StakeParams) (h : ℕ) (found : Header × Meta)
      → block_at env params s h ≡ ok found
      → IsBlockAt h found
  block_at-IsBlockAt params h found = elim (Result-cases (env.fetch_block_sha_by_height s.db h)) [
    | inl (sha, e) ↦ rw (e, block_at) (λ f. (sha, refl, f))
    | inr (x, e) ↦ rw (e, block_at) (λ f. absurd (cc))
  ]

  same_block :
      (h : ℕ) (found other : Header × Meta) → IsBlockAt h found → IsBlockAt h other → found ≡ other
  same_block h found other (sha, e, f) (sha', e', f') =
      let q : sha ≡ sha' = ok_inj (sym e ∙ e') in
      ok_inj (sym f ∙ ap (env.fetch_block_header_by_sha s.db) q ∙ f')

  -- One more block that is not late enough, or has no modifier.
  one_lower :
      (target : ℤ) (low high : ℕ) (header : Header) (meta : Meta)
      → IsBlockAt (low + 1) (header, meta)
      → (HasModifier meta → ltb_ℤ (pos (unix header.timestamp)) target ≡ true)
      → NoneBetween target (low + 1) high
      → NoneBetween target low high
  one_lower target low high header meta at early others h header' meta' below top at' own =
      elim (Bool-cases (low + 1 == h)) [
        | inl e ↦
            let q : low + 1 ≡ h = ground arith in
            let same : (header, meta) ≡ (header', meta') =
              same_block h (header, meta) (header', meta')
                (subst (λ n. IsBlockAt n (header, meta)) q at) at' in
            subst
              (λ (found : Header × Meta).
                HasModifier found.1 → ltb_ℤ (pos (unix (found.0).timestamp)) target ≡ true)
              same early own
        | inr e ↦ others h header' meta' (ground arith) top at' own
      ]

  abbrev pub IsFound : ℤ → ℕ → ℕ → Bool → KernelModifier → Type 0
  IsFound target low best print k = IsFirstModifier target low k ⊎ IsMissing target low best print k

  IsFound-lower :
      (target : ℤ) (low best : ℕ) (print : Bool) (k : KernelModifier) (header : Header)
      (meta : Meta)
      → IsBlockAt (low + 1) (header, meta)
      → (HasModifier meta → ltb_ℤ (pos (unix header.timestamp)) target ≡ true)
      → IsFound target (low + 1) best print k
      → IsFound target low best print k
  IsFound-lower target low best print k header meta at early
        (inl (height, header', meta', below, at', own, late, same, others)) =
      inl (
        height,
        header',
        meta',
        omega arith,
        at',
        own,
        late,
        same,
        one_lower target low height header meta at early others,
      )
  IsFound-lower target low best print k header meta at early (inr (quiet, nothing, others)) =
      inr (quiet, nothing, one_lower target low best header meta at early others)

  module _ (params : StakeParams) where
    at_best-IsMissing :
        (target : ℤ) (print : Bool) (adjusted best : ℕ) (at : Position) (k : KernelModifier)
        → leb best at.block_height ≡ true
        → at_best env params s print adjusted at ≡ ok k
        → IsMissing target at.block_height best print k
    at_best-IsMissing target true adjusted best at k top = λ e. absurd (cc)
    at_best-IsMissing target false adjusted best at k top =
        elim (Bool-cases (
          ltb_ℤ (pos adjusted) (
            int64
              ((pos at.block_time +ℤ pos params.stake_min_age) -ℤ selection_interval params)))) [
                | inl y ↦ rw y (λ e. absurd (cc))
                | inr y ↦ rw y (λ e. (
                  refl,
                  ap (λ k. k.modifier) (sym (ok_inj e)),
                  λ h header meta below upto at own. absurd (ground arith),
                ))
              ]

    seek_stops :
        (fuel : ℕ) (print : Bool) (adjusted : ℕ) (target : ℤ) (best : ℕ) (at : Position)
        (k : KernelModifier)
        → ltb_ℤ (pos at.modifier_time) target ≡ false
        → seek env params s fuel print adjusted target best at ≡ ok k
        → k ≡ record {
          modifier = at.meta.stake_modifier;
          height = at.modifier_height;
          time = at.modifier_time;
        }
    unfolding seek
    seek_stops zero print adjusted target best at k late = λ e. absurd (cc)
    seek_stops (suc fuel) print adjusted target best at k late =
        rw (late, seek) (λ e. sym (ok_inj e))

    -- The step to a block, with what the rest of the loop finds from there.
    moves-IsFound :
        (fuel : ℕ) (print : Bool) (adjusted : ℕ) (target : ℤ) (best : ℕ) (at : Position)
        (k : KernelModifier) (header : Header) (meta : Meta)
        → ltb_ℤ (pos at.modifier_time) target ≡ true
        → IsBlockAt (at.block_height + 1) (header, meta)
        → seek env params s fuel print adjusted target best (move_to at (header, meta)) ≡ ok k
        → (ltb_ℤ (pos (move_to at (header, meta)).modifier_time) target ≡ true
            → IsFound target (at.block_height + 1) best print k)
        → IsFound target at.block_height best print k
    moves-IsFound fuel print adjusted target best at k header meta early here run rest =
        let time_is : Bool → Bool =
          λ b. ltb_ℤ (pos (if b then unix header.timestamp else at.modifier_time)) target in
        elim (generated_iff meta) [
          | inr (g, foreign) ↦
              IsFound-lower target at.block_height best print k header meta here
                (λ own. absurd (foreign own)) (rest (ap time_is g ∙ early))
          | inl (g, own) ↦ elim (Bool-cases (ltb_ℤ (pos (unix header.timestamp)) target)) [
            | inl e ↦
                IsFound-lower target at.block_height best print k header meta here (λ _. e)
                  (rest (ap time_is g ∙ e))
            | inr e ↦ inl (
              at.block_height,
              header,
              meta,
              omega arith,
              here,
              own,
              e,
              seek_stops fuel print adjusted target best (move_to at (header, meta)) k
                    (ap time_is g ∙ e) run
                  ∙ ap
                      (λ b. record {
                        modifier = meta.stake_modifier;
                        height = if b then int32 (at.block_height + 1) else at.modifier_height;
                        time = if b then unix header.timestamp else at.modifier_time;
                      })
                      g,
              λ h header' meta' below upto at' own'. absurd (omega arith),
            )
          ]
        ]

    seek-IsFound :
        (fuel : ℕ) (print : Bool) (adjusted : ℕ) (target : ℤ) (best : ℕ) (at : Position)
        (k : KernelModifier)
        → ltb_ℤ (pos at.modifier_time) target ≡ true
        → seek env params s fuel print adjusted target best at ≡ ok k
        → IsFound target at.block_height best print k
    unfolding seek
    seek-IsFound zero print adjusted target best at k early = λ e. absurd (cc)
    seek-IsFound (suc fuel) print adjusted target best at k early =
        elim (Bool-cases (leb best at.block_height)) [
          | inl top ↦
              rw (early, top, seek)
                (λ e. inr (at_best-IsMissing target print adjusted best at k top e))
          | inr below ↦ elim (Result-cases (block_at env params s (at.block_height + 1))) [
            | inr (stop, f) ↦ rw (early, below, f, seek) (λ e. absurd (cc))
            | inl ((header, meta), f) ↦
                rw (early, below, f, seek)
                  (λ run.
                    moves-IsFound fuel print adjusted target best at k header meta early
                      (block_at-IsBlockAt params (at.block_height + 1) (header, meta) f) run
                      λ early'.
                        seek-IsFound fuel print adjusted target best (move_to at (header, meta)) k
                          early' run)
          ]
        ]

    -- What getKernelStakeModifier may give: with a result, a modifier that is found up to the best
    -- block; and otherwise an error of the code.
    abbrev pub IsLate : ℤ → ℕ → Bool → Result KernelModifier → Type 0
    IsLate target height print (ok k) =
        (b : ℕ) × (s.best_chain ≡ some b) × IsFound target height (s.heap b).height print k
    IsLate target height print (err e) = e ≢ divergence

    seek_from-IsFound :
        (print : Bool) (adjusted : ℕ) (target : ℤ) (best : Option ℕ) (at : Position)
        (k : KernelModifier)
        → ltb_ℤ (pos at.modifier_time) target ≡ true
        → seek_from env params s print adjusted target best at ≡ ok k
        → (b : ℕ) × (best ≡ some b) × IsFound target at.block_height (s.heap b).height print k
    unfolding seek_from
    seek_from-IsFound print adjusted target (some b) at k early =
        λ e. (b, refl, seek-IsFound _ print adjusted target (s.heap b).height at k early e)
    seek_from-IsFound print adjusted target none at k early =
        rw (early, seek_from) (λ e. absurd (cc))

    kernel_modifier-IsFound :
        (hash adjusted : ℕ) (print : Bool) (header : Header) (meta : Meta) (height : ℕ)
        (k : KernelModifier)
        → env.fetch_block_header_by_sha s.db hash ≡ ok (header, meta)
        → env.fetch_block_height_by_sha s.db hash ≡ ok height
        → ltb_ℤ
            (pos (unix header.timestamp))
            (int64 (pos (unix header.timestamp) +ℤ selection_interval params))
          ≡ true
        → get_kernel_stake_modifier env params s hash adjusted print ≡ ok k
        → IsLate
            (int64 (pos (unix header.timestamp) +ℤ selection_interval params))
            height
            print
            (ok k)
    unfolding get_kernel_stake_modifier
    kernel_modifier-IsFound hash adjusted print header meta height k f g early =
        rw (f, g, get_kernel_stake_modifier)
          (λ e. seek_from-IsFound print adjusted _ s.best_chain _ k early e)

    -- Where the database answers each question and the selection interval is positive,
    -- getKernelStakeModifier ends for a block that it has: with an error; or with the modifier, height
    -- and time of the first block above it that has a modifier of its own and comes a selection
    -- interval after it or later; or, only without the order to print and where no block up to the best
    -- one is such, with the modifier 0.
    pub get_kernel_stake_modifier-IsLate :
        (hash adjusted : ℕ) (print : Bool) (header : Header) (meta : Meta) (height : ℕ)
        → env.fetch_block_header_by_sha s.db hash ≡ ok (header, meta)
        → env.fetch_block_height_by_sha s.db hash ≡ ok height
        → ltb_ℤ
            (pos (unix header.timestamp))
            (int64 (pos (unix header.timestamp) +ℤ selection_interval params))
          ≡ true
        → ((h : ℕ) → block_at env params s h ≢ err divergence)
        → IsLate
            (int64 (pos (unix header.timestamp) +ℤ selection_interval params))
            height
            print
            (get_kernel_stake_modifier env params s hash adjusted print)
    get_kernel_stake_modifier-IsLate hash adjusted print header meta height f g early db =
        let target : ℤ = int64 (pos (unix header.timestamp) +ℤ selection_interval params) in
        elim (Result-cases (get_kernel_stake_modifier env params s hash adjusted print)) [
          | inl (k, e) ↦
              subst (IsLate target height print) (sym e)
                (kernel_modifier-IsFound hash adjusted print header meta height k f g early e)
          | inr (stop, e) ↦
              subst (IsLate target height print) (sym e)
                λ q. kernel_modifier_ends env params s hash adjusted print db (e ∙ ap err q)
        ]
