-- ===== src/Chain/Retarget/Next.antt =====
-- The bits that calcNextRequiredDifficulty asks for (difficulty.go), on a net that has no rule for slow
-- blocks.
use btcchain.Common.{ℕ, ◌-◌, ◌*◌, ◌/◌, ltb, if◌then◌else◌}
use btcchain.Chain.State.{BlockNode}
use btcchain.Chain.Retarget.Bounds.{min_ℕ}

abbrev pub max_ℕ : ℕ → ℕ → ℕ
max_ℕ a b = if ltb a b then b else a

-- The time that counts, in nanoseconds: at least three and a half days and at most eight weeks. A
-- time that runs backwards counts as none.
abbrev pub counted : ℕ → ℕ → ℕ
counted first last = max_ℕ 302_400_000_000_000 (min_ℕ (last - first) 4_838_400_000_000_000)

-- The target after two thousand and sixteen blocks: that of the last one times the time that they
-- took, in parts of two weeks, and no more than the limit.
abbrev pub next_target : ℕ → ℕ → BlockNode → BlockNode → ℕ
next_target limit n first last =
    min_ℕ (n * counted first.timestamp last.timestamp / 1_209_600_000_000_000) limit
