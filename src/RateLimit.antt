-- ===== src/RateLimit.antt =====
-- app/middleware/rate_limit.py: the sliding-window limiter. Times are whole ticks of the clock
-- (milliseconds in the script, and for the in-memory bucket the unit of `window`).
pub mod Window
pub mod Script
pub mod Dispatch
use ops_pilot_be.Prelude.{
  ℕ, ◌+◌, List, [], ◌∷◌, ◌++◌, Bool, true, false, if◌then◌else◌, ltb, leb, length, filter,
}

-- `t > cutoff` with `cutoff = now - window`, on integers that may be negative.
abbrev pub fresh : ℕ → ℕ → ℕ → Bool
fresh window now t = ltb now (t + window)

-- `_check_memory` on the bucket of one key: the answer and the bucket that it leaves.
unfoldable pub check_memory : ℕ → ℕ → ℕ → List ℕ → Bool × List ℕ
check_memory window limit now bucket =
    let kept = filter (fresh window now) bucket in
    if leb limit (length kept) then (false, kept) else (true, kept ++ now ∷ [])

-- The requests of one key, at the given times: the times of those that are let through, and the
-- bucket at the end.
unfoldable pub serve : ℕ → ℕ → List ℕ → List ℕ → List ℕ × List ℕ
serve window limit bucket [] = ([], bucket)
serve window limit bucket (now ∷ times) =
    let (passed, bucket') = check_memory window limit now bucket in
    let (rest, end) = serve window limit bucket' times in (if passed then now ∷ rest else rest, end)
