-- ===== src/Outbound/Retry.antt =====
-- How long a provider's answer postpones its scope: backend/internal/platform/outbound/retry_after.go.
-- What strconv.ParseInt and http.ParseTime read is an argument. The subtraction of a date before `now`
-- stops at 0, where the code has a negative delay, which it returns as 0 as well.
use sama.Prelude.{ℕ, ◌+◌, ◌-◌, ◌*◌, ◌≤◌, ◌<◌, ◌&&◌, Option, none, some, ltb, if◌then◌else◌, arith}
use sama.Database.{second, hour}

-- The Retry-After header: a number of seconds that is not negative, a date, or neither.
pub data Header : Type 0 where
  seconds : ℕ → Header
  date : ℕ → Header
  other : Header

unfoldable pub header_delay : Header → ℕ → ℕ
header_delay (seconds n) now = (if ltb 3600 n then 3600 else n) * second
header_delay (date t) now = t - now
header_delay other now = second

-- `unix` is now.Unix(), the whole seconds of `now`; `reset` is the X-Sama-Rate-Reset header.
unfoldable pub retry_after : Header → Option ℕ → ℕ → ℕ → ℕ
unfolding header_delay
retry_after h reset unix now =
    let delay = header_delay h now in
    let raised : ℕ = elim reset [
      | none ↦ delay
      | some s ↦
          if ltb unix s && ltb (s - unix) 3600 && ltb delay (s * second - now)
          then s * second - now
          else delay
    ] in
    if ltb hour raised then hour else raised

-- Where the reset header names a time less than an hour after now's whole second: the delay is at most an
-- hour, lasts until that time, and is not shorter than without that header.
pub retry_after-reset :
    (h : Header) (reset unix now : ℕ)
    → unix * second ≤ now
    → unix < reset
    → reset < unix + 3600
    → (retry_after h (some reset) unix now ≤ hour)
      × (reset * second ≤ now + retry_after h (some reset) unix now)
      × (retry_after h none unix now ≤ retry_after h (some reset) unix now)
unfolding retry_after
retry_after-reset h reset unix now a c d = ground arith
