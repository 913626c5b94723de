-- ===== src/Hub/Delay.antt =====
-- The delay before a restart.
use sticky_overseer.Base.{ℕ, ◌+◌, ◌≤◌, ◌<◌, ◌≡◌, pos, is_positive, arith, true, ◌%◌}
use sticky_overseer.Messages.{RetryPolicy}
use sticky_overseer.Hub.Types.{World, to_int64}
use sticky_overseer.Hub.Exit.{delay_of}

-- A sum below 2 ^ 63 does not wrap.
to_int64_small : (n : ℕ) → n < 9223372036854775808 → to_int64 n ≡ pos n
unfolding to_int64
to_int64_small n h =
    let same : n % 18446744073709551616 ≡ n = omega arith in rw same (ground (arith, h))

-- Where `RestartDelay` is not negative, the jitter is positive, the two together are at most
-- 2 ^ 63 nanoseconds, and `Int63n` of `n` is below `n`, the delay is at least `RestartDelay`, and
-- less than the two together.
pub delay_of-bounds :
    (world : World) (rp : RetryPolicy) (d j : ℕ)
    → ((n : ℕ) → 0 < n → world.int63n n < n)
    → rp.restart_delay ≡ pos d
    → rp.restart_jitter ≡ pos j
    → 0 < j
    → d + j ≤ 9223372036854775808
    → (n : ℕ) × (delay_of world rp ≡ pos n) × (d ≤ n) × (n < d + j)
unfolding delay_of
delay_of-bounds world rp d j law e f h small =
    let positive : is_positive (pos j) ≡ true = ground arith in
    let below = law j h in
    (
      d + world.int63n j,
      rw (f, delay_of, positive, e) (to_int64_small (d + world.int63n j) (omega (arith, below))),
      omega arith,
      omega (arith, below),
    )
