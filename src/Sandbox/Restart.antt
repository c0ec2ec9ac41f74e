-- ===== src/Sandbox/Restart.antt =====
-- internal/sandbox/restart.go: when an exited sandbox is started again, and how long that waits.
-- A duration is its number of nanoseconds; attempts and counts are never negative in the code.
use muro.Base.{
  ℕ, zero, suc, ◌*◌, ◌-◌, ◌%◌, ◌≤◌, ltb, Bool, true, false, Bytes, codes, bytes_eq, if◌then◌else◌,
  refl, ◌≡◌, arith,
}

abbrev pub second : ℕ
second = 1000000000

-- `backoffCapDelay`
abbrev pub cap_delay : ℕ
cap_delay = 30 * second

-- 2 ^ n
unfoldable pub power : ℕ → ℕ
power zero = 1
power (suc n) = 2 * power n

-- `d << n` on the 64 bits of a duration
unfoldable pub shift_left : ℕ → ℕ → ℕ
unfolding power
shift_left d n = (d * power n) % 18446744073709551616

-- `backoffDelay`
unfoldable pub backoff_delay : ℕ → ℕ
unfolding shift_left
backoff_delay attempt =
    let attempt' = if ltb attempt 1 then 1 else attempt in
    let d = shift_left second (attempt' - 1) in
    if ltb 5 attempt' then cap_delay else if ltb cap_delay d then cap_delay else d

-- `shouldRestart`
unfoldable pub should_restart : Bytes → ℕ → ℕ → Bool → Bool
should_restart policy restart_count max_attempts clean_exit =
    if bytes_eq policy (codes "always")
    then true
    else if bytes_eq policy (codes "on-failure")
    then if clean_exit then false else ltb restart_count max_attempts
    else false

one_le_power : (n : ℕ) → 1 ≤ power n
unfolding power
one_le_power zero = omega arith
one_le_power (suc n) = let ih = one_le_power n in omega arith

-- The delay before retry n + 1 is 2 ^ n seconds, but never more than 30: the early return for large
-- counts and the shift on 64 bits, which would wrap, leave no trace.
pub backoff_delay_lem :
    (n : ℕ) → backoff_delay (suc n) ≡ (if ltb 30 (power n) then 30 else power n) * second
unfolding backoff_delay shift_left power
backoff_delay_lem zero = refl
backoff_delay_lem (suc zero) = refl
backoff_delay_lem (suc (suc zero)) = refl
backoff_delay_lem (suc (suc (suc zero))) = refl
backoff_delay_lem (suc (suc (suc (suc zero)))) = refl
backoff_delay_lem (suc (suc (suc (suc (suc n))))) = let p = one_le_power n in ground (arith, p)

-- the restarts of a sandbox with policy "on-failure" in a run of n failures: a restart adds one to
-- the count that the next decision reads
unfoldable pub restarts : ℕ → ℕ → ℕ
restarts max_attempts zero = 0
restarts max_attempts (suc n) =
    let count = restarts max_attempts n in
    if should_restart (codes "on-failure") count max_attempts false then suc count else count

-- In a run of n failures an "on-failure" sandbox is restarted n times, but never more than
-- `max_attempts` times.
pub restarts_lem :
    (max_attempts n : ℕ)
    → restarts max_attempts n ≡ (if ltb n max_attempts then n else max_attempts)
unfolding restarts should_restart bytes_eq
restarts_lem max_attempts zero = ground arith
restarts_lem max_attempts (suc n) = let ih = restarts_lem max_attempts n in ground arith
