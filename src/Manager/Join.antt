-- ===== src/Manager/Join.antt =====
-- src/KadOpMgr.h, `Join`: the time between the rounds of pings, in milliseconds. `backoff*delay` is a
-- multiplication by 1.5 in `float`, which is exact below 2 ^ 23, and the assignment cuts it to an integer.
use kad.Common.{ℕ, zero, suc, ◌+◌, ◌*◌, ◌/◌, ◌≤◌, ◌≡◌, refl, arith, ltb, if◌then◌else◌}

-- `KADEMLIA_TIMEOUT_RESPONSE` and `delayMax`.
abbrev pub first_delay : ℕ
first_delay = 500

abbrev pub delay_max : ℕ
delay_max = 30 * 1000

unfoldable pub next_delay : ℕ → ℕ
next_delay delay =
    if ltb delay delay_max
    then (if ltb delay_max (delay * 3 / 2) then delay_max else delay * 3 / 2)
    else delay

-- The delay of round `n`.
unfoldable pub delay : ℕ → ℕ
delay zero = first_delay
delay (suc n) = next_delay (delay n)

pub delay_zero : first_delay ≡ delay 0
unfolding delay
delay_zero = refl

pub delay-suc : (n : ℕ) → delay (suc n) ≡ next_delay (delay n)
unfolding delay
delay-suc n = refl

delay-bounds : (n : ℕ) → (first_delay ≤ delay n) × (delay n ≤ delay_max)
unfolding delay next_delay
delay-bounds zero = (omega arith, omega arith)
delay-bounds (suc n) =
    let (low, high) = delay-bounds n in (ground (arith, low, high), ground (arith, low, high))

delay_eleven : delay 11 ≡ delay_max
unfolding delay next_delay
delay_eleven = refl

delay_settled : (n : ℕ) → delay (n + 11) ≡ delay_max
unfolding delay next_delay
delay_settled zero = delay_eleven
delay_settled (suc n) =
    let next : suc n + 11 ≡ suc (n + 11) = omega arith in rw next (rw (delay, delay_settled n) refl)

-- The delay between the rounds of `Join` is at least 500, never falls, is at most 30000, and is
-- 30000 from round 11 on.
pub delay_lem :
    (n : ℕ)
    → (first_delay ≤ delay n)
      × (delay n ≤ delay (suc n))
      × (delay (suc n) ≤ delay_max)
      × (delay (n + 11) ≡ delay_max)
unfolding delay next_delay
delay_lem n =
    let (low, high) = delay-bounds n in
    (low, ground (arith, low, high), ground (arith, low, high), delay_settled n)
