-- ===== src/Go/Time.antt =====
-- What the program uses of Go's package time. An instant is its nanoseconds since 1970 and a duration
-- its nanoseconds; the monotonic clock is left out.
use syncflux.Prelude.{
  ℕ, ◌/◌, ◌^◌, ◌-◌, ℤ, pos, negsuc, neg_ℕ, ◌+ℤ◌, ◌-ℤ◌, ◌*ℤ◌, quot, ltb_ℤ, if◌then◌else◌,
}

abbrev pub Time : Type 0
Time = ℤ

abbrev pub Duration : Type 0
Duration = ℤ

-- time.Second, in nanoseconds.
abbrev pub second : ℕ
second = 1_000_000_000

-- time.Unix(sec, nsec).
unfoldable pub unix : ℤ → ℤ → Time
unix sec nsec = sec *ℤ pos second +ℤ nsec

-- t.Unix(): the whole seconds, rounded down.
unfoldable pub unix_seconds : Time → ℤ
unix_seconds (pos n) = pos (n / second)
unix_seconds (negsuc n) = negsuc (n / second)

-- t.Add(d).
unfoldable pub add : Time → Duration → Time
add t d = t +ℤ d

-- t.Sub(u): a difference that no Duration holds becomes the nearest one.
unfoldable pub sub : Time → Time → Duration
sub t u =
    let d = t -ℤ u in
    if ltb_ℤ (pos (2 ^ 63 - 1)) d
    then pos (2 ^ 63 - 1)
    else if ltb_ℤ d (neg_ℕ (2 ^ 63))
    then neg_ℕ (2 ^ 63)
    else d

-- int64(d.Seconds()). The detour over float64 is left out: the result is exact for durations below
-- 2^23 seconds (97 days), and for longer ones that are whole seconds.
unfoldable pub whole_seconds : Duration → ℤ
whole_seconds d = quot d (pos second)
