-- ===== src/Go/Duration.antt =====
-- Duration.String of Go's package time, such as 1h0m0.5s.
use syncflux.Prelude.{
  ℕ, zero, suc, ◌*◌, ◌/◌, ◌%◌, ◌≡◌, refl, pos, negsuc, Bool, false, ◌||◌, not, String, [], ◌∷◌, ltb,
  ◌==◌, if◌then◌else◌,
}
use syncflux.Go.Strconv.{format_nat}
use syncflux.Go.Text.{concat}
use syncflux.Go.Time.{Duration, second}

-- fmtFrac: the last `prec` digits of `v` as a fraction without trailing zeros, before `out`.
fmt_frac : ℕ → ℕ → Bool → String → String
fmt_frac zero v print out = if print then concat ("." ∷ out ∷ []) else out
fmt_frac (suc prec) v print out =
    let print' = print || not (v % 10 == 0) in
    fmt_frac prec (v / 10) print' (if print' then concat (format_nat (v % 10) ∷ out ∷ []) else out)

-- The units below a second, for a magnitude that is not zero.
small : ℕ → String
unfolding fmt_frac
small u =
    if ltb u 1000
    then concat (format_nat u ∷ "ns" ∷ [])
    else if ltb u 1_000_000
    then concat (format_nat (u / 1000) ∷ fmt_frac 3 u false "µs" ∷ [])
    else concat (format_nat (u / 1_000_000) ∷ fmt_frac 6 u false "ms" ∷ [])

-- Hours, minutes and seconds; the larger units only where they are needed.
large : ℕ → String
unfolding fmt_frac
large u =
    let s = u / second in
    let seconds = concat (format_nat (s % 60) ∷ fmt_frac 9 u false "s" ∷ []) in
    let minutes = concat (format_nat (s / 60 % 60) ∷ "m" ∷ seconds ∷ []) in
    let hours = concat (format_nat (s / 3600) ∷ "h" ∷ minutes ∷ []) in
    if ltb s 60 then seconds else if ltb s 3600 then minutes else hours

magnitude : ℕ → String
unfolding small large
magnitude u = if u == 0 then "0s" else if ltb u second then small u else large u

-- d.String().
unfoldable pub format_duration : Duration → String
unfolding magnitude
format_duration (pos u) = magnitude u
format_duration (negsuc u) = concat ("-" ∷ magnitude (suc u) ∷ [])

week : format_duration (pos (168 * 3600 * second)) ≡ "168h0m0s"
unfolding format_duration format_nat
week = refl

fraction : format_duration (pos 90_050_000_000) ≡ "1m30.05s"
unfolding format_duration format_nat
fraction = refl

below_second : format_duration (negsuc 1_499_999) ≡ "-1.5ms"
unfolding format_duration format_nat
below_second = refl
