-- ===== src/Agent/Sync/Windows.antt =====
-- Which instants the chunks of Sync cover. An instant is given by its distance, in nanoseconds,
-- before the last whole second of the span.
use native.Mathlib.Nat.{div-eq_of_lt-le, mod-eq-sub-div-mul, div-lt_iff_lt-mul}
use syncflux.Prelude.{
  ℕ, ◌+◌, ◌-◌, ◌*◌, ◌/◌, ◌%◌, ◌^◌, ◌≤◌, ◌<◌, ◌≡◌, ◌≢◌, refl, ap, sym, ◌∙◌, ◌↔◌, ℤ, pos, negsuc,
  pos_part, neg_part, ◌-ℤ◌, ◌*ℤ◌, ◌<ℤ◌, int64, int64_id, -ℤ_parts, arith, inl, inr, ◌⊎◌,
}
use syncflux.Go.Time.{Time, second, unix_seconds}
use syncflux.Agent.Chunks.{endsec, startsec}

-- The condition `time > startsec and time < endsec` of a chunk's query, at an instant.
abbrev pub InWindow : Time → ℤ → ℕ → Time → Type 0
InWindow e_epoch chunk_second i t =
    (startsec e_epoch chunk_second i *ℤ pos second <ℤ t)
    × (t <ℤ endsec e_epoch chunk_second i *ℤ pos second)

-- The instant `back` nanoseconds before the last whole second of `e_epoch`.
abbrev pub before : Time → ℕ → Time
before e_epoch back = unix_seconds e_epoch *ℤ pos second -ℤ pos back

-- The arithmetic of `h` chunks of `c` seconds stays within an int64.
pub record InRange (e_epoch : Time) (c h : ℕ) : Type 0 where
  pub end_above : neg_part (unix_seconds e_epoch) ≤ 2 ^ 62
  pub end_below : pos_part (unix_seconds e_epoch) < 2 ^ 62
  pub span : (h + 1) * c < 2 ^ 62

pub *ℤ-pos_parts :
    (a : ℤ) (n : ℕ)
    → (pos_part (a *ℤ pos n) ≡ pos_part a * n) × (neg_part (a *ℤ pos n) ≡ neg_part a * n)
unfolding ◌*ℤ◌
*ℤ-pos_parts (pos m) n = ground arith
*ℤ-pos_parts (negsuc m) n = ground arith

int64_fits : (a : ℤ) → neg_part a ≤ 2 ^ 63 → pos_part a < 2 ^ 63 → int64 a ≡ a
int64_fits a h k = int64_id a (record { above = h; below = k })

parts_cases : (a : ℤ) → (pos_part a ≡ 0) ⊎ (neg_part a ≡ 0)
parts_cases (pos n) = inr refl
parts_cases (negsuc n) = inl refl

pub pos-*ℤ-pos : (k c : ℕ) → pos k *ℤ pos c ≡ pos (k * c)
unfolding ◌*ℤ◌
pos-*ℤ-pos k c = ground arith

mul_mono : (k h c : ℕ) → k ≤ h → k * c ≤ h * c
mul_mono k h c le = grind arith

-- Within range the bounds are what the formulas say.
pub bound_lem :
    (e_epoch : Time) (c h k : ℕ)
    → InRange e_epoch c h
    → k ≤ h + 1
    → int64 (unix_seconds e_epoch -ℤ int64 (pos k *ℤ pos c)) ≡ unix_seconds e_epoch -ℤ pos (k * c)
bound_lem e_epoch c h k range le =
    let small = mul_mono k (h + 1) c le in
    let e = unix_seconds e_epoch in
    let d = -ℤ_parts e (pos (k * c)) in
    let cases = parts_cases (e -ℤ pos (k * c)) in
    rw (pos-*ℤ-pos, int64_fits (pos (k * c)) (omega arith) (omega (arith, small, range.span)))
      (int64_fits (e -ℤ pos (k * c)) (omega (arith, small, range, d, cases))
        (omega (arith, small, range, d, cases)))

-- Strictly between two neighbouring multiples of `u`.
between_multiples : (u n : ℕ) → 0 < u → n % u ≢ 0 → (n / u * u < n) × (n < (n / u + 1) * u)
between_multiples u n hu h = grind arith

between_multiples_unique :
    (u n j : ℕ) → 0 < u → j * u < n → n < (j + 1) * u → (j ≡ n / u) × (n % u ≢ 0)
between_multiples_unique u n j hu h k =
    let q : n / u ≡ j = div-eq_of_lt-le u (omega arith) k in
    let r = mod-eq-sub-div-mul n u ∙ ap (λ t. n - t * u) q in
    (sym q, λ zero_rem. absurd (omega (arith, r)))

-- An instant against a whole second that lies `m` seconds before the last one.
second-lt_before :
    (e : ℤ) (m back : ℕ)
    → ((e -ℤ pos m) *ℤ pos second <ℤ e *ℤ pos second -ℤ pos back) ↔ (back < m * second)
second-lt_before e m back =
    let a = *ℤ-pos_parts (e -ℤ pos m) second in
    let b = *ℤ-pos_parts e second in
    let d = -ℤ_parts e (pos m) in
    let f = -ℤ_parts (e *ℤ pos second) (pos back) in
    (λ p. omega (arith, a, b, d, f), λ p. omega (arith, a, b, d, f))

before-lt_second :
    (e : ℤ) (m back : ℕ)
    → (e *ℤ pos second -ℤ pos back <ℤ (e -ℤ pos m) *ℤ pos second) ↔ (m * second < back)
before-lt_second e m back =
    let a = *ℤ-pos_parts (e -ℤ pos m) second in
    let b = *ℤ-pos_parts e second in
    let d = -ℤ_parts e (pos m) in
    let f = -ℤ_parts (e *ℤ pos second) (pos back) in
    (λ p. omega (arith, a, b, d, f), λ p. omega (arith, a, b, d, f))

module _ (e_epoch : Time) (c h : ℕ) (range : InRange e_epoch c h) where
  InWindow-iff :
      (i back : ℕ)
      → i < h
      → InWindow e_epoch (pos c) i (before e_epoch back)
        ↔ ((i * c * second < back) × (back < (i + 1) * c * second))
  unfolding endsec startsec
  InWindow-iff i back lt =
      let e = unix_seconds e_epoch in
      let start = bound_lem e_epoch c h (i + 1) range (omega arith) in
      let end = bound_lem e_epoch c h i range (omega arith) in
      let after = second-lt_before e ((i + 1) * c) back in
      let until = before-lt_second e (i * c) back in
      rw (start, end) (λ w. (until.0 w.1, after.0 w.0), λ w. (after.1 w.1, until.1 w.0))

  -- Sync copies each instant of a span of `h` chunks of `c` seconds once, but for the instants on the
  -- bounds of the chunks: an instant `back` nanoseconds before the last whole second of the
  -- span's end, with 0 < back < h * c seconds, lies in the window of exactly one chunk if `back` is no
  -- multiple of `c` seconds, and in that of none if it is.
  pub windows_partition :
      (back : ℕ)
      → 0 < c
      → 0 < back
      → back < h * (c * second)
      → (back % (c * second) ≢ 0
          → (i : ℕ) × (i < h)
            × InWindow e_epoch (pos c) i (before e_epoch back)
            × ((j : ℕ) → j < h → InWindow e_epoch (pos c) j (before e_epoch back) → j ≡ i))
        × (back % (c * second) ≡ 0
            → (j : ℕ) → j < h
            → ¬ InWindow e_epoch (pos c) j (before e_epoch back))
  windows_partition back hc hb hh =
      let u = c * second in
      let pos_u : 0 < c * second = omega arith in
      let i = back / (c * second) in
      let i-lt-h : back / (c * second) < h = (div-lt_iff_lt-mul pos_u).1 hh in
      (
        λ off.
            let (above, below) = between_multiples (c * second) back pos_u off in
            (
              i,
              i-lt-h,
              (InWindow-iff i back i-lt-h).1 (omega arith, omega arith),
              λ j lt w.
                  let (p, q) = (InWindow-iff j back lt).0 w in
                  (between_multiples_unique (c * second) back j pos_u (omega arith)
                    (omega arith)).0,
            ),
        λ on j lt w.
            let (p, q) = (InWindow-iff j back lt).0 w in
            (between_multiples_unique (c * second) back j pos_u (omega arith) (omega arith)).1 on,
      )
