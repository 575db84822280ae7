-- ===== src/Agent/Sync/Span.antt =====
-- How many chunks Sync makes of a span, and that they reach back to its start.
use native.Mathlib.Nat.{div-mul-le_self}
use syncflux.Prelude.{
  ℕ, suc, ◌+◌, ◌*◌, ◌/◌, ◌%◌, ◌^◌, ◌≤◌, ◌<◌, ◌≡◌, ◌≢◌, ap, ◌∙◌, pos, negsuc, pos_part, neg_part,
  ◌-ℤ◌, ◌*ℤ◌, ◌≤ℤ◌, int64_id, quot, eq_of_parts, -ℤ_parts, +ℤ_parts, ◌+ℤ◌, neg_ℕ, arith, min,
}
use syncflux.Go.Time.{Time, second, unix_seconds, sub, whole_seconds}
use syncflux.Agent.Chunks.{h_length, chunks_in}
use syncflux.Agent.Sync.Windows.{InWindow, InRange, before, windows_partition, *ℤ-pos_parts}

sub_lem : (e : Time) (span : ℕ) → span < 2 ^ 63 → sub e (e -ℤ pos span) ≡ pos span
unfolding sub
sub_lem e span h =
    let d : e -ℤ (e -ℤ pos span) ≡ pos span =
      eq_of_parts _ _ (omega (arith, -ℤ_parts e (pos span), -ℤ_parts e (e -ℤ pos span))) in
    rw d (ground arith)

chunks_in_lem : (n u : ℕ) → n < 2 ^ 62 → chunks_in (pos n) (pos u) ≡ pos (n / u + 1)
unfolding chunks_in quot
chunks_in_lem n u h =
    let q = int64_id (pos (n / u)) (omega arith) in
    let r = int64_id (pos (n / u + 1)) (omega arith) in
    let one : pos (n / u) +ℤ pos 1 ≡ pos (n / u + 1) = unfold ◌+ℤ◌ in ground arith in rw (q, one) r

-- Sync cuts a span of `span` nanoseconds into one chunk more than whole chunks fit into the span, but
-- not into more than one more than fit into `maxret`. (For durations below 2^62 ns, 146 years.)
pub h_length_lem :
    (e_epoch : Time) (span u m : ℕ)
    → span < 2 ^ 62
    → m < 2 ^ 62
    → h_length (e_epoch -ℤ pos span) e_epoch (pos u) (pos m) ≡ pos (min (span / u) (m / u) + 1)
unfolding h_length
h_length_lem e_epoch span u m hs hm =
    rw (sub_lem e_epoch span (omega arith), chunks_in_lem span u hs, chunks_in_lem m u hm)
      (ground arith)

unix_seconds-le : (e : Time) → unix_seconds e *ℤ pos second ≤ℤ e
unfolding unix_seconds
unix_seconds-le (pos n) = omega (arith, *ℤ-pos_parts (pos (n / second)) second)
unix_seconds-le (negsuc n) = omega (arith, *ℤ-pos_parts (negsuc (n / second)) second)

-- An instant of the span is less than the chunks' total length before its end.
back-lt-chunks :
    (e : Time) (span u back : ℕ)
    → 0 < u
    → e -ℤ pos span ≤ℤ before e back
    → back < (span / u + 1) * u
back-lt-chunks e span u back hu h =
    let a = -ℤ_parts e (pos span) in
    let b = -ℤ_parts (unix_seconds e *ℤ pos second) (pos back) in
    let le : back ≤ span = omega (arith, a, b, unix_seconds-le e) in
    let top : span < (span / u + 1) * u = grind arith in omega (arith, top)

-- The bounds within which nothing overflows: about 73 years of span and chunk, and instants between
-- the years -10^11 and 10^11.
pub record IsSane (e_epoch : Time) (c span m : ℕ) : Type 0 where
  pub chunk_positive : 0 < c
  pub chunk_small : c * second < 2 ^ 61
  pub span_small : span < 2 ^ 61
  pub maxret_small : m < 2 ^ 62
  pub end_above : neg_part (unix_seconds e_epoch) ≤ 2 ^ 62
  pub end_below : pos_part (unix_seconds e_epoch) < 2 ^ 62

pub sane_range :
    (e_epoch : Time) (c span m : ℕ)
    → IsSane e_epoch c span m
    → InRange e_epoch c (span / (c * second) + 1)
sane_range e_epoch c span m s = record {
  end_above = s.end_above;
  end_below = s.end_below;
  span = omega (arith, s, div-mul-le_self span (c * second));
}

-- Sync from `span` nanoseconds before `e_epoch` up to it, in chunks of `c` whole seconds, where
-- `maxret` allows as many chunks as the span has: each instant of the span before the last whole
-- second lies in the window of exactly one of the chunks, unless it is a multiple of the chunk length
-- away from that second; such an instant, on the bound of two chunks, lies in none.
pub sync_copies_once :
    (e_epoch : Time) (c span m back : ℕ)
    → IsSane e_epoch c span m
    → span / (c * second) ≤ m / (c * second)
    → 0 < back
    → e_epoch -ℤ pos span ≤ℤ before e_epoch back
    → (h : ℕ) × (h_length (e_epoch -ℤ pos span) e_epoch (pos (c * second)) (pos m) ≡ pos h)
      × (whole_seconds (pos (c * second)) ≡ pos c)
      × (back % (c * second) ≢ 0
          → (i : ℕ) × (i < h)
            × InWindow e_epoch (pos c) i (before e_epoch back)
            × ((j : ℕ) → j < h → InWindow e_epoch (pos c) j (before e_epoch back) → j ≡ i))
      × (back % (c * second) ≡ 0
          → (j : ℕ) → j < h
          → ¬ InWindow e_epoch (pos c) j (before e_epoch back))
sync_copies_once e_epoch c span m back s uncapped hb inside =
    let h = span / (c * second) + 1 in
    let part =
      windows_partition e_epoch c h (sane_range e_epoch c span m s) back s.chunk_positive hb
        (back-lt-chunks e_epoch span (c * second) back (omega (arith, s.chunk_positive)) inside) in
    let capped : min (span / (c * second)) (m / (c * second)) ≡ span / (c * second) =
      omega (arith, uncapped) in
    (
      h,
      h_length_lem e_epoch span (c * second) m (omega (arith, s.span_small)) s.maxret_small
          ∙ rw capped,
      unfold whole_seconds quot in ap pos (omega arith),
      part.0,
      part.1,
    )

sub_reversed : (e : Time) (k : ℕ) → suc k < 2 ^ 63 → sub e (e +ℤ pos (suc k)) ≡ negsuc k
unfolding sub
sub_reversed e k h =
    let d : e -ℤ (e +ℤ pos (suc k)) ≡ negsuc k =
      eq_of_parts _ _ (omega (arith, +ℤ_parts e (pos (suc k)), -ℤ_parts e (e +ℤ pos (suc k)))) in
    rw d (ground arith)

chunks_in_reversed :
    (k u n : ℕ) → suc k < 2 ^ 62 → suc k / u ≡ suc (suc n) → chunks_in (negsuc k) (pos u) ≡ negsuc n
unfolding chunks_in quot
chunks_in_reversed k u n h e =
    let small : suc (suc n) ≤ suc k = omega (arith, e) in
    let q = int64_id (negsuc (suc n)) (omega (arith, h)) in
    let r = int64_id (negsuc n) (omega (arith, h)) in
    let one : negsuc (suc n) +ℤ pos 1 ≡ negsuc n = unfold ◌+ℤ◌ in ground arith in
    let minus : neg_ℕ (suc (suc n)) ≡ negsuc (suc n) = ground arith in rw (e, minus, q, one) r

-- A span that starts two chunks or more after its end has a negative number of chunks.
pub h_length_reversed :
    (e_epoch : Time) (k u m n : ℕ)
    → suc k < 2 ^ 62
    → m < 2 ^ 62
    → suc k / u ≡ suc (suc n)
    → h_length (e_epoch +ℤ pos (suc k)) e_epoch (pos u) (pos m) ≡ negsuc n
unfolding h_length
h_length_reversed e_epoch k u m n hk hm e =
    rw (sub_reversed e_epoch k (omega arith), chunks_in_reversed k u n hk e, chunks_in_lem m u hm)
      (ground arith)
