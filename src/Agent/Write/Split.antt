-- ===== src/Agent/Write/Split.antt =====
-- What BpSplit makes of a batch: nothing is lost, reordered or invented, and every part but for the
-- nil pointers that fill it up is a piece of the batch.
use syncflux.Prelude.{
  ℕ, zero, suc, ◌+◌, ◌*◌, ◌/◌, ◌≤◌, ◌<◌, pos, ◌≡◌, refl, ap, sym, ◌∙◌, Option, none, some, List, [],
  ◌∷◌, ◌++◌, append-nil, append_assoc, arith, ltb, Bool-cases, inl, inr, length, take, drop,
  replicate, All, All-mono, false, length-take, length-drop, length-replicate, take-ge, take-min,
  take-append-take-drop, drop-drop,
}
use syncflux.Go.{ret, ok}
use syncflux.Influx.{Points, PointsLaws}
use syncflux.Agent.Write.{min, copy, slice, pointchunk, split_from, bp_split}

module _ {A : Type 0} where
  -- The pointers that are not nil.
  abbrev pub live : List (Option A) → List A
  live [] = []
  live (none ∷ xs) = live xs
  live (some x ∷ xs) = x ∷ live xs

  pub live-append : (xs ys : List (Option A)) → live (xs ++ ys) ≡ live xs ++ live ys
  live-append [] ys = refl
  live-append (none ∷ xs) ys = live-append xs ys
  live-append (some x ∷ xs) ys = ap (λ l. x ∷ l) (live-append xs ys)

  length-copy : (dst src : List A) → length (copy dst src) ≡ length dst
  unfolding copy
  length-copy [] src = refl
  length-copy (d ∷ dst) [] = refl
  length-copy (d ∷ dst) (s ∷ src) = ap suc (length-copy dst src)

  live-replicate : (n : ℕ) → live (replicate n none) ≡ []
  live-replicate zero = refl
  live-replicate (suc n) = live-replicate n

  live-copy :
      (n : ℕ) (src : List (Option A))
      → length src ≤ n
      → live (copy (replicate n none) src) ≡ live src
  unfolding copy
  live-copy zero [] h = refl
  live-copy zero (s ∷ src) h = absurd (omega arith)
  live-copy (suc n) [] h = live-replicate n
  live-copy (suc n) (none ∷ src) h = live-copy n src (omega arith)
  live-copy (suc n) (some x ∷ src) h = ap (λ l. x ∷ l) (live-copy n src (omega arith))

  -- A part of the slice, cut at the end of the points, is what a plain cut takes.
  slice-min :
      (n i : ℕ) (ps : List A)
      → slice ps (i * n) (min ((i + 1) * n) (length ps)) ≡ take n (drop (i * n) ps)
  unfolding min
  slice-min n i ps = take-min _ n (drop (i * n) ps) (ground (arith, length-drop (i * n) ps))

-- All slots of some batches, in order.
abbrev pub all_slots : {P B : Type 0} → Points P B → List B → List (Option P)
all_slots api [] = []
all_slots api (b ∷ bs) = api.slots b ++ all_slots api bs

module _ {P B : Type 0} (api : Points P B) (laws : PointsLaws api) (bp newbp : B) (n : ℕ)
    (fresh : api.new_batch (api.config bp) ≡ ok newbp) where
  -- What BpSplit puts into its `i`-th batch.
  abbrev part : ℕ → B
  part i = api.add_points newbp (pointchunk api n i (api.slots bp))

  abbrev parts : ℕ → ℕ → List B
  parts zero i = []
  parts (suc r) i = part i ∷ parts r (i + 1)

  split_from-eq-parts : (r i : ℕ) (made : List B) → split_from api r i n bp made ≡ made ++ parts r i
  unfolding split_from
  split_from-eq-parts zero i made = sym (append-nil made)
  split_from-eq-parts (suc r) i made =
      rw (fresh, split_from)
        (split_from-eq-parts r (i + 1) (made ++ part i ∷ []) ∙ append_assoc made (part i ∷ []) _)

  slots-part : (i : ℕ) → api.slots (part i) ≡ pointchunk api n i (api.slots bp)
  slots-part i = rw (laws.slots-add_points, laws.slots-new_batch _ _ fresh)

  length-part : (i : ℕ) → length (api.slots (part i)) ≡ n
  unfolding pointchunk
  length-part i = rw (slots-part i) (length-copy _ _ ∙ length-replicate n none)

  live-part : (i : ℕ) → live (api.slots (part i)) ≡ live (take n (drop (i * n) (api.slots bp)))
  unfolding pointchunk
  live-part i =
      rw (slots-part i, slice-min n i (api.slots bp))
        (live-copy n _ (omega (arith, length-take n (drop (i * n) (api.slots bp)))))

  live-parts :
      (r i : ℕ)
      → live (all_slots api (parts r i)) ≡ live (take (r * n) (drop (i * n) (api.slots bp)))
  live-parts zero i = let e : 0 * n ≡ 0 = omega arith in rw e
  live-parts (suc r) i =
      let e : suc r * n ≡ n + r * n = omega arith in
      let e' : (i + 1) * n ≡ i * n + n = omega arith in
      rw (
        live-append,
        live-part i,
        live-parts r (i + 1),
        e,
        e',
        ← drop-drop,
        ← live-append,
        take-append-take-drop,
      )

  -- What holds of every batch that BpSplit makes.
  abbrev IsPart : B → Type 0
  IsPart b = (api.config b ≡ api.config bp) × (length (api.slots b) ≡ n)

  All-parts : (r i : ℕ) → All IsPart (parts r i)
  All-parts zero i = tt
  All-parts (suc r) i = (
    (laws.config-add_points _ _ ∙ laws.config-new_batch _ _ fresh, length-part i),
    All-parts r (i + 1),
  )

split-eq-parts :
    {P B : Type 0} (api : Points P B) (laws : PointsLaws api) (bp newbp : B) (k : ℕ)
    (fresh : api.new_batch (api.config bp) ≡ ok newbp)
    → suc k ≤ length (api.slots bp)
    → bp_split api bp (pos (suc k))
      ≡ ret (parts api laws bp newbp (suc k) fresh (length (api.slots bp) / suc k + 1) 0)
unfolding bp_split
split-eq-parts api laws bp newbp k fresh h =
    let big : ltb (length (api.slots bp)) (suc k) ≡ false = ground arith in
    rw (big, split_from-eq-parts api laws bp newbp (suc k) fresh)

-- For a positive `splitnum`, and where the library makes the new batches, BpSplit does not panic. The points of its batches, with the nil pointers
-- left out, are the points of the batch in their order; every batch has the database, retention
-- policy and precision of the batch, and at most `splitnum` slots.
pub bp_split_lossless :
    {P B : Type 0} (api : Points P B) (laws : PointsLaws api) (bp newbp : B) (n : ℕ)
    → api.new_batch (api.config bp) ≡ ok newbp
    → 0 < n
    → (bs : List B) × (bp_split api bp (pos n) ≡ ret bs)
      × (live (all_slots api bs) ≡ live (api.slots bp))
      × All (λ b. (api.config b ≡ api.config bp) × (length (api.slots b) ≤ n)) bs
bp_split_lossless api laws bp newbp zero fresh h = absurd (omega arith)
bp_split_lossless api laws bp newbp (suc k) fresh h =
    elim (Bool-cases (ltb (length (api.slots bp)) (suc k))) [
      | inl small ↦ (
        bp ∷ [],
        unfold bp_split in rw small,
        ap live (append-nil (api.slots bp)),
        ((refl, ground arith), tt),
      )
      | inr big ↦
          let rounds = length (api.slots bp) / suc k + 1 in
          let e : 0 * suc k ≡ 0 = omega arith in
          let enough : length (api.slots bp) ≤ rounds * suc k = grind arith in
          (
            parts api laws bp newbp (suc k) fresh rounds 0,
            split-eq-parts api laws bp newbp k fresh (ground arith),
            live-parts api laws bp newbp (suc k) fresh rounds 0
                ∙ rw (e, take-ge (rounds * suc k) (api.slots bp) enough),
            All-mono (λ b p. (p.0, omega arith)) _
                (All-parts api laws bp newbp (suc k) fresh rounds 0),
          )
    ]
