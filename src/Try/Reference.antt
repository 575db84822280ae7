-- ===== src/Try/Reference.antt =====
-- `Do` over a closure that repeats one operation up to a configured number of attempts, as ReadDB and
-- WriteDB of pkg/agent/client.go use it, against a reference that calls the operation a fixed
-- number of times.
use syncflux.Prelude.{
  ℕ, zero, suc, ◌+◌, ◌-◌, ◌≡◌, Option, none, some, min, arith, ltb, leb, Bool-cases, Option-cases,
  ap, sym, ◌∙◌, refl, inl, inr, if◌then◌else◌,
}
use syncflux.Go.{Error, max_retries_reached}
use syncflux.Try.{Func, max_retries, do_from, do_retry}

module _ {S : Type 0} where
  -- The closure: one call of the operation, and `attempt < limit` for the retry flag.
  abbrev pub repeat : ℕ → (S → Option Error × S) → Func S
  repeat limit op attempt s = let (err, s') = op s in (ltb attempt limit, err, s')

  -- The reference: at most `suc n` calls, up to the first that succeeds; the last call's error.
  unfoldable pub up_to : ℕ → (S → Option Error × S) → S → Option Error × S
  up_to zero op s = op s
  up_to (suc n) op s =
      let (err, s') = op s in
      let more = up_to n op s' in elim err [ none ↦ (none, s') | some e ↦ more ]

  -- Past ten attempts the error of the last one is replaced.
  abbrev pub relabel : ℕ → Option Error × S → Option Error × S
  relabel limit (none, s) = (none, s)
  relabel limit (some e, s) = (some (if leb limit max_retries then e else max_retries_reached), s)

  pub relabel_state : (limit : ℕ) (r : Option Error × S) → (relabel limit r).1 ≡ r.1
  relabel_state limit (none, s) = refl
  relabel_state limit (some e, s) = refl

  pub relabel-none : (limit : ℕ) (r : Option Error × S) → (relabel limit r).0 ≡ none → r.0 ≡ none
  relabel-none limit (none, s) h = refl
  relabel-none limit (some e, s) h = cc

  pub relabel-some :
      (limit : ℕ) (r : Option Error × S) {e : Error}
      → r.0 ≡ some e
      → relabel limit r ≡ (some (if leb limit max_retries then e else max_retries_reached), r.1)
  relabel-some limit (none, s) h = cc
  relabel-some limit (some e, s) h = ground arith

  do_from-repeat :
      (rounds limit attempt : ℕ) (op : S → Option Error × S) (s : S)
      → attempt + rounds ≡ max_retries
      → do_from rounds (repeat limit op) attempt s
        ≡ relabel limit (up_to (min (limit - attempt) rounds) op s)
  unfolding do_from up_to
  do_from-repeat zero limit attempt op s h =
      let e : min (limit - attempt) 0 ≡ 0 = omega arith in rw e (ground arith)
  do_from-repeat (suc r) limit attempt op s h = elim (Bool-cases (ltb attempt limit)) [
    | inl more ↦
        let e : min (limit - attempt) (suc r) ≡ suc (min (limit - (attempt + 1)) r) =
          ground arith in
        rw (e, more) (ground (arith, do_from-repeat r limit (attempt + 1) op (op s).1))
    | inr last ↦
        let e : min (limit - attempt) (suc r) ≡ 0 = ground arith in rw (e, last) (ground arith)
  ]

  -- `Do` around a repeated operation makes the calls of the reference with `min(max(limit, 1), 10)`
  -- calls at most, and returns its error, or `errMaxRetriesReached` in its place when `limit` is
  -- above ten.
  pub do_retry-repeat :
      (limit : ℕ) (op : S → Option Error × S) (s : S)
      → do_retry (repeat limit op) s
        ≡ relabel limit (up_to (min (limit - 1) (max_retries - 1)) op s)
  unfolding do_retry
  do_retry-repeat limit op s = do_from-repeat 9 limit 1 op s (omega arith)

  pub up_to_done :
      (n : ℕ) (op : S → Option Error × S) (s : S)
      → (op s).0 ≡ none
      → up_to n op s ≡ (none, (op s).1)
  unfolding up_to
  up_to_done zero op s h = ground arith
  up_to_done (suc n) op s h = ground arith

  pub up_to_again :
      (n : ℕ) (op : S → Option Error × S) (s : S) {e : Error}
      → (op s).0 ≡ some e
      → up_to (suc n) op s ≡ up_to n op (op s).1
  unfolding up_to
  up_to_again n op s h = ground arith

  -- The reference ends in a call that succeeded, if it reports no error.
  pub up_to_succeeds :
      (n : ℕ) (op : S → Option Error × S) (s : S)
      → (up_to n op s).0 ≡ none
      → (t : S) × ((op t).0 ≡ none) × ((op t).1 ≡ (up_to n op s).1)
  unfolding up_to
  up_to_succeeds zero op s h = (s, h, refl)
  up_to_succeeds (suc n) op s h = elim (Option-cases (op s).0) [
    | inl done ↦ (s, done, ap (λ r. r.1) (sym (up_to_done (suc n) op s done)))
    | inr (e, again) ↦
        let step = up_to_again n op s again in
        let (t, good, last) = up_to_succeeds n op (op s).1 (ap (λ r. r.0) (sym step) ∙ h) in
        (t, good, last ∙ ap (λ r. r.1) (sym step))
  ]

  -- What every call keeps, the reference keeps.
  pub up_to_keeps {ℓ} :
      (P : S → Type ℓ) (op : S → Option Error × S)
      → ((s : S) → P s → P (op s).1)
      → (n : ℕ) (s : S) → P s
      → P (up_to n op s).1
  unfolding up_to
  up_to_keeps P op keep zero s h = keep s h
  up_to_keeps P op keep (suc n) s h = elim (Option-cases (op s).0) [
    | inl done ↦ rw (up_to_done (suc n) op s done) (keep s h)
    | inr (e, again) ↦ rw (up_to_again n op s again) (up_to_keeps P op keep n (op s).1 (keep s h))
  ]

  -- An operation that always fails is called `suc n` times, and an error is returned.
  pub up_to_fails :
      (op : S → Option Error × S) (calls : S → ℕ)
      → ((s : S) → (e : Error) × ((op s).0 ≡ some e))
      → ((s : S) → calls (op s).1 ≡ calls s + 1)
      → (n : ℕ) (s : S)
      → (e : Error) × ((up_to n op s).0 ≡ some e) × (calls (up_to n op s).1 ≡ calls s + suc n)
  unfolding up_to
  up_to_fails op calls bad one zero s = ((bad s).0, (bad s).1, omega (arith, one s))
  up_to_fails op calls bad one (suc n) s =
      let step = up_to_again n op s (bad s).1 in
      let (e, failed, count) = up_to_fails op calls bad one n (op s).1 in
      (e, ap (λ r. r.0) step ∙ failed, ap (λ r. calls r.1) step ∙ omega (arith, count, one s))
