-- ===== src/Try/Calls.antt =====
-- How often `Do` calls its function, whatever the function is.
use syncflux.Prelude.{ℕ, zero, suc, ◌+◌, ◌≤◌, ◌≡◌, arith}
use syncflux.Try.{Func, max_retries, do_from, do_retry}

module _ {S : Type 0} where
  -- The function, with a count of its calls in the state.
  abbrev pub counted : Func S → Func (ℕ × S)
  counted fn attempt (n, s) = let (cont, e, s') = fn attempt s in (cont, e, (n + 1, s'))

  -- The result is the uncounted one, after `calls` more calls, of which there is one at least and
  -- `rounds + 1` at most.
  record Counts (rounds : ℕ) (fn : Func S) (attempt n : ℕ) (s : S) : Type 0 where
    error : (do_from rounds (counted fn) attempt (n, s)).0 ≡ (do_from rounds fn attempt s).0
    state : (do_from rounds (counted fn) attempt (n, s)).1.1 ≡ (do_from rounds fn attempt s).1
    some_call : n + 1 ≤ (do_from rounds (counted fn) attempt (n, s)).1.0
    bounded : (do_from rounds (counted fn) attempt (n, s)).1.0 ≤ n + rounds + 1

  do_from-Counts : (rounds : ℕ) (fn : Func S) (attempt n : ℕ) (s : S) → Counts rounds fn attempt n s
  unfolding do_from
  do_from-Counts zero fn attempt n s = ground arith
  do_from-Counts (suc r) fn attempt n s =
      ground (arith, do_from-Counts r fn (attempt + 1) (n + 1) (fn attempt s).2)

  -- `Do` calls its function once at least and ten times at most, and counting does not change what it
  -- returns.
  pub do_retry_calls :
      (fn : Func S) (s : S)
      → ((do_retry (counted fn) (0, s)).0 ≡ (do_retry fn s).0)
        × ((do_retry (counted fn) (0, s)).1.1 ≡ (do_retry fn s).1)
        × (1 ≤ (do_retry (counted fn) (0, s)).1.0)
        × ((do_retry (counted fn) (0, s)).1.0 ≤ max_retries)
  unfolding do_retry
  do_retry_calls fn s =
      let c = do_from-Counts 9 fn 1 0 s in
      (c.error, c.state, omega (arith, c.some_call), omega (arith, c.bounded))
