-- ===== src/Try.antt =====
-- pkg/agent/try/try.go: a function is called again until it succeeds or gives up.
pub mod Reference
pub mod Calls
use syncflux.Prelude.{ℕ, zero, suc, ◌+◌, ◌-◌, Bool, not, ◌||◌, Option, none, some, if◌then◌else◌}
use syncflux.Go.{Error, max_retries_reached, is_nil}

abbrev pub max_retries : ℕ
max_retries = 10

-- `type Func func(attempt int) (retry bool, err error)`; what it captures is the state `S`.
abbrev pub Func : Type 0 → Type 0
Func S = ℕ → S → Bool × Option Error × S

-- The loop of `Do`. `rounds` is `MaxRetries - attempt`: the test `attempt > MaxRetries` after
-- `attempt++` holds exactly when no round is left.
unfoldable pub do_from : {S : Type 0} → ℕ → Func S → ℕ → S → Option Error × S
do_from zero fn attempt s =
    let (cont, err, s') = fn attempt s in
    if not cont || is_nil err then (err, s') else (some max_retries_reached, s')
do_from (suc rounds) fn attempt s =
    let (cont, err, s') = fn attempt s in
    let again = do_from rounds fn (attempt + 1) s' in
    if not cont || is_nil err then (err, s') else again

-- Do.
unfoldable pub do_retry : {S : Type 0} → Func S → S → Option Error × S
unfolding do_from
do_retry fn s = do_from (max_retries - 1) fn 1 s

-- IsMaxRetries.
unfoldable pub is_max_retries : Option Error → Bool
is_max_retries (some max_retries_reached) = Bool.true
is_max_retries _ = Bool.false
