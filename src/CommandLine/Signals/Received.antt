-- ===== src/CommandLine/Signals/Received.antt =====
-- Which signals end the process.
use syncflux.Prelude.{arith, ◌≡◌, refl, ap, false, Option, none, some, List, [], ◌∷◌, ℕ}
use syncflux.CommandLine.Signals.{
  Signal, sigint, sigterm, sighup, Process, started, on_signal, receive, receive_all,
}

-- The exit that a list of signals asks for by its first one.
abbrev pub exit_of : List Signal → Option ℕ
exit_of [] = none
exit_of (sigterm ∷ later) = some 1
exit_of (sigint ∷ later) = some 1
exit_of (sighup ∷ later) = none

deaf : (sigs : List Signal) (p : Process) → p.waits ≡ false → receive_all sigs p ≡ p
unfolding receive_all receive
deaf [] p h = refl
deaf (sig ∷ sigs) p h = ground (arith, h, deaf sigs p h)

-- Only the first signal counts: the process exits, with 1, if that is SIGTERM or SIGINT; after a first SIGHUP no
-- further signal ends it.
pub receive_all_lem : (sigs : List Signal) → (receive_all sigs started).exit_code ≡ exit_of sigs
unfolding receive_all receive on_signal
receive_all_lem [] = refl
receive_all_lem (sigterm ∷ sigs) =
    ap (λ (p : Process). p.exit_code) (deaf sigs (receive sigterm started) refl)
receive_all_lem (sigint ∷ sigs) =
    ap (λ (p : Process). p.exit_code) (deaf sigs (receive sigint started) refl)
receive_all_lem (sighup ∷ sigs) =
    ap (λ (p : Process). p.exit_code) (deaf sigs (receive sighup started) refl)
