-- ===== src/CommandLine/Signals.antt =====
-- The goroutine of main in pkg/main.go that waits for a signal. It reads its channel once; a signal that
-- nobody waits for is dropped, since the channel has no buffer, and does not end the process either.
pub mod Received
use syncflux.Prelude.{ℕ, Bool, true, false, Option, none, some, List, [], ◌∷◌, if◌then◌else◌}

-- The signals that main asks for.
pub data Signal : Type 0 where
  sigint sigterm sighup : Signal

-- The code that the process has exited with, and whether the goroutine still waits.
pub record Process : Type 0 where
  pub exit_code : Option ℕ
  pub waits : Bool

abbrev pub started : Process
started = record { exit_code = none; waits = true }

-- The switch on the signal; agent.End and agent.ReloadConf change nothing.
unfoldable pub on_signal : Signal → Process → Process
on_signal sigterm p = record p { exit_code = some 1 }
on_signal sigint p = record p { exit_code = some 1 }
on_signal sighup p = p

-- One signal.
unfoldable pub receive : Signal → Process → Process
unfolding on_signal
receive sig p = if p.waits then record (on_signal sig p) { waits = false } else p

-- Signals, one after the other.
unfoldable pub receive_all : List Signal → Process → Process
unfolding receive
receive_all [] p = p
receive_all (sig ∷ sigs) p = receive_all sigs (receive sig p)
