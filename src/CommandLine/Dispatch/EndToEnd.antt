-- ===== src/CommandLine/Dispatch/EndToEnd.antt =====
-- The command line, from its texts to the commands that the databases get.
use syncflux.Go.Time.{Time}
use syncflux.Config.{Config}
