-- ===== src/CommandLine/Settings.antt =====
-- The flags of pkg/main.go and its init, which reads the configuration and settles what the flags leave
-- open. The package `flag`, viper and logrus are parameters: the flags are given parsed, `load` is
-- ReadInConfig and Unmarshal.
pub mod Limits
use syncflux.Prelude.{
  List, [], ◌∷◌, ℕ, ℤ, pos, negsuc, String, Bool, Option, none, some, str_eq, not, ◌&&◌, ◌==◌,
  if◌then◌else◌, ◌*◌,
}
use syncflux.Go.Text.{concat}
use syncflux.Go.Time.{second}
use syncflux.Config.{GeneralConfig, Config}
use syncflux.Agent.Startup.{choose}

-- The variables that the flags set.
pub record Flags : Type 0 where
  pub version : Bool
  pub action : String
  pub master : String
  pub slave : String
  pub db : String
  pub rp : String
  pub meas : String
  pub newdb : String
  pub newrp : String
  pub chunk : String
  pub start : String
  pub end : String
  pub full : Bool
  pub log_info : Bool
  pub log_debug : Bool
  pub log_trace : Bool
  pub config_file : String
  pub log_mode : String
  pub logs : String
  pub pid_file : String

-- The flags where none is given, in the working directory, with filepath.Join. The log mode takes its default
-- from the log directory.
unfoldable pub default_flags : (String → String → String) → String → Flags
default_flags join appdir = record {
  version = Bool.false;
  action = "hamonitor";
  master = "";
  slave = "";
  db = ".*";
  rp = ".*";
  meas = ".*";
  newdb = "";
  newrp = "";
  chunk = "";
  start = "";
  end = "";
  full = Bool.false;
  log_info = Bool.false;
  log_debug = Bool.false;
  log_trace = Bool.false;
  config_file = join (join appdir "conf") "syncflux.toml";
  log_mode = join appdir "log";
  logs = join appdir "log";
  pid_file = "";
}

-- The levels of logrus that the program names, and ParseLevel without its error, which is not looked at.
pub record Levels (L : Type 0) : Type 0 where
  pub parse_level : String → L
  pub initial : L
  pub info : L
  pub debug : L
  pub trace : L
  pub warn : L

-- What init leaves behind. `log_file` is the file that takes the log in place of the console.
pub record Settings (L : Type 0) : Type 0 where
  pub config : Config
  pub master : String
  pub slave : String
  pub log_dir : String
  pub log_file : Option String
  pub level : L

pub data Started (L : Type 0) : Type 0 where
  exits : ℕ → Started L
  starts : Settings L → Started L

-- A limit that the configuration leaves at zero gets its default.
unfoldable pub or_default : ℤ → ℤ → ℤ
or_default default (pos n) = if n == 0 then default else pos n
or_default default (negsuc n) = negsuc n

unfoldable pub config_defaults : GeneralConfig → GeneralConfig
unfolding or_default
config_defaults general = record general {
  rw_max_retries = or_default (pos 5) general.rw_max_retries;
  rw_retry_delay = or_default (pos (10 * second)) general.rw_retry_delay;
  max_points_on_single_write = or_default (pos 10000) general.max_points_on_single_write;
}

module _ {L : Type 0} (levels : Levels L) where
  -- The monitor takes its level from the configuration, the other actions from the flags.
  unfoldable pub log_level : Flags → GeneralConfig → L
  log_level flags general =
      if str_eq flags.action "hamonitor"
      then (if str_eq general.log_level ""
          then levels.initial
          else levels.parse_level general.log_level)
      else if flags.log_info
      then levels.info
      else if flags.log_debug
      then levels.debug
      else if flags.log_trace
      then levels.trace
      else levels.warn

  unfoldable pub settle : Flags → Config → Settings L
  unfolding log_level config_defaults choose
  settle flags cfg =
      let log_dir = choose flags.logs cfg.general.log_dir in
      record {
        config = record cfg { general = config_defaults cfg.general };
        master = choose flags.master cfg.general.master_db;
        slave = choose flags.slave cfg.general.slave_db;
        log_dir = log_dir;
        log_file =
            if str_eq flags.action "hamonitor" && str_eq flags.log_mode "file"
            then some (concat (log_dir ∷ "/syncflux.log" ∷ []))
            else none;
        level = log_level flags cfg.general;
      }

  -- init. The version is printed and ends the program; so does an error of the configuration.
  unfoldable pub start_up : (String → Option Config) → Flags → Started L
  unfolding settle
  start_up load flags =
      if flags.version
      then exits 0
      else (elim (load flags.config_file) [ none ↦ exits 1 | some cfg ↦ starts (settle flags cfg) ])
