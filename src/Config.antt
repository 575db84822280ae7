-- ===== src/Config.antt =====
-- pkg/config/mainconfig.go: the configuration, as viper fills it in.
use syncflux.Prelude.{ℤ, String, List}
use syncflux.Go.Time.{Duration}

pub record GeneralConfig : Type 0 where
  pub instance_id : String
  pub log_dir : String
  pub home_dir : String
  pub data_dir : String
  pub log_level : String
  pub sync_mode : String
  pub check_interval : Duration
  pub min_sync_interval : Duration
  pub master_db : String
  pub slave_db : String
  pub initial_replication : String
  pub monitor_retry_interval : Duration
  pub data_chunk_duration : Duration
  pub max_retention_interval : Duration
  pub rw_max_retries : ℤ
  pub rw_retry_delay : Duration
  pub num_workers : ℤ
  pub max_points_on_single_write : ℤ

pub record HttpServerConfig : Type 0 where
  pub bind_addr : String
  pub admin_user : String
  pub admin_password : String
  pub cookie_id : String

pub record InfluxDb : Type 0 where
  pub release : String
  pub name : String
  pub location : String
  pub admin_user : String
  pub admin_passwd : String
  pub timeout : Duration

pub record Config : Type 0 where
  pub general : GeneralConfig
  pub http : HttpServerConfig
  pub influx_array : List InfluxDb
