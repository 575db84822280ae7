-- ===== src/Agent/Monitor.antt =====
-- pkg/agent/influxmonitor.go: the monitor of one database, which pings it on every tick of a clock and
-- keeps the outcome. Its mutexes make each method below one step.
pub mod Status
use syncflux.Prelude.{ℕ, ℤ, pos, ◌-ℤ◌, String, Bool, true, false, Option, none, some, List, [], ◌∷◌}
use syncflux.Go.{Error, external, Result, ok, err}
use syncflux.Go.Time.{Time, Duration, sub}
use syncflux.Config.{InfluxDb}
use syncflux.Influx.{Query, Answer, answered, failed, Response, HttpConfig, Client}

pub record InfluxMonitor (C : Type 0) : Type 0 where
  pub cfg : InfluxDb
  pub check_interval : Duration
  pub last_ok : Time
  pub status_ok : Bool
  pub version : String
  pub ping_duration : Duration
  pub cli : Option C
  pub lastcli : Option C

-- The query `show databases`, as InitPing and Ping send it.
abbrev pub show_databases : Query
show_databases = record {
  command = "show databases";
  database = "";
  retention_policy = "";
  precision = "";
  chunked = false;
  chunk_size = 0;
}

-- The error of a query's answer: the call's own, or the one inside the response.
unfoldable pub answer_error : Answer → Option Error
answer_error (answered r) = r.error
answer_error (failed r e) = some e

module _ {C : Type 0} where
  unfoldable pub set_stat_error : InfluxMonitor C → InfluxMonitor C
  set_stat_error im = record im { status_ok = false }

  unfoldable pub set_stat_ok : Duration → String → Time → InfluxMonitor C → InfluxMonitor C
  set_stat_ok t version now im = record im {
    last_ok = now;
    status_ok = true;
    version = version;
    ping_duration = t;
  }

  -- GetState, at the instant `now`.
  unfoldable pub get_state : InfluxMonitor C → Time → Bool × Time × Duration
  get_state im now = (im.status_ok, im.last_ok, sub now im.last_ok)

  unfoldable pub set_cli : Option C → InfluxMonitor C → InfluxMonitor C
  set_cli cli im = record im { cli = cli }

  unfoldable pub get_cli : InfluxMonitor C → Option C
  get_cli im = im.cli

  unfoldable pub update_cli : InfluxMonitor C → InfluxMonitor C
  update_cli im = record im { cli = im.lastcli }

  module _ {B W : Type 0} (client : Client C W B) where
    -- The end of InitPing: `show databases` on a connection that has been pinged, which is closed
    -- and, if there is no error, kept as the last one.
    show_and_keep :
        InfluxMonitor C
        → C
        → Duration
        → String
        → W
        → Result (C × Duration × String) × InfluxMonitor C × W
    show_and_keep im con dur ver w =
        let (answer, w') = client.query con show_databases w in
        let w'' = client.close con w' in
        elim (answer_error answer) [
          | none ↦ (ok (con, dur, ver), record im { lastcli = some con }, w'')
          | some e ↦ (err e, im, w'')
        ]

    -- InitPing. Every error return gives a nil client.
    unfoldable pub init_ping :
        InfluxMonitor C → W → Result (C × Duration × String) × InfluxMonitor C × W
    unfolding show_and_keep answer_error
    init_ping im w =
        let info : HttpConfig = record {
          addr = im.cfg.location;
          username = im.cfg.admin_user;
          password = im.cfg.admin_passwd;
          user_agent = "";
          timeout = im.cfg.timeout;
        } in
        let (made, w') = client.new_http_client info w in
        elim made [
          | err e ↦ (err e, im, w')
          | ok con ↦
              let (pong, w'') = client.ping con im.cfg.timeout w' in
              elim pong [
                | err e ↦ (err e, im, w'')
                | ok (dur, ver) ↦ show_and_keep im con dur ver w''
              ]
        ]

    -- The rest of Ping, on the client that the monitor has.
    ping_on : InfluxMonitor C → C → W → Result (Duration × String) × W
    ping_on im cli w =
        let (pong, w') = client.ping cli im.cfg.timeout w in
        elim pong [
          | err e ↦ (err e, w')
          | ok (dur, ver) ↦
              let (answer, w'') = client.query cli show_databases w' in
              elim (answer_error answer) [ none ↦ (ok (dur, ver), w'') | some e ↦ (err e, w'') ]
        ]

    -- Ping.
    unfoldable pub ping : InfluxMonitor C → W → Result (Duration × String) × W
    unfolding ping_on answer_error
    ping im w = elim (get_cli im) [
      | none ↦ (err (external "can not ping database, the client is not initialized"), w)
      | some cli ↦ ping_on im cli w
    ]

    -- GetStat, where the clock reads `now` when a good ping is recorded.
    unfoldable pub get_stat : Time → InfluxMonitor C → W → InfluxMonitor C × W
    unfolding init_ping set_stat_ok set_stat_error
    get_stat now im w =
        let (r, im', w') = init_ping im w in
        elim r [
          | err e ↦ (set_stat_error im', w')
          | ok (con, dur, ver) ↦ (set_stat_ok dur ver now im', w')
        ]

    -- The rounds that startMonitorGo makes, one for each tick.
    unfoldable pub monitor : List Time → InfluxMonitor C → W → InfluxMonitor C × W
    unfolding get_stat
    monitor [] im w = (im, w)
    monitor (now ∷ ticks) im w = let (im', w') = get_stat now im w in monitor ticks im' w'
