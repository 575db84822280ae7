-- ===== src/Agent/Connect.antt =====
-- What pkg/agent/client.go has beside the monitors' way to connect: DBclient, and GetFirstTime of a policy.
use syncflux.Prelude.{pos, ◌-ℤ◌, ◌*◌, String, none, some, if◌then◌else◌}
use syncflux.Go.{Result, ok, err}
use syncflux.Go.Time.{Time, Duration, second, add}
use syncflux.Influx.{HttpConfig, Client}
use syncflux.Agent.Schema.{RetPol}
use syncflux.Agent.Monitor.{show_databases, answer_error}
use syncflux.Agent.Replicate.{is_zero}

-- GetFirstTime, at the instant `now`.
unfoldable pub get_first_time : RetPol → Duration → Time → Time
get_first_time rp max now =
    if is_zero rp.duration then add now (pos 0 -ℤ max) else add now (pos 0 -ℤ rp.duration)

module _ {B C W : Type 0} (client : Client C W B) where
  -- DBclient, once the ping is answered.
  connected : C → W → Result C × W
  unfolding answer_error
  connected con w =
      let (answer, w') = client.query con show_databases w in
      elim (answer_error answer) [ none ↦ (ok con, w') | some e ↦ (err e, w') ]

  -- DBclient: a client that has answered a ping and a query.
  unfoldable pub db_client : String → String → String → W → Result C × W
  unfolding connected
  db_client location user pass w =
      let info : HttpConfig = record {
        addr = location;
        username = user;
        password = pass;
        user_agent = "syncflux-agent";
        timeout = pos (120 * second);
      } in
      let (made, w') = client.new_http_client info w in
      elim made [
        | err e ↦ (err e, w')
        | ok con ↦
            let (pong, w'') = client.ping con (pos (10 * second)) w' in
            elim pong [ err e ↦ (err e, w'') | ok answer ↦ connected con w'' ]
      ]
