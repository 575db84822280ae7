-- ===== src/Agent/Monitor/Status.antt =====
-- What a monitor knows of its database after any number of ticks.
use syncflux.Prelude.{arith, ◌≡◌, refl, ap, ◌∙◌, String, true, false, some, List, [], ◌∷◌}
use syncflux.Go.{Result, ok, err}
use syncflux.Go.Time.{Time, Duration}
use syncflux.Influx.{Client}
use syncflux.Agent.Monitor.{InfluxMonitor, init_ping, show_and_keep, get_stat, monitor}

module _ {C : Type 0} where
  -- The reference: what one ping, at an instant, changes in the monitor.
  abbrev pub note : Time → Result (C × Duration × String) → InfluxMonitor C → InfluxMonitor C
  note now (ok (con, dur, ver)) im = record im {
    last_ok = now;
    status_ok = true;
    version = ver;
    ping_duration = dur;
    lastcli = some con;
  }
  note now (err e) im = record im { status_ok = false }

  -- Several of them, in order.
  abbrev pub noted :
      List (Time × Result (C × Duration × String)) → InfluxMonitor C → InfluxMonitor C
  noted [] im = im
  noted ((now, r) ∷ pings) im = noted pings (note now r im)

  module _ {B W : Type 0} (client : Client C W B) where
    -- The pings of the ticks, as a monitor with this configuration makes them.
    unfoldable pub pings :
        List Time → InfluxMonitor C → W → List (Time × Result (C × Duration × String))
    pings [] im w = []
    pings (now ∷ ticks) im w =
        let (r, im', w') = init_ping client im w in (now, r) ∷ pings ticks im w'

    get_stat_lem :
        (now : Time) (im : InfluxMonitor C) (w : W)
        → get_stat client now im w
          ≡ (note now (init_ping client im w).0 im, (init_ping client im w).2)
    unfolding get_stat show_and_keep
    get_stat_lem now im w = ground arith

    -- A ping depends on the monitor's configuration only.
    init_ping_cfg :
        (im im' : InfluxMonitor C) (w : W)
        → im.cfg ≡ im'.cfg
        → ((init_ping client im w).0 ≡ (init_ping client im' w).0)
          × ((init_ping client im w).2 ≡ (init_ping client im' w).2)
    unfolding init_ping show_and_keep
    init_ping_cfg im im' w same = ground arith

    -- A ping leaves the monitor's configuration alone.
    pub cfg-init_ping : (im : InfluxMonitor C) (w : W) → (init_ping client im w).1.cfg ≡ im.cfg
    unfolding init_ping show_and_keep
    cfg-init_ping im w = ground arith

    note_cfg :
        (now : Time) (r : Result (C × Duration × String)) (im : InfluxMonitor C)
        → (note now r im).cfg ≡ im.cfg
    note_cfg now (ok (con, dur, ver)) im = refl
    note_cfg now (err e) im = refl

    pings_cfg :
        (ticks : List Time) (im im' : InfluxMonitor C) (w : W)
        → im.cfg ≡ im'.cfg
        → pings ticks im w ≡ pings ticks im' w
    unfolding pings
    pings_cfg [] im im' w same = refl
    pings_cfg (now ∷ ticks) im im' w same =
        let (first, world) = init_ping_cfg im im' w same in
        ap (λ r. (now, r) ∷ pings ticks im (init_ping client im w).2) first
        ∙ ap (λ w'. (now, (init_ping client im' w).0) ∷ pings ticks im w') world
        ∙ ap (λ ps. (now, (init_ping client im' w).0) ∷ ps) (pings_cfg ticks im im' _ same)

    -- After any number of ticks the monitor is what its pings, noted in their order, make of it: a good
    -- ping sets the instant, the status, the version, the duration and the last client, and a failed one
    -- clears the status and changes nothing else.
    pub monitor-noted :
        (ticks : List Time) (im : InfluxMonitor C) (w : W)
        → (monitor client ticks im w).0 ≡ noted (pings ticks im w) im
    unfolding monitor pings
    monitor-noted [] im w = refl
    monitor-noted (now ∷ ticks) im w =
        let r = (init_ping client im w).0 in
        ap (λ p. (monitor client ticks p.0 p.1).0) (get_stat_lem now im w)
        ∙ monitor-noted ticks (note now r im) _
        ∙ ap (λ ps. noted ps (note now r im))
            (pings_cfg ticks (note now r im) im _ (note_cfg now r im))
