-- ===== src/Ws/Client/Recovery.antt =====
-- How the client of src/ws/reconnecting-websocket-client.ts comes back from a lost or silent feed.
use pok_poly_kalshi.Prelude.{
  ℕ, suc, ◌+◌, ◌<◌, String, true, false, ◌≡◌, refl, ap, ◌≢◌, Option, none, some, List, [], ◌∷◌,
  arith, ◌⊎◌,
}
use pok_poly_kalshi.Prelude.Tests.{nat_beq_iff}
use pok_poly_kalshi.Prelude.Lists.{length}
use pok_poly_kalshi.Ws.Reconnect.{compute_reconnect_delay}
use pok_poly_kalshi.Ws.Reconnect.Bounds.{force_reconnect_iff}
use pok_poly_kalshi.Ws.Client.{
  Client, opened, closing, connecting, socket_close, is_empty, is_open, ensure_socket, on_open,
  start_heartbeat, schedule_reconnect, on_close, is_silent, heartbeat, reconnect, become,
}

-- A socket closes that the client did not close itself, while something is subscribed and no reconnect
-- is armed: the reconnect is armed with the delay of the next attempt. When it fires with a socket
-- created, that socket is current and connecting.
pub close-reconnects :
    (c : Client) (s now t : ℕ) (until : Option ℕ)
    → c.intentional_close ≡ false
    → is_empty c.desired ≡ false
    → c.reconnect_timer ≡ none
    → let d = on_close c s now until in
      let e = reconnect d (some t) in
      (d.reconnect_timer ≡ some (compute_reconnect_delay (suc c.reconnect_attempts) now none until))
      × (d.reconnect_attempts ≡ suc c.reconnect_attempts)
      × (d.socket ≡ none)
      × (e.socket ≡ some t)
      × (e.ready t ≡ connecting)
      × (e.reconnect_timer ≡ none)
      × (e.intentional_close ≡ false)
unfolding on_close schedule_reconnect reconnect ensure_socket
close-reconnects c s now t until h k n = ground (arith, nat_beq_iff t t)

-- An opened socket resets the attempts and the silence clock, and is watched by the heartbeat exactly
-- when the watchdog or the keepalive is on.
pub open-watches :
    (c : Client) (s now : ℕ)
    → let d = on_open c s now in
      (d.reconnect_attempts ≡ 0)
      × (d.last_message_at ≡ now)
      × (d.ready s ≡ opened)
      × ((c.feed_silence_ms ≡ 0) × (c.sends_ping ≡ false) → d.heartbeat_timer ≡ none)
      × ((0 < c.feed_silence_ms) ⊎ (c.sends_ping ≡ true) → d.heartbeat_timer ≡ some s)
unfolding on_open start_heartbeat
open-watches c s now = ground (arith, nat_beq_iff s s)

is_silent-true :
    (c : Client) (s now : ℕ)
    → c.ready s ≡ opened
    → 0 < c.feed_silence_ms
    → 0 < length c.desired
    → c.last_message_at + c.feed_silence_ms < now
    → is_silent c s now ≡ true
unfolding is_silent
is_silent-true c s now up on desired old =
    (force_reconnect_iff (record {
      now = now;
      last_message_at = c.last_message_at;
      feed_silence_ms = c.feed_silence_ms;
      desired_subscriptions = length c.desired;
      socket_open = is_open (c.ready s);
    })).1
      (on, ap is_open up, desired, old)

heartbeat-silent :
    (c : Client) (s now : ℕ)
    → c.socket ≡ some s
    → c.ready s ≡ opened
    → is_silent c s now ≡ true
    → heartbeat c s now
      ≡ record c { ready = become c.ready s closing; effects = socket_close s ∷ c.effects }
unfolding heartbeat
heartbeat-silent c s now current up silent = ground (arith, nat_beq_iff s s)

desired-nonempty : (desired : List String) → 0 < length desired → is_empty desired ≡ false
desired-nonempty [] h = elim h [ ]
desired-nonempty (d ∷ ds) h = refl

on_close-arms :
    (c : Client) (s now : ℕ) (until : Option ℕ)
    → c.intentional_close ≡ false
    → is_empty c.desired ≡ false
    → c.reconnect_timer ≡ none
    → (on_close c s now until).reconnect_timer
      ≡ some (compute_reconnect_delay (suc c.reconnect_attempts) now none until)
unfolding on_close schedule_reconnect
on_close-arms c s now until h k n = ground arith

-- A feed with subscriptions that is silent for longer than allowed, on the current, open socket of a
-- client that was not closed deliberately and has no reconnect armed: the next heartbeat closes the
-- socket and changes nothing else, and the close event that follows arms a reconnect.
pub silence-reconnects :
    (c : Client) (s now later : ℕ) (until : Option ℕ)
    → c.socket ≡ some s
    → c.ready s ≡ opened
    → 0 < c.feed_silence_ms
    → 0 < length c.desired
    → c.last_message_at + c.feed_silence_ms < now
    → c.intentional_close ≡ false
    → c.reconnect_timer ≡ none
    → let d = heartbeat c s now in
      let e = on_close d s later until in
      (d ≡ record c { ready = become c.ready s closing; effects = socket_close s ∷ c.effects })
      × (e.reconnect_timer
          ≡ some (compute_reconnect_delay (suc c.reconnect_attempts) later none until))
silence-reconnects c s now later until current up on desired old h n =
    let beat = heartbeat-silent c s now current up (is_silent-true c s now up on desired old) in
    (
      beat,
      rw beat (
          on_close-arms
            (record c { ready = become c.ready s closing; effects = socket_close s ∷ c.effects }) s
            later until h (desired-nonempty c.desired desired) n),
    )

-- The close handler does not look at which socket was closed. Let the close event of an earlier socket
-- arrive while another socket is current and open, with subscriptions wanted, no deliberate close and
-- no reconnect armed. Then the client has no current socket although that one stays open, and when a
-- reconnect creates a third socket, this one becomes current while the other is still open.
pub stale_close-drops :
    (c : Client) (old new now t : ℕ) (until : Option ℕ)
    → old ≢ new
    → t ≢ new
    → c.socket ≡ some new
    → c.ready new ≡ opened
    → c.intentional_close ≡ false
    → is_empty c.desired ≡ false
    → c.reconnect_timer ≡ none
    → let d = on_close c old now until in
      let e = reconnect d (some t) in
      (d.socket ≡ none) × (d.ready new ≡ opened) × (e.socket ≡ some t) × (e.ready new ≡ opened)
unfolding on_close schedule_reconnect reconnect ensure_socket
stale_close-drops c old new now t until ne ne' current up h k n =
    ground (arith, nat_beq_iff old new, nat_beq_iff t new)
