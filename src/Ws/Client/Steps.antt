-- ===== src/Ws/Client/Steps.antt =====
-- The events that drive the client of src/ws/reconnecting-websocket-client.ts, and what every history
-- of them keeps.
use pok_poly_kalshi.Prelude.{
  ℕ, suc, ◌≤◌, String, Bool, true, ◌≡◌, refl, Option, none, some, List, arith,
}
use pok_poly_kalshi.Ws.Reconnect.{ReconnectDelay, compute_reconnect_delay}
use pok_poly_kalshi.Ws.Reconnect.Bounds.{reconnect_delay_bounds}
use pok_poly_kalshi.Ws.Client.{
  Client, close, ensure_socket, start_heartbeat, on_open, on_message, schedule_reconnect, on_close,
  heartbeat, reconnect,
}

-- What a subclass, the package and the timers may do. A timer fires only while it is armed.
pub data Step : Client → Client → Type 0 where
  -- A subclass replaces the desired subscriptions and calls `ensureSocket`.
  subscribes :
      (c : Client) (desired : List String) (created : Option ℕ)
      → Step c (ensure_socket (record c { desired = desired }) created)
  closes : (c : Client) → Step c (close c)
  opens : (c : Client) (s now : ℕ) → Step c (on_open c s now)
  receives : (c : Client) (real : Bool) (now : ℕ) → Step c (on_message c real now)
  loses :
      (c : Client) (s now : ℕ) (backoff_until : Option ℕ) → Step c (on_close c s now backoff_until)
  beats : (c : Client) (s now : ℕ) → c.heartbeat_timer ≡ some s → Step c (heartbeat c s now)
  retries :
      (c : Client) (d : ReconnectDelay) (created : Option ℕ)
      → c.reconnect_timer ≡ some d
      → Step c (reconnect c created)

pub data Reach (c : Client) : Client → Type 0 where
  here : Reach c c
  next : {d e : Client} → Reach c d → Step d e → Reach c e

abbrev DelayIsFair : Option ReconnectDelay → Type 0
DelayIsFair none = Unit
DelayIsFair (some d) = 1000 ≤ d.delay_ms

pub record Inv (c : Client) : Type 0 where
  -- A deliberate close leaves nothing behind that would connect again.
  pub quiet : c.intentional_close ≡ true → (c.socket ≡ none) × (c.reconnect_timer ≡ none)
  -- A reconnect waits for at least a second.
  pub fair : DelayIsFair c.reconnect_timer

delay_fair :
    (attempt now : ℕ) (until : Option ℕ)
    → 1000 ≤ (compute_reconnect_delay attempt now none until).delay_ms
delay_fair attempt now until = ground (arith, reconnect_delay_bounds attempt now none until)

close-Inv : (c : Client) → Inv (close c)
unfolding close
close-Inv c = record { quiet = ground arith; fair = ground arith }

ensure_socket-Inv : (c : Client) (created : Option ℕ) → Inv c → Inv (ensure_socket c created)
unfolding ensure_socket
ensure_socket-Inv c created i = ground (arith, close-Inv c)

on_close-Inv : (c : Client) (s now : ℕ) (until : Option ℕ) → Inv c → Inv (on_close c s now until)
unfolding on_close schedule_reconnect
on_close-Inv c s now until i = ground (arith, delay_fair (suc c.reconnect_attempts) now until)

Step-Inv : {c d : Client} → Step c d → Inv c → Inv d
unfolding on_open start_heartbeat on_message heartbeat reconnect
Step-Inv (subscribes c desired created) i =
    ensure_socket-Inv (record c { desired = desired }) created
      (record { quiet = i.quiet; fair = i.fair })
Step-Inv (closes c) i = close-Inv c
Step-Inv (opens c s now) i = record { quiet = ground arith; fair = ground arith }
Step-Inv (receives c real now) i = ground arith
Step-Inv (loses c s now until) i = on_close-Inv c s now until i
Step-Inv (beats c s now e) i = record { quiet = ground arith; fair = ground arith }
Step-Inv (retries c d created e) i =
    ensure_socket-Inv (record c { reconnect_timer = none }) created
      (record { quiet = λ h. ((i.quiet h).0, refl); fair = tt })

-- Every history of events keeps: after a deliberate close there is neither a current socket nor an
-- armed reconnect, until a socket is created again; and an armed reconnect waits at least one second.
pub Reach-Inv : {c d : Client} → Inv c → Reach c d → Inv d
Reach-Inv i here = i
Reach-Inv i (next r st) = Step-Inv st (Reach-Inv i r)
