-- ===== src/Examples/Sockets.antt =====
-- Concrete inputs for src/ws.
use pok_poly_kalshi.Prelude.{true, false, ◌≡◌, refl, none, some, [], ◌∷◌, arith}
use pok_poly_kalshi.Ws.Reconnect.{compute_reconnect_delay}
use pok_poly_kalshi.Ws.Client.{
  Client, opened, closing, connecting, socket_close, become, close, ensure_socket, on_close,
  heartbeat, reconnect,
}
use pok_poly_kalshi.Ws.Client.Steps.{Inv, here, next, subscribes, closes, Reach-Inv}
use pok_poly_kalshi.Ws.Client.Recovery.{silence-reconnects, stale_close-drops}

-- A new client of a book feed.
abbrev fresh : Client
fresh = record {
  desired = [];
  socket = none;
  reconnect_timer = none;
  reconnect_attempts = 0;
  intentional_close = false;
  last_message_at = 0;
  heartbeat_timer = none;
  feed_silence_ms = 30_000;
  sends_ping = true;
  ready = λ s. connecting;
  effects = [];
}

fresh-Inv : Inv fresh
fresh-Inv = record { quiet = ground arith; fair = tt }

abbrev subscribed : Client
subscribed = ensure_socket (record fresh { desired = "token" ∷ [] }) (some 1)

Reach-Inv_example : Inv (close subscribed)
Reach-Inv_example =
    Reach-Inv fresh-Inv
      (next (next here (subscribes fresh ("token" ∷ []) (some 1))) (closes subscribed))

-- A client whose socket 2 is open and was last heard at 5,000.
abbrev streaming : Client
streaming = record {
  desired = "token" ∷ [];
  socket = some 2;
  reconnect_timer = none;
  reconnect_attempts = 0;
  intentional_close = false;
  last_message_at = 5000;
  heartbeat_timer = some 2;
  feed_silence_ms = 30_000;
  sends_ping = true;
  ready = λ s. opened;
  effects = [];
}

silence-reconnects_example :
    let d = heartbeat streaming 2 40_000 in
    let e = on_close d 2 40_001 none in
    (d ≡ record streaming {
      ready = become streaming.ready 2 closing;
      effects = socket_close 2 ∷ [];
    })
    × (e.reconnect_timer ≡ some (compute_reconnect_delay 1 40_001 none none))
silence-reconnects_example =
    silence-reconnects streaming 2 40_000 40_001 none refl refl (omega arith) (omega arith)
      (omega arith) refl refl

stale_close-drops_example :
    let d = on_close streaming 1 6000 none in
    let e = reconnect d (some 3) in
    (d.socket ≡ none) × (d.ready 2 ≡ opened) × (e.socket ≡ some 3) × (e.ready 2 ≡ opened)
stale_close-drops_example =
    stale_close-drops streaming 1 2 6000 3 none (λ e. absurd (omega arith))
      (λ e. absurd (omega arith)) refl refl refl refl refl
