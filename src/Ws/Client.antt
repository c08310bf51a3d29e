-- ===== src/Ws/Client.antt =====
-- src/ws/reconnecting-websocket-client.ts: the socket state machine of the two book feeds. The
-- sockets of the `ws` package and the venue hooks are not modelled but for what the class reads and
-- calls: `ready` is the `readyState` of each socket, which the package changes, the socket that
-- `createSocket` returns is an argument, and the hooks that only act for the venue are kept, newest
-- first, in `effects`.
pub mod Steps
pub mod Recovery
use pok_poly_kalshi.Prelude.{
  ℕ, suc, String, Bool, true, false, Option, none, some, List, [], ◌∷◌, ◌&&◌, ◌||◌, not,
}
use pok_poly_kalshi.Prelude.Tests.{if◌then◌else◌, is_some, leb, ◌==◌, nat_key}
use pok_poly_kalshi.Prelude.Lists.{length}
use pok_poly_kalshi.Ws.Reconnect.{
  ReconnectDelay, compute_reconnect_delay, should_force_feed_reconnect, FeedState,
}

-- `WebSocket.readyState`.
pub data ReadyState : Type 0 where
  connecting opened closing closed : ReadyState

-- Calls of the hooks and of the socket.
pub data Effect : Type 0 where
  on_open_hook send_heartbeat socket_close : ℕ → Effect
  reset_subscription_state : Effect

pub record Client : Type 0 where
  pub desired : List String
  pub socket : Option ℕ
  pub reconnect_timer : Option ReconnectDelay
  pub reconnect_attempts : ℕ
  pub intentional_close : Bool
  pub last_message_at : ℕ
  -- The socket that the heartbeat interval watches.
  pub heartbeat_timer : Option ℕ
  pub feed_silence_ms : ℕ
  pub sends_ping : Bool
  pub ready : ℕ → ReadyState
  pub effects : List Effect

abbrev pub become : (ℕ → ReadyState) → ℕ → ReadyState → ℕ → ReadyState
become ready s state t = if s == t then state else ready t

abbrev pub is_open : ReadyState → Bool
is_open opened = true
is_open _ = false

abbrev is_open_or_connecting : ReadyState → Bool
is_open_or_connecting connecting = true
is_open_or_connecting opened = true
is_open_or_connecting _ = false

abbrev pub is_current : Option ℕ → ℕ → Bool
is_current none s = false
is_current (some t) s = t == s

-- `this.socket && (… OPEN || … CONNECTING)`.
abbrev has_live_socket : Option ℕ → (ℕ → ReadyState) → Bool
has_live_socket none ready = false
has_live_socket (some s) ready = is_open_or_connecting (ready s)

abbrev close_socket : Client → Option ℕ → Client
close_socket c none = c
close_socket c (some s) = record c {
  ready = become c.ready s closing;
  effects = socket_close s ∷ c.effects;
}

unfoldable pub close : Client → Client
close c =
    let c' =
      close_socket
        (record c {
          intentional_close = true;
          reconnect_timer = none;
          heartbeat_timer = none;
          effects = reset_subscription_state ∷ c.effects;
        })
        c.socket in
    record c' { socket = none }

abbrev adopt : Client → Option ℕ → Client
adopt c none = c
adopt c (some s) = record c {
  socket = some s;
  intentional_close = false;
  ready = become c.ready s connecting;
}

abbrev pub is_empty : List String → Bool
is_empty [] = true
is_empty (t ∷ ts) = false

-- `created` is what `createSocket` returns when it is called.
unfoldable pub ensure_socket : Client → Option ℕ → Client
ensure_socket c created =
    if is_empty c.desired
    then close c
    else if has_live_socket c.socket c.ready
    then c
    else adopt c created

unfoldable pub start_heartbeat : Client → ℕ → Client
start_heartbeat c s =
    if leb c.feed_silence_ms 0 && not c.sends_ping
    then record c { heartbeat_timer = none }
    else record c { heartbeat_timer = some s }

-- The handler of "open"; the package has made the socket open.
unfoldable pub on_open : Client → ℕ → ℕ → Client
on_open c s now =
    start_heartbeat
      (record c {
        ready = become c.ready s opened;
        reconnect_attempts = 0;
        last_message_at = now;
        effects = on_open_hook s ∷ c.effects;
      })
      s

-- The handler of "message": the hook marks the time if a real book frame arrived.
unfoldable pub on_message : Client → Bool → ℕ → Client
on_message c real now = if real then record c { last_message_at = now } else c

unfoldable pub schedule_reconnect : Client → ℕ → Option ℕ → Client
schedule_reconnect c now backoff_until =
    let attempts = suc c.reconnect_attempts in
    if is_some c.reconnect_timer || is_empty c.desired then c else record c {
      reconnect_attempts = attempts;
      reconnect_timer = some (compute_reconnect_delay attempts now none backoff_until);
    }

-- The handler of "close", whichever socket was closed; `backoff_until` is the answer of
-- `reconnectRateLimitBackoffUntil`.
unfoldable pub on_close : Client → ℕ → ℕ → Option ℕ → Client
on_close c s now backoff_until =
    let c' = record c {
      ready = become c.ready s closed;
      socket = none;
      heartbeat_timer = none;
      effects = reset_subscription_state ∷ c.effects;
    } in
    if c.intentional_close then c' else schedule_reconnect c' now backoff_until

unfoldable pub is_silent : Client → ℕ → ℕ → Bool
is_silent c s now = should_force_feed_reconnect (record {
  now = now;
  last_message_at = c.last_message_at;
  feed_silence_ms = c.feed_silence_ms;
  desired_subscriptions = length c.desired;
  socket_open = is_open (c.ready s);
})

-- The body of the heartbeat interval that was started for the socket.
unfoldable pub heartbeat : Client → ℕ → ℕ → Client
heartbeat c s now =
    if not (is_current c.socket s) || not (is_open (c.ready s))
    then record c { heartbeat_timer = none }
    else if is_silent c s now
    then record c { ready = become c.ready s closing; effects = socket_close s ∷ c.effects }
    else if c.sends_ping
    then record c { effects = send_heartbeat s ∷ c.effects }
    else c

-- The body of the reconnect timeout.
unfoldable pub reconnect : Client → Option ℕ → Client
reconnect c created = ensure_socket (record c { reconnect_timer = none }) created
