-- ===== src/Server/Loop.antt =====
-- server/src/server/mod.rs: `client_loop`, which handles a client until it leaves. What the client sends
-- comes in parts, each behind a wait.
pub mod Fuel
pub mod Enough
use t1_tp.Common.{
  ℕ, zero, suc, ◌+◌, ◌-◌, ltb, Bool, true, false, List, [], ◌∷◌, length, Option, none, some,
  if◌then◌else◌,
}
use t1_tp.Packets.Error.{IoError}
use t1_tp.Packets.Header.{PacketType, same_type}
use t1_tp.Topics.Tree.{ClientId}
use t1_tp.Server.Result.{ServerErrorKind, ServerResult, ok, err, panic, timeout, other}
use t1_tp.Server.Action.{Action, pure, fail, lift, ◌>>=◌, ◌>>◌}
use t1_tp.Server.Client.{StreamIo, keep_alive, send_unacknowledged}
use t1_tp.Server.Processing.{Server, on_client}
use t1_tp.Server.Processing.Incoming.{process_packet}

-- `MIN_ELAPSED_TIME`, in milliseconds
abbrev pub min_elapsed_time : Option ℕ
min_elapsed_time = some 2000

-- A part of what a client sends: what the other threads do before it, its bytes, the error that a
-- read behind them answers, and the time of that.
pub record Arrival (S I L : Type 0) : Type 0 where
  pub meanwhile : Server S I L → Server S I L
  pub bytes : List ℕ
  pub end_error : IoError
  pub now : ℕ

-- Whether `err.kind()` is `Timeout`
unfoldable pub is_timeout : ServerErrorKind → Bool
is_timeout timeout = true
is_timeout _ = false

-- Whether the keep-alive time is over; a clock that has gone back is an error.
unfoldable pub check_keep_alive : Option ℕ → ℕ → ℕ → ServerResult Bool
check_keep_alive none last_activity now = ok false
check_keep_alive (some time) last_activity now =
    if ltb now last_activity then err other else ok (ltb time (now - last_activity))

module _ {S I L : Type 0} (io : StreamIo S) where
  -- The iterations of the loop that read from one part, on fuel for its packets: whether there were
  -- some, and the error behind them unless a DISCONNECT comes. `none` says that the fuel is used up.
  unfoldable pub read_packets :
      ℕ
      → IoError
      → Bool
      → List ℕ
      → ClientId
      → Server S I L
      → Option (ServerResult (Bool × Option ServerErrorKind) × Server S I L)
  read_packets zero e active bytes id s = none
  read_packets (suc fuel) e active bytes id s =
      let (result, s') = process_packet io e bytes id s in
      elim result [
        | err kind ↦ some (ok (active, some kind), s')
        | panic ↦ some (panic, s')
        | ok (packet_type, rest) ↦ elim (same_type packet_type PacketType.disconnect) [
          | true ↦ some (ok (true, none), s')
          | false ↦ read_packets fuel e true rest id s'
        ]
      ]

  -- One part with as much fuel as it needs: each packet takes a byte of it or more.
  unfoldable pub read_part :
      Arrival S I L → ClientId → Action (Server S I L) (Bool × Option ServerErrorKind)
  read_part part id s =
      elim (read_packets (1 + length part.bytes) part.end_error false part.bytes id
        (part.meanwhile s)) [ none ↦ (panic, s) | some answer ↦ answer ]

  -- The loop over the parts. Its answer is whether the client leaves gracefully, if it leaves.
  unfoldable pub serve :
      ClientId → Option ℕ → ℕ → List (Arrival S I L) → Action (Server S I L) (Option Bool)
  serve id keep_alive_opt last_activity [] s = (ok none, s)
  serve id keep_alive_opt last_activity (part ∷ parts) s =
      let (result, s') = read_part part id s in
      elim result [
        | err kind ↦ (err kind, s')
        | panic ↦ (panic, s')
        | ok (active, none) ↦ (ok (some true), s')
        | ok (active, some kind) ↦ elim (is_timeout kind) [
          | false ↦ (ok (some false), s')
          | true ↦
              let last_activity' = if active then part.now else last_activity in
              (do
                on_client id (λ client. send_unacknowledged io min_elapsed_time part.now client)
                is_over ← lift (check_keep_alive keep_alive_opt last_activity' part.now)
                elim is_over [
                  | true ↦ pure (some false)
                  | false ↦ serve id keep_alive_opt last_activity' parts
                ])
                s'
        ]
      ]

  -- `client_loop`, from the time at which it starts
  unfoldable pub client_loop :
      ClientId → ℕ → List (Arrival S I L) → Action (Server S I L) (Option Bool)
  client_loop id now parts = do
    keep_alive_opt ← on_client id (λ client. (ok (keep_alive client), client))
    serve id keep_alive_opt now parts
