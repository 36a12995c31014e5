-- ===== src/Events/Reconnect.antt =====
-- Losing a connection and coming back: when the client tries again, and what it joins.
use native.Mathlib.Nat.{mul-le-mul_left}
use repartee_desktop.Base.{
  List, text_eq, any, All, true, none, is_empty, ◌+◌, if◌then◌else◌, some, Option, Text, zero, suc,
  ◌^◌, arith, ◌*◌, ◌≤◌, ℕ, ◌≡◌,
}
use repartee_desktop.Events.Retry.{is_down}
use repartee_desktop.Events.Lifecycle.{
  schedule, channel_names, set_error, disconnect, calculate_reconnect_delay, saturate_u64,
}
use repartee_desktop.State.App.{update_connection_status}
use repartee_desktop.Events.{get, Connection, AppState, World}
use repartee_desktop.State.{error, disconnected}
use repartee_desktop.Base.Maps.{get-adjust_self, adjust, Text_eq}

saturate_u64_mono : (a b : ℕ) → a ≤ b → saturate_u64 a ≤ saturate_u64 b
saturate_u64_mono a b h = ground (arith, h)

one_le_two_pow : (n : ℕ) → 1 ≤ 2 ^ n
one_le_two_pow zero = omega arith
one_le_two_pow (suc n) = omega (arith, one_le_two_pow n)

delay_mono :
    (base_delay attempts : ℕ)
    → saturate_u64 (base_delay * saturate_u64 (2 ^ attempts))
      ≤ saturate_u64 (base_delay * saturate_u64 (2 ^ suc attempts))
delay_mono base_delay attempts =
    saturate_u64_mono (base_delay * saturate_u64 (2 ^ attempts))
      (base_delay * saturate_u64 (2 ^ suc attempts))
      (mul-le-mul_left base_delay (
        saturate_u64_mono (2 ^ attempts) (2 ^ suc attempts)
          (omega (arith, one_le_two_pow attempts))))

delay_pos :
    (base_delay attempts : ℕ)
    → 1 ≤ base_delay
    → 1 ≤ saturate_u64 (base_delay * saturate_u64 (2 ^ attempts))
delay_pos base_delay attempts h =
    let one : 1 ≤ saturate_u64 (2 ^ attempts) = ground (arith, one_le_two_pow attempts) in
    let less : base_delay * 1 ≤ base_delay * saturate_u64 (2 ^ attempts) =
      mul-le-mul_left base_delay one in
    saturate_u64_mono 1 (base_delay * saturate_u64 (2 ^ attempts)) (omega (arith, less, h))

-- The delay before an attempt is at most ten minutes and no longer than the one after it; a base
-- delay of at least a second gives a delay of at least a second.
pub calculate_reconnect_delay_lem :
    (base_delay attempts : ℕ)
    → (calculate_reconnect_delay base_delay attempts ≤ 600)
      × (calculate_reconnect_delay base_delay attempts
          ≤ calculate_reconnect_delay base_delay (suc attempts))
      × (1 ≤ base_delay → 1 ≤ calculate_reconnect_delay base_delay attempts)
unfolding calculate_reconnect_delay
calculate_reconnect_delay_lem base_delay attempts =
    let mono = delay_mono base_delay attempts in
    (ground arith, ground (arith, mono), λ h. ground (arith, delay_pos base_delay attempts h))

-- What `disconnect` makes of a connection that is known.
pub get-disconnect :
    (w : World) (s : AppState) (conn_id : Text) (err : Option Text) (c : Connection)
    → get conn_id s.connections ≡ some c
    → (d : Connection) × (get conn_id (disconnect w s conn_id err).connections ≡ some d)
      × (d.should_reconnect ≡ c.should_reconnect)
      × (d.next_reconnect ≡ (
          if c.should_reconnect
          then some (
              w.instant
              + calculate_reconnect_delay c.reconnect_delay_secs c.reconnect_attempts * 1000)
          else c.next_reconnect))
      × (d.joined_channels ≡ (
          if is_empty (channel_names conn_id s.buffers)
          then c.joined_channels
          else channel_names conn_id s.buffers))
      × (is_down d.status ≡ true)
unfolding disconnect set_error update_connection_status
get-disconnect w s conn_id none c h =
    let names = channel_names conn_id s.buffers in
    let marked = record c { status = disconnected } in
    let m =
      adjust conn_id (λ (c' : Connection). record c' { status = disconnected }) s.connections in
    (
      schedule w names marked,
      get-adjust_self conn_id (schedule w names) m marked (
          get-adjust_self conn_id (λ (c' : Connection). record c' { status = disconnected })
            s.connections c h),
      ground arith,
      ground arith,
      ground arith,
      ground arith,
    )
get-disconnect w s conn_id (some e) c h =
    let names = channel_names conn_id s.buffers in
    let marked = record c { status = error; error_text = some e } in
    let mark = λ (c' : Connection). record c' { status = error; error_text = some e } in
    (
      schedule w names marked,
      get-adjust_self conn_id (schedule w names) (adjust conn_id mark s.connections) marked
          (get-adjust_self conn_id mark s.connections c h),
      ground arith,
      ground arith,
      ground arith,
      ground arith,
    )

-- Each of the names is among the channels.
abbrev pub Listed : List Text → List Text → Type 0
Listed channels names = All (λ name. any (text_eq name) channels ≡ true) names
