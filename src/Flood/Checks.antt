-- ===== src/Flood/Checks.antt =====
-- The methods of `FloodState` (src/irc/flood.rs). Each takes the instant of the event and returns
-- the new state with its verdict.
use repartee_desktop.Base.{
  ℕ, ◌+◌, Bool, true, false, not, ◌&&◌, ◌||◌, ltb, leb, ◌==◌, if◌then◌else◌, none, some, List, [],
  ◌∷◌, ◌++◌, length, is_empty, any, retain, count_if, Text,
}
use repartee_desktop.Base.Maps.{get, insert, remove, size, ℕ_eq, Text_eq}
use repartee_desktop.Flood.{
  FloodState, FloodResult, allow, triggered, blocked, prune_window, cutoff, in_block, or_default,
  drop_idle, drop_expired, ctcp_threshold, ctcp_window, ctcp_block, tilde_nick_threshold,
  tilde_nick_window, tilde_nick_block, pm_storm_threshold, pm_storm_window, pm_storm_block,
  dup_min_in_window, dup_threshold, dup_window, dup_block, nick_threshold, nick_window, nick_block,
}

unfoldable pub check_ctcp_flood : FloodState → ℕ → FloodState × FloodResult
unfolding prune_window
check_ctcp_flood s now =
    if in_block now s.ctcp_blocked_until
    then (record s { ctcp_blocked_until = some (now + ctcp_block) }, blocked)
    else (let (times, count) = prune_window (s.ctcp_times ++ now ∷ []) now ctcp_window in
        if leb ctcp_threshold count
        then (record s { ctcp_times = []; ctcp_blocked_until = some (now + ctcp_block) }, triggered)
        else (record s { ctcp_times = times; ctcp_blocked_until = none }, allow))

-- The cleanup at the end of the method: only when more than 200 nicks are tracked.
tilde_cleanup : FloodState → ℕ → FloodState
unfolding size
tilde_cleanup s now =
    if ltb 200 (size s.tilde_nick_times)
    then record s {
      tilde_nick_times = drop_idle (cutoff now tilde_nick_window) s.tilde_nick_times;
      tilde_nick_blocked = drop_expired now s.tilde_nick_blocked;
    }
    else s

-- The counting part, once the nick is known not to be blocked.
tilde_count : FloodState → ℕ → ℕ → FloodState × FloodResult
unfolding prune_window tilde_cleanup
tilde_count s h now =
    let (times, count) =
      prune_window (or_default (get h s.tilde_nick_times) ++ now ∷ []) now tilde_nick_window in
    if leb tilde_nick_threshold count
    then (
      record s {
        tilde_nick_times = insert h [] s.tilde_nick_times;
        tilde_nick_blocked = insert h (now + tilde_nick_block) s.tilde_nick_blocked;
      },
      triggered,
    )
    else (
      tilde_cleanup (record s { tilde_nick_times = insert h times s.tilde_nick_times }) now,
      allow,
    )

unfoldable pub check_tilde_nick_flood :
    (Text → ℕ) → FloodState → Text → ℕ → FloodState × FloodResult
unfolding tilde_count
check_tilde_nick_flood hash_text s nick now =
    let h = hash_text nick in
    if in_block now (get h s.tilde_nick_blocked)
    then (
      record s { tilde_nick_blocked = insert h (now + tilde_nick_block) s.tilde_nick_blocked },
      blocked,
    )
    else tilde_count (record s { tilde_nick_blocked = remove h s.tilde_nick_blocked }) h now

-- The loop of `unique_count`, over the hashes seen so far.
unfoldable pub unique_from : List ℕ → List (ℕ × ℕ) → ℕ
unique_from seen [] = length seen
unique_from seen ((h, t) ∷ entries) =
    unique_from (if any (◌==◌ h) seen then seen else seen ++ h ∷ []) entries

unfoldable pub unique_count : List (ℕ × ℕ) → ℕ
unfolding unique_from
unique_count entries = unique_from [] entries

unfoldable pub check_pm_tilde_storm : (Text → ℕ) → FloodState → Text → ℕ → FloodState × FloodResult
check_pm_tilde_storm hash_text s nick now =
    if in_block now s.pm_storm_blocked_until
    then (record s { pm_storm_blocked_until = some (now + pm_storm_block) }, blocked)
    else (let entries =
          retain (λ (e : ℕ × ℕ). leb (cutoff now pm_storm_window) e.1)
            (s.pm_storm_nicks ++ (hash_text nick, now) ∷ []) in
        if leb pm_storm_threshold (unique_count entries)
        then (
          record s { pm_storm_nicks = []; pm_storm_blocked_until = some (now + pm_storm_block) },
          triggered,
        )
        else (record s { pm_storm_nicks = entries; pm_storm_blocked_until = none }, allow))

-- The counting part, once the text is known not to be blocked.
duplicate_count : FloodState → ℕ → ℕ → FloodState × FloodResult
unfolding size
duplicate_count s h now =
    let window =
      retain (λ (e : ℕ × ℕ). leb (cutoff now dup_window) e.1) (s.msg_window ++ (h, now) ∷ []) in
    let dupes = count_if (λ (e : ℕ × ℕ). e.0 == h) window in
    if leb dup_min_in_window (length window) && leb dup_threshold dupes
    then (
      record s { msg_window = window; blocked_texts = insert h (now + dup_block) s.blocked_texts },
      triggered,
    )
    else (
      record s {
        msg_window = window;
        blocked_texts =
            if ltb 50 (size s.blocked_texts)
            then drop_expired now s.blocked_texts
            else s.blocked_texts;
      },
      allow,
    )

unfoldable pub check_duplicate_flood :
    (Text → ℕ) → FloodState → Text → Bool → ℕ → FloodState × FloodResult
unfolding duplicate_count
check_duplicate_flood hash_text s text is_channel now =
    if not is_channel || is_empty text
    then (s, allow)
    else (let h = hash_text text in
        if in_block now (get h s.blocked_texts)
        then (record s { blocked_texts = insert h (now + dup_block) s.blocked_texts }, blocked)
        else duplicate_count s h now)

nick_cleanup : FloodState → ℕ → FloodState
unfolding size
nick_cleanup s now =
    if ltb 200 (size s.nick_times)
    then record s {
      nick_times = drop_idle (cutoff now nick_window) s.nick_times;
      nick_blocked_until = drop_expired now s.nick_blocked_until;
    }
    else s

nick_count : FloodState → Text → ℕ → FloodState × Bool
unfolding prune_window nick_cleanup
nick_count s buffer_id now =
    let (times, count) =
      prune_window (or_default (get buffer_id s.nick_times) ++ now ∷ []) now nick_window in
    if leb nick_threshold count
    then (
      record s {
        nick_times = insert buffer_id [] s.nick_times;
        nick_blocked_until = insert buffer_id (now + nick_block) s.nick_blocked_until;
      },
      true,
    )
    else (nick_cleanup (record s { nick_times = insert buffer_id times s.nick_times }) now, false)

unfoldable pub should_suppress_nick_flood : FloodState → Text → ℕ → FloodState × Bool
unfolding nick_count
should_suppress_nick_flood s buffer_id now =
    if in_block now (get buffer_id s.nick_blocked_until)
    then (
      record s { nick_blocked_until = insert buffer_id (now + nick_block) s.nick_blocked_until },
      true,
    )
    else nick_count (record s { nick_blocked_until = remove buffer_id s.nick_blocked_until })
        buffer_id now

unfoldable pub remove_buffer : FloodState → Text → FloodState
remove_buffer s buffer_id = record s {
  nick_times = remove buffer_id s.nick_times;
  nick_blocked_until = remove buffer_id s.nick_blocked_until;
}
