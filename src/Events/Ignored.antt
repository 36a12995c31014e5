-- ===== src/Events/Ignored.antt =====
-- The question that the handlers of src/irc/events.rs ask of the ignore list.
use repartee_desktop.Base.{some, All, Bool, Option, Text, ◌≡◌}
use repartee_desktop.Events.{Map, IgnoreLevel, AppState, World, is_ignored}
use repartee_desktop.Irc.Ignore.{should_ignore}
use repartee_desktop.Irc.Cache.{IsAccepted, IsCache, should_ignore_lem}

-- Where the patterns of the list are accepted by the compiler of regular expressions, and the world
-- answers as the compiled patterns do, the question has the answer of `should_ignore`, from any
-- cache, which stays a cache.
pub is_ignored_lem :
    {R : Type 0} (compile : Text → Option R) (is_match : R → Text → Bool) (regex : Text → R)
    (w : World) (s : AppState) (nick ident host : Text) (level : IgnoreLevel)
    (channel : Option Text) (cache : Map Text R)
    → All (IsAccepted compile is_match regex) s.ignores
    → IsCache compile cache
    → (cache' : Map Text R) × (should_ignore compile is_match w.env.to_lowercase s.ignores nick
          (some ident)
          (some host)
          level
          channel
          cache
        ≡ some (
          cache',
          is_ignored
              (record w { matches = λ mask. is_match (regex mask) })
              s
              nick
              ident
              host
              level
              channel,
        ))
      × IsCache compile cache'
unfolding is_ignored
is_ignored_lem compile is_match regex w s nick ident host level channel cache a h =
    should_ignore_lem compile is_match regex w.env.to_lowercase s.ignores nick (some ident)
      (some host) level channel cache a h
