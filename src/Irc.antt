-- ===== src/Irc.antt =====
-- src/irc: extended bans, the ignore list, what a server supports, and formatting codes.
pub mod Extban
pub mod Masks
pub mod Ignore
pub mod Isupport
pub mod Advertised
pub mod Caps
pub mod Formatting
pub mod Stripped
pub mod Cache
mod Tests
