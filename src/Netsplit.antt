-- ===== src/Netsplit.antt =====
-- src/irc/netsplit.rs: QUIT and JOIN events of a server split, gathered into summaries. The state
-- and the three handlers; `now` is the instant that a handler reads from the clock, in
-- milliseconds, and `to_lowercase` the standard library's Unicode lower case, of which nothing is
-- assumed.
pub mod Detect
pub mod Format
pub mod Hosts
pub mod Handlers
pub mod Index
pub mod Rejoin
pub mod Ticks
mod Tests
use repartee_desktop.Base.{Bool, [], List, Text, ℕ}
use repartee_desktop.Base.Maps.{Map}

abbrev pub split_batch_wait : ℕ
split_batch_wait = 5000

abbrev pub netjoin_batch_wait : ℕ
netjoin_batch_wait = 5000

abbrev pub split_expire : ℕ
split_expire = 3600000

abbrev pub max_nicks_display : ℕ
max_nicks_display = 15

pub record SplitRecord : Type 0 where
  pub nick : Text
  pub channels : List Text

pub record SplitGroup : Type 0 where
  pub server1 : Text
  pub server2 : Text
  pub nicks : List SplitRecord
  pub last_quit : ℕ
  pub printed : Bool

-- The channels are a set: a list in which `insert_channel` puts each name once.
pub record NetjoinRecord : Type 0 where
  pub nick : Text
  pub channels : List Text

pub record NetjoinGroup : Type 0 where
  pub server1 : Text
  pub server2 : Text
  pub records : List NetjoinRecord
  pub last_join : ℕ
  pub printed : Bool

pub record NetsplitMessage : Type 0 where
  pub buffer_ids : List Text
  pub text : Text

pub record NetsplitState : Type 0 where
  pub groups : List SplitGroup
  pub nick_index : Map Text ℕ
  pub netjoins : List NetjoinGroup

abbrev pub new : NetsplitState
new = record { groups = []; nick_index = []; netjoins = [] }
