-- ===== src/Dcc.antt =====
-- src/dcc: direct chats between clients. The types of src/dcc/types.rs and of the manager in
-- src/dcc/mod.rs; the children model the messages, the manager and the port ranges.
pub mod Protocol
pub mod Offers
pub mod Manager
pub mod Ids
pub mod Renames
pub mod Sessions
pub mod Closing
pub mod Ports
mod Tests
use repartee_desktop.Base.{ℕ, List, Option, Bool, Text}
use repartee_desktop.Base.Maps.{Map}

-- `IpAddr`, by its octets.
pub data IpAddr : Type 0 where
  v4 : ℕ → ℕ → ℕ → ℕ → IpAddr
  v6 : List ℕ → IpAddr

pub data DccType : Type 0 where
  chat : DccType

pub data DccState : Type 0 where
  waiting_user listening connecting connected : DccState

-- Instants are milliseconds.
pub record DccRecord : Type 0 where
  pub id : Text
  pub dcc_type : DccType
  pub nick : Text
  pub conn_id : Text
  pub addr : IpAddr
  pub port : ℕ
  pub state : DccState
  pub passive_token : Option ℕ
  pub created : ℕ
  pub started : Option ℕ
  pub bytes_transferred : ℕ
  pub mirc_ctcp : Bool
  pub ident : Text
  pub host : Text

-- `DccManager` less its channel of events; `Sender` is the type of the sending half of a session's
-- channel.
pub record DccManager (Sender : Type 0) : Type 0 where
  pub records : Map Text DccRecord
  pub chat_senders : Map Text Sender
  pub timeout_secs : ℕ
  pub port_range : ℕ × ℕ
  pub own_ip : Option IpAddr
  pub autoaccept_lowports : Bool
  pub autochat_masks : List Text
  pub max_connections : ℕ
