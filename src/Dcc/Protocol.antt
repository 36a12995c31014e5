-- ===== src/Dcc/Protocol.antt =====
-- The messages of src/dcc/protocol.rs. The text of an IPv6 address, its parser and the texts of
-- errors are parameters.
use repartee_desktop.Base.{
  take, ends_with_byte, map, ◌&&◌, ◌==◌, ◌++◌, ◌*◌, ◌/◌, ◌%◌, ◌+◌, ◌-◌, leb, ◌∷◌, [], ℕ, List,
  Option, none, some, codes, show_number, length, if◌then◌else◌, has_byte, eq_ignore_ascii_case,
}
use repartee_desktop.Base.Chars.{Str, split_ascii_whitespace}
use repartee_desktop.Base.Numbers.{parse_unsigned}
use repartee_desktop.Dcc.{IpAddr, v4, v6}

pub record Library : Type 0 where
  pub show_v6 : List ℕ → Str
  pub parse_ip : Str → Option IpAddr
  pub address_error : Str → Str
  pub number_error : Str → Str
  pub debug : Str → Str

-- What `decode_ip` returns.
pub data Address : Type 0 where
  address : IpAddr → Address
  invalid : Str → Address

abbrev pub passive_fake_ip : IpAddr
passive_fake_ip = v4 1 1 1 1

-- The octets do not overlap, so that the shifts and `|` of the source add up.
unfoldable pub encode_ip : Library → IpAddr → Str
encode_ip lib (v4 a b c d) = show_number (a * 16777216 + b * 65536 + c * 256 + d)
encode_ip lib (v6 octets) = lib.show_v6 octets

unfoldable pub decode_ip : Library → Str → Address
decode_ip lib s =
    if has_byte b':' s
    then elim (lib.parse_ip s) [
      | some ip ↦ address ip
      | none ↦
          invalid
            (codes "invalid IPv6 address " ++ (lib.debug s ++ (codes ": " ++ lib.address_error s)))
    ]
    else elim (parse_unsigned 4294967295 s) [
      | some n ↦ address (v4 (n / 16777216 % 256) (n / 65536 % 256) (n / 256 % 256) (n % 256))
      | none ↦
          invalid (codes "invalid DCC IP " ++ (lib.debug s ++ (codes ": " ++ lib.number_error s)))
    ]

pub record DccCtcpMessage : Type 0 where
  pub dcc_type : Str
  pub addr : IpAddr
  pub port : ℕ
  pub passive_token : Option ℕ

-- `to_ascii_uppercase`.
abbrev pub upper : ℕ → ℕ
upper c = if leb b'a' c && leb c b'z' then c - 32 else c

abbrev pub passive_token_of : List Str → Option ℕ
passive_token_of [] = none
passive_token_of (t ∷ ws) = parse_unsigned 4294967295 t

abbrev pub message_of : Str → Address → Option ℕ → Option ℕ → Option DccCtcpMessage
message_of kind (invalid text) port token = none
message_of kind (address addr) none token = none
message_of kind (address addr) (some port) token =
    some (record { dcc_type = map upper kind; addr = addr; port = port; passive_token = token })

abbrev pub parse_parts : Library → List Str → Option DccCtcpMessage
parse_parts lib (prefix ∷ kind ∷ proto_arg ∷ addr ∷ port ∷ rest) =
    if eq_ignore_ascii_case prefix (codes "DCC") && eq_ignore_ascii_case kind (codes "CHAT")
    then message_of kind (decode_ip lib addr) (parse_unsigned 65535 port) (passive_token_of rest)
    else none
parse_parts lib _ = none

unfoldable pub parse_dcc_ctcp : Library → Str → Option DccCtcpMessage
parse_dcc_ctcp lib body = parse_parts lib (split_ascii_whitespace body)

abbrev pub token_text : Option ℕ → Str
token_text none = []
token_text (some t) = 32 ∷ show_number t

unfoldable pub build_dcc_chat_ctcp : Library → IpAddr → ℕ → Option ℕ → Str
build_dcc_chat_ctcp lib ip port token =
    1
    ∷ (codes "DCC CHAT CHAT "
        ++ (encode_ip lib ip ++ (32 ∷ (show_number port ++ (token_text token ++ (1 ∷ []))))))

abbrev pub build_dcc_reject : Str
build_dcc_reject = 1 ∷ (codes "DCC REJECT CHAT chat" ++ (1 ∷ []))

-- The text between the delimiters of a CTCP message, as `handle_irc_event` of src/app/irc.rs takes
-- it from a message that has them.
unfoldable pub ctcp_body : Str → Option Str
ctcp_body (c ∷ s) =
    if c == 1 && (ends_with_byte 1 s && leb 2 (length s))
    then some (take (length s - 1) s)
    else none
ctcp_body [] = none
