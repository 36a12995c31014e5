-- ===== src/Dcc/Offers.antt =====
-- The messages of src/dcc/protocol.rs: an offer that is built is understood.
use repartee_desktop.Base.{
  append-nil, none, leb, ◌-◌, append_assoc, length-append, codes, ap, ◌%◌, take, ends_with_byte,
  Option, ◌∙◌, ◌/◌, show_number, refl, ◌+◌, [], ◌*◌, some, All, ◌≤◌, false, true, ◌<◌, has_byte,
  List, arith, ◌≡◌, ◌++◌, ◌∷◌, ℕ, all, length,
}
use repartee_desktop.Base.Chars.{
  words_by-word, split_ascii_whitespace, is_ascii_whitespace, is_word_by, Str,
}
use repartee_desktop.Dcc.Protocol.{
  parse_parts, parse_dcc_ctcp, DccCtcpMessage, passive_token_of, token_text, build_dcc_chat_ctcp,
  ctcp_body, address, decode_ip, encode_ip, Library,
}
use repartee_desktop.Dcc.{v6, v4, IpAddr}
use repartee_desktop.Base.Numbers.{parse_unsigned-show, show_number-digits, all_digits}
use repartee_desktop.Base.Graphic.{
  split_ascii_whitespace-append, show_number-graphic, show_number-length, graphic-ascii_word,
  is_graphic,
}

-- An address of the program: its octets are bytes, sixteen of them in a v6 one.
abbrev pub IsAddress : IpAddr → Type 0
IsAddress (v4 a b c d) = (a < 256) × (b < 256) × (c < 256) × (d < 256)
IsAddress (v6 octets) = (length octets ≡ 16) × All (λ b. b < 256) octets

-- What is relied on of IPv6 texts: printable characters, a colon among them, and the parser reads
-- what is written.
pub record IsDocumented (lib : Library) : Type 0 where
  pub v6_graphic : (o : List ℕ) → all is_graphic (lib.show_v6 o) ≡ true
  pub v6_colon : (o : List ℕ) → has_byte b':' (lib.show_v6 o) ≡ true
  pub v6_round : (o : List ℕ) → IsAddress (v6 o) → lib.parse_ip (lib.show_v6 o) ≡ some (v6 o)

digits-has_byte : (s : Str) → all_digits s ≡ true → has_byte b':' s ≡ false
digits-has_byte [] h = refl
digits-has_byte (c ∷ s) h = ground (arith, digits-has_byte s)

has_byte-length : (c : ℕ) (s : Str) → has_byte c s ≡ true → 1 ≤ length s
has_byte-length c [] h = cc
has_byte-length c (d ∷ s) h = omega arith

abbrev octets_of : ℕ → IpAddr
octets_of n = v4 (n / 16777216 % 256) (n / 65536 % 256) (n / 256 % 256) (n % 256)

decode_ip-number :
    (lib : Library) (n : ℕ) → n ≤ 4294967295 → decode_ip lib (show_number n) ≡ address (octets_of n)
unfolding decode_ip
decode_ip-number lib n h =
    rw
      (
        decode_ip,
        digits-has_byte (show_number n) (show_number-digits n),
        parse_unsigned-show 4294967295 n h,
      )
      refl

octets_of-packed :
    (a b c d n : ℕ)
    → IsAddress (v4 a b c d)
    → n ≡ a * 16777216 + b * 65536 + c * 256 + d
    → octets_of n ≡ v4 a b c d
octets_of-packed a b c d n h e =
    let first : n / 16777216 % 256 ≡ a = omega (arith, h.0, h.1, h.2, h.3) in
    let second : n / 65536 % 256 ≡ b = omega (arith, h.0, h.1, h.2, h.3) in
    let third : n / 256 % 256 ≡ c = omega (arith, h.0, h.1, h.2, h.3) in
    let fourth : n % 256 ≡ d = omega (arith, h.0, h.1, h.2, h.3) in
    rw (first, second, third, fourth) refl

module _ (lib : Library) (doc : IsDocumented lib) where
  encode_ip-word : (ip : IpAddr) → is_word_by is_ascii_whitespace (encode_ip lib ip) ≡ true
  unfolding encode_ip
  encode_ip-word (v4 a b c d) =
      let n = a * 16777216 + b * 65536 + c * 256 + d in
      graphic-ascii_word (show_number n) (show_number-length n) (show_number-graphic n)
  encode_ip-word (v6 o) =
      graphic-ascii_word (lib.show_v6 o) (has_byte-length b':' (lib.show_v6 o) (doc.v6_colon o))
        (doc.v6_graphic o)

  -- An address survives its text.
  pub decode-encode_ip :
      (ip : IpAddr) → IsAddress ip → decode_ip lib (encode_ip lib ip) ≡ address ip
  unfolding encode_ip decode_ip
  decode-encode_ip (v4 a b c d) h =
      let n = a * 16777216 + b * 65536 + c * 256 + d in
      decode_ip-number lib n (omega (arith, h.0, h.1, h.2, h.3))
      ∙ ap address (octets_of-packed a b c d n h refl)
  decode-encode_ip (v6 o) h = rw (doc.v6_colon o, doc.v6_round o h) refl

abbrev offer_body : Library → IpAddr → ℕ → Option ℕ → Str
offer_body lib ip port token =
    codes "DCC CHAT CHAT " ++ (encode_ip lib ip ++ (32 ∷ (show_number port ++ token_text token)))

ends-append : (c : ℕ) (s : Str) → ends_with_byte c (s ++ (c ∷ [])) ≡ true
ends-append c [] = ground arith
ends-append c (d ∷ []) = ends-append c []
ends-append c (d ∷ e ∷ s) = ends-append c (e ∷ s)

take-append : (s t : Str) → take (length s) (s ++ t) ≡ s
take-append [] t = refl
take-append (c ∷ s) t = ap (◌∷◌ c) (take-append s t)

ctcp_body-delimited : (s : Str) → 1 ≤ length s → ctcp_body (1 ∷ (s ++ (1 ∷ []))) ≡ some s
unfolding ctcp_body
ctcp_body-delimited s h =
    let ends = ends-append 1 s in
    let size : length (s ++ (1 ∷ [])) ≡ length s + 1 = length-append s (1 ∷ []) in
    let inner : length (s ++ (1 ∷ [])) - 1 ≡ length s = omega arith in
    let long : leb 2 (length (s ++ (1 ∷ []))) ≡ true = ground arith in
    rw (ends, long, inner, take-append s (1 ∷ [])) refl

build-offer_body :
    (lib : Library) (ip : IpAddr) (port : ℕ) (token : Option ℕ)
    → build_dcc_chat_ctcp lib ip port token ≡ 1 ∷ (offer_body lib ip port token ++ (1 ∷ []))
unfolding build_dcc_chat_ctcp
build-offer_body lib ip port token =
    rw
      (
        append_assoc (encode_ip lib ip) (32 ∷ (show_number port ++ token_text token)) (1 ∷ []),
        append_assoc (show_number port) (token_text token) (1 ∷ []),
      )
      refl

show_number-ascii_word : (n : ℕ) → is_word_by is_ascii_whitespace (show_number n) ≡ true
show_number-ascii_word n =
    graphic-ascii_word (show_number n) (show_number-length n) (show_number-graphic n)

abbrev token_words : Option ℕ → List Str
token_words none = []
token_words (some t) = show_number t ∷ []

split_last :
    (port : ℕ) (token : Option ℕ)
    → split_ascii_whitespace (show_number port ++ token_text token)
      ≡ show_number port ∷ token_words token
split_last port none =
    ap split_ascii_whitespace (append-nil (show_number port))
    ∙ words_by-word is_ascii_whitespace (show_number port) (show_number-ascii_word port)
split_last port (some t) =
    split_ascii_whitespace-append (show_number port) (show_number t) (show_number-ascii_word port)
    ∙ ap (◌∷◌ (show_number port))
        (words_by-word is_ascii_whitespace (show_number t) (show_number-ascii_word t))

-- A 32-bit token.
abbrev pub IsToken : Option ℕ → Type 0
IsToken none = Unit
IsToken (some t) = t < 4294967296

passive_token_of-words :
    (token : Option ℕ) → IsToken token → passive_token_of (token_words token) ≡ token
passive_token_of-words none h = refl
passive_token_of-words (some t) h = parse_unsigned-show 4294967295 t (omega arith)

abbrev offer : IpAddr → ℕ → Option ℕ → DccCtcpMessage
offer ip port token = record {
  dcc_type = codes "CHAT";
  addr = ip;
  port = port;
  passive_token = token;
}

split_offer :
    (a : Str) (port : ℕ) (token : Option ℕ)
    → is_word_by is_ascii_whitespace a ≡ true
    → split_ascii_whitespace
        (codes "DCC CHAT CHAT " ++ (a ++ (32 ∷ (show_number port ++ token_text token))))
      ≡ codes "DCC" ∷ codes "CHAT" ∷ codes "CHAT" ∷ a ∷ show_number port ∷ token_words token
unfolding is_ascii_whitespace
split_offer a port token h =
    rw
      (
        split_ascii_whitespace-append a (show_number port ++ token_text token) h,
        split_last port token,
      )
      refl

-- The offer that is built for an address, a 16-bit port and a 32-bit token or none is delimited as
-- a CTCP message, and its body is parsed to that address, port and token, with texts of IPv6
-- addresses as documented.
pub parse-build :
    (lib : Library) (ip : IpAddr) (port : ℕ) (token : Option ℕ)
    → IsDocumented lib
    → IsAddress ip
    → port < 65536
    → IsToken token
    → (body : Str) × (ctcp_body (build_dcc_chat_ctcp lib ip port token) ≡ some body)
      × (parse_dcc_ctcp lib body
          ≡ some
              (record { dcc_type = codes "CHAT"; addr = ip; port = port; passive_token = token }))
unfolding parse_dcc_ctcp
parse-build lib ip port token doc address_ok port_ok token_ok =
    let body = offer_body lib ip port token in
    let words = split_offer (encode_ip lib ip) port token (encode_ip-word lib doc ip) in
    let parsed : parse_parts lib (split_ascii_whitespace body) ≡ some (offer ip port token) =
      rw
        (
          words,
          decode-encode_ip lib doc ip address_ok,
          parse_unsigned-show 65535 port (omega arith),
          passive_token_of-words token token_ok,
        )
        refl in
    (
      body,
      ap ctcp_body (build-offer_body lib ip port token) ∙ ctcp_body-delimited body (omega arith),
      parsed,
    )
