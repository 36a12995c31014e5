-- ===== src/Netsplit/Detect.antt =====
-- Which QUIT messages look like a split (src/irc/netsplit.rs, `is_netsplit_quit`).
use repartee_desktop.Base.{
  ◌-◌, some, none, text_eq, rfind_byte, [], find_byte, not, ends_with_byte, is_ascii_alphabetic,
  ◌||◌, starts_with_byte, all, ◌&&◌, has_byte, length, ◌==◌, is_empty, ltb, ◌+◌, ◌∷◌, take,
  if◌then◌else◌, drop, false, Bool, Text, ℕ,
}

abbrev dot : ℕ
dot = b'.'

abbrev space : ℕ
space = b' '

-- `host.contains("..")`.
abbrev pub has_two_dots : Text → Bool
has_two_dots [] = false
has_two_dots (a ∷ []) = false
has_two_dots (a ∷ b ∷ rest) = (a == dot && b == dot) || has_two_dots (b ∷ rest)

-- The checks on the part after the last dot, which stands at `idx`.
is_valid_tld : Text → ℕ → Bool
is_valid_tld host idx =
    let tld = drop (idx + 1) host in
    if ltb (length tld) 2 then false else all is_ascii_alphabetic tld

unfoldable pub is_valid_split_host : Text → Bool
unfolding is_valid_tld
is_valid_split_host host =
    if ltb (length host) 3
    then false
    else (if starts_with_byte dot host || ends_with_byte dot host
        then false
        else (if has_two_dots host then false else elim (rfind_byte dot host) [
          | none ↦ false
          | some idx ↦ if ltb 0 idx then is_valid_tld host idx else false
        ]))

-- The two hosts around the space at `idx`.
are_split_hosts : Text → ℕ → Bool
are_split_hosts message idx =
    let host1 = take idx message in
    let host2 = drop (idx + 1) message in
    if has_byte space host2
    then false
    else is_valid_split_host host1 && (is_valid_split_host host2 && not (text_eq host1 host2))

unfoldable pub is_netsplit_quit : Text → Bool
unfolding are_split_hosts
is_netsplit_quit message =
    if is_empty message
    then false
    else (if has_byte b':' message || has_byte b'/' message
        then false
        else elim (find_byte space message) [
          | none ↦ false
          | some idx ↦
              if ltb 0 idx && ltb idx (length message - 1)
              then are_split_hosts message idx
              else false
        ])
