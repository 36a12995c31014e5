-- ===== src/Netsplit/Hosts.antt =====
-- `is_netsplit_quit` (src/irc/netsplit.rs) against a description of the messages that it accepts.
use native.Mathlib.Numerals.{add-one}
use repartee_desktop.Base.{
  ◌↔◌, zero, inr, length-append, inl, Option-cases, text_eq, true, ap, ==_refl, length, false, some,
  ◌++◌, drop, take, has_byte, find_byte, ◌≡◌, Text, ℕ, suc, ◌+◌, ◌<◌, arith, refl, [], ◌∷◌,
}
use repartee_desktop.Netsplit.Detect.{is_netsplit_quit, is_valid_split_host}

-- Two different valid hosts with one space between them, and no colon or slash.
pub record SplitHosts (message host1 host2 : Text) : Type 0 where
  pub shape : message ≡ host1 ++ b' ' ∷ host2
  pub one_space : has_byte b' ' host1 ≡ false
  pub no_more : has_byte b' ' host2 ≡ false
  pub no_colon : has_byte b':' message ≡ false
  pub no_slash : has_byte b'/' message ≡ false
  pub first_valid : is_valid_split_host host1 ≡ true
  pub second_valid : is_valid_split_host host2 ≡ true
  pub different : text_eq host1 host2 ≡ false

module _ (c : ℕ) where
  find_byte-split :
      (t : Text) (i : ℕ)
      → find_byte c t ≡ some i
      → (t ≡ take i t ++ c ∷ drop (suc i) t) × (has_byte c (take i t) ≡ false) × (i < length t)
  find_byte-split [] i h = cc
  find_byte-split (b ∷ bs) zero h = elim (Option-cases (find_byte c bs)) [
    | inl e ↦ ground (arith, e)
    | inr (j, e) ↦ ground (arith, e)
  ]
  find_byte-split (b ∷ bs) (suc i) h = elim (Option-cases (find_byte c bs)) [
    | inl e ↦ ground (arith, e)
    | inr (j, e) ↦ ground (arith, e, find_byte-split bs i)
  ]

  find_byte-append :
      (s t : Text) → has_byte c s ≡ false → find_byte c (s ++ c ∷ t) ≡ some (length s)
  find_byte-append [] t h = ground (arith, ==_refl c)
  find_byte-append (b ∷ s) t h = ground (arith, find_byte-append s t)

take-append : (s t : Text) → take (length s) (s ++ t) ≡ s
take-append [] t = refl
take-append (b ∷ s) t = ap (◌∷◌ b) (take-append s t)

drop-append : (s t : Text) (c : ℕ) → drop (suc (length s)) (s ++ c ∷ t) ≡ t
drop-append [] t c = refl
drop-append (b ∷ s) t c = drop-append s t c

first-nonempty : (h : Text) → is_valid_split_host h ≡ true → 0 < length h
unfolding is_valid_split_host
first-nonempty h v = ground arith

-- Whatever `is_netsplit_quit` accepts has the shape, with the hosts that the handler reads off.
pub is_netsplit_quit_sound :
    (message : Text)
    → is_netsplit_quit message ≡ true
    → (i : ℕ) × (find_byte b' ' message ≡ some i)
      × SplitHosts message (take i message) (drop (i + 1) message)
unfolding is_netsplit_quit
is_netsplit_quit_sound message h = elim (Option-cases (find_byte b' ' message)) [
  | inl e ↦ absurd (ground (arith, e))
  | inr (i, e) ↦
      let (shape, before, within) = find_byte-split b' ' message i e in
      (
        i,
        e,
        rw add-one (record {
          shape = shape;
          one_space = before;
          no_more = ground (arith, e, add-one i);
          no_colon = ground (arith, e);
          no_slash = ground (arith, e);
          first_valid = ground (arith, e);
          second_valid = ground (arith, e, add-one i);
          different = ground (arith, e, add-one i);
        }),
      )
]

-- Every message of the shape is accepted.
pub is_netsplit_quit_complete :
    (message host1 host2 : Text) → SplitHosts message host1 host2 → is_netsplit_quit message ≡ true
unfolding is_netsplit_quit
is_netsplit_quit_complete message host1 host2 s = ground (
  arith,
  s.shape,
  s.no_colon,
  s.no_slash,
  find_byte-append b' ' host1 host2 s.one_space,
  take-append host1 (b' ' ∷ host2),
  drop-append host1 host2 b' ',
  add-one (length host1),
  length-append host1 (b' ' ∷ host2),
  first-nonempty host1 s.first_valid,
  first-nonempty host2 s.second_valid,
)

-- A QUIT message is taken for a split exactly when it is two different valid hosts with one space
-- between them and has no colon and no slash.
pub is_netsplit_quit_iff :
    (message : Text)
    → (is_netsplit_quit message ≡ true)
      ↔ ((host1 : Text) × (host2 : Text) × SplitHosts message host1 host2)
is_netsplit_quit_iff message = (
  λ h.
      let (i, e, s) = is_netsplit_quit_sound message h in (take i message, drop (i + 1) message, s),
  λ (host1, host2, s). is_netsplit_quit_complete message host1 host2 s,
)
