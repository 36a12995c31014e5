-- ===== src/Netsplit/Ticks.antt =====
-- What the timer of src/irc/netsplit.rs announces.
use repartee_desktop.Base.{
  count_if-append, count_if, ◌≤◌, retain, ◌+◌, if◌then◌else◌, Bool, append-nil, All-retain, ◌++◌,
  true, ◌≡◌, All, ◌||◌, Text, ℕ, arith, refl, List, [], ◌∷◌,
}
use repartee_desktop.Netsplit.{NetsplitMessage, NetsplitState, NetjoinGroup, SplitGroup}
use repartee_desktop.Netsplit.Handlers.{
  netjoin_lives, split_lives, netjoin_due, split_due, tick, print_netjoins, print_splits,
}
use repartee_desktop.Netsplit.Format.{format_netjoin_messages, format_split_messages}

-- The group has been announced, or will be by a tick at `now`.
abbrev pub SplitSettled : ℕ → SplitGroup → Type 0
SplitSettled now g = (g.printed || split_due now g) ≡ true

abbrev pub NetjoinSettled : ℕ → NetjoinGroup → Type 0
NetjoinSettled now g = (g.printed || netjoin_due now g) ≡ true

abbrev pub IsSettled : ℕ → NetsplitState → Type 0
IsSettled now s = All (SplitSettled now) s.groups × All (NetjoinSettled now) s.netjoins

abbrev AllPrinted : NetsplitState → Type 0
AllPrinted s =
    All (λ (g : SplitGroup). g.printed ≡ true) s.groups
    × All (λ (g : NetjoinGroup). g.printed ≡ true) s.netjoins

print_splits-settled :
    (now : ℕ) (gs : List SplitGroup)
    → All (SplitSettled now) gs
    → All (λ (g : SplitGroup). g.printed ≡ true) (print_splits now gs).0
unfolding print_splits
print_splits-settled now [] a = tt
print_splits-settled now (g ∷ gs) a = ground (arith, print_splits-settled now gs a.1)

print_netjoins-settled :
    (now : ℕ) (gs : List NetjoinGroup)
    → All (NetjoinSettled now) gs
    → All (λ (g : NetjoinGroup). g.printed ≡ true) (print_netjoins now gs).0
unfolding print_netjoins
print_netjoins-settled now [] a = tt
print_netjoins-settled now (g ∷ gs) a = ground (arith, print_netjoins-settled now gs a.1)

print_splits-silent :
    (now : ℕ) (gs : List SplitGroup)
    → All (λ (g : SplitGroup). g.printed ≡ true) gs
    → print_splits now gs ≡ (gs, [])
unfolding print_splits
print_splits-silent now [] a = refl
print_splits-silent now (g ∷ gs) a = ground (arith, print_splits-silent now gs a.1)

print_netjoins-silent :
    (now : ℕ) (gs : List NetjoinGroup)
    → All (λ (g : NetjoinGroup). g.printed ≡ true) gs
    → print_netjoins now gs ≡ (gs, [])
unfolding print_netjoins
print_netjoins-silent now [] a = refl
print_netjoins-silent now (g ∷ gs) a = ground (arith, print_netjoins-silent now gs a.1)

-- How many of the messages of the groups that have not been announced pass a test.
abbrev pub split_count : (NetsplitMessage → Bool) → List SplitGroup → ℕ
split_count p [] = 0
split_count p (g ∷ gs) =
    (if g.printed then 0 else count_if p (format_split_messages g)) + split_count p gs

abbrev pub netjoin_count : (NetsplitMessage → Bool) → List NetjoinGroup → ℕ
netjoin_count p [] = 0
netjoin_count p (g ∷ gs) =
    (if g.printed then 0 else count_if p (format_netjoin_messages g)) + netjoin_count p gs

print_splits-count :
    (p : NetsplitMessage → Bool) (now : ℕ) (gs : List SplitGroup)
    → count_if p (print_splits now gs).1 + split_count p (print_splits now gs).0 ≤ split_count p gs
unfolding print_splits
print_splits-count p now [] = omega arith
print_splits-count p now (g ∷ gs) = ground (
  arith,
  print_splits-count p now gs,
  count_if-append p (format_split_messages g) (print_splits now gs).1,
)

print_netjoins-count :
    (p : NetsplitMessage → Bool) (now : ℕ) (gs : List NetjoinGroup)
    → count_if p (print_netjoins now gs).1 + netjoin_count p (print_netjoins now gs).0
      ≤ netjoin_count p gs
unfolding print_netjoins
print_netjoins-count p now [] = omega arith
print_netjoins-count p now (g ∷ gs) = ground (
  arith,
  print_netjoins-count p now gs,
  count_if-append p (format_netjoin_messages g) (print_netjoins now gs).1,
)

retain-split_count :
    (p : NetsplitMessage → Bool) (q : SplitGroup → Bool) (gs : List SplitGroup)
    → split_count p (retain q gs) ≤ split_count p gs
retain-split_count p q [] = omega arith
retain-split_count p q (g ∷ gs) = ground (arith, retain-split_count p q gs)

retain-netjoin_count :
    (p : NetsplitMessage → Bool) (q : NetjoinGroup → Bool) (gs : List NetjoinGroup)
    → netjoin_count p (retain q gs) ≤ netjoin_count p gs
retain-netjoin_count p q [] = omega arith
retain-netjoin_count p q (g ∷ gs) = ground (arith, retain-netjoin_count p q gs)

module _ (to_lowercase : Text → Text) where
  -- The messages of a sequence of ticks.
  unfoldable pub announcements : NetsplitState → List ℕ → List NetsplitMessage
  announcements s [] = []
  announcements s (now ∷ ts) =
      (tick to_lowercase s now).1 ++ announcements (tick to_lowercase s now).0 ts

  tick-AllPrinted :
      (s : NetsplitState) (now : ℕ)
      → AllPrinted s
      → AllPrinted (tick to_lowercase s now).0 × ((tick to_lowercase s now).1 ≡ [])
  unfolding tick
  tick-AllPrinted s now (a, b) =
      rw (print_splits-silent now s.groups a, print_netjoins-silent now s.netjoins b)
        (
          (
            All-retain (λ (g : SplitGroup). g.printed ≡ true) (split_lives now) s.groups a,
            All-retain (λ (g : NetjoinGroup). g.printed ≡ true) (netjoin_lives now) s.netjoins b,
          ),
          refl,
        )

  printed-silent : (s : NetsplitState) (ts : List ℕ) → AllPrinted s → announcements s ts ≡ []
  unfolding announcements
  printed-silent s [] a = refl
  printed-silent s (now ∷ ts) a =
      let (kept, silent) = tick-AllPrinted s now a in
      rw silent (printed-silent (tick to_lowercase s now).0 ts kept)

  settled-AllPrinted :
      (s : NetsplitState) (now : ℕ) → IsSettled now s → AllPrinted (tick to_lowercase s now).0
  unfolding tick
  settled-AllPrinted s now (a, b) = (
    All-retain (λ (g : SplitGroup). g.printed ≡ true) (split_lives now)
        (print_splits now s.groups).0 (print_splits-settled now s.groups a),
    All-retain (λ (g : NetjoinGroup). g.printed ≡ true) (netjoin_lives now)
        (print_netjoins now s.netjoins).0 (print_netjoins-settled now s.netjoins b),
  )

  -- When every group has been announced or is due, the tick at that instant is the last to say
  -- anything.
  pub announced_last :
      (s : NetsplitState) (now : ℕ) (ts : List ℕ)
      → IsSettled now s
      → announcements s (now ∷ ts) ≡ (tick to_lowercase s now).1
  unfolding announcements
  announced_last s now ts a =
      rw (printed-silent (tick to_lowercase s now).0 ts (settled-AllPrinted s now a), append-nil)

  tick-count :
      (p : NetsplitMessage → Bool) (s : NetsplitState) (now : ℕ)
      → count_if p (tick to_lowercase s now).1
          + (split_count p (tick to_lowercase s now).0.groups
              + netjoin_count p (tick to_lowercase s now).0.netjoins)
        ≤ split_count p s.groups + netjoin_count p s.netjoins
  unfolding tick
  tick-count p s now = omega (
    arith,
    count_if-append p (print_splits now s.groups).1 (print_netjoins now s.netjoins).1,
    print_splits-count p now s.groups,
    print_netjoins-count p now s.netjoins,
    retain-split_count p (split_lives now) (print_splits now s.groups).0,
    retain-netjoin_count p (netjoin_lives now) (print_netjoins now s.netjoins).0,
  )

  -- However many ticks come, at whatever instants, every message is said at most as often as it
  -- stands in the announcements, one for each, of the splits and rejoins not announced before.
  pub announced_once :
      (p : NetsplitMessage → Bool) (s : NetsplitState) (ts : List ℕ)
      → count_if p (announcements s ts) ≤ split_count p s.groups + netjoin_count p s.netjoins
  unfolding announcements
  announced_once p s [] = omega arith
  announced_once p s (now ∷ ts) = omega (
    arith,
    count_if-append p (tick to_lowercase s now).1 (announcements (tick to_lowercase s now).0 ts),
    tick-count p s now,
    announced_once p (tick to_lowercase s now).0 ts,
  )
