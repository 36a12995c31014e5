-- ===== src/E2e.antt =====
-- src/e2e: end-to-end encrypted messages. The constants and the context key of src/e2e/mod.rs, and
-- the errors of src/e2e/error.rs; the children model the chunker and its well-formed inputs.
pub mod Chunker
pub mod Wire
pub mod Lines
pub mod Parsed
pub mod Aad
pub mod Coders
pub mod Utf8
pub mod Chunks
pub mod Split
mod Tests
use repartee_desktop.Base.{
  ◌||◌, arith, starts_with_byte, if◌then◌else◌, ◌⊎◌, ◌≡◌, Text, ℕ, List, [], ◌∷◌, zero, suc, true,
  false, inl, inr, refl, none, some,
}

abbrev pub max_chunks : ℕ
max_chunks = 16

abbrev pub max_plaintext_per_chunk : ℕ
max_plaintext_per_chunk = 180

-- `E2eError`, with the messages of the variants that carry one. The variants that wrap an error of
-- a library hold its text.
pub data E2eError : Type 0 where
  crypto : Text → E2eError
  wire : Text → E2eError
  keyring : Text → E2eError
  handshake : Text → E2eError
  peer_not_trusted : Text → Text → E2eError
  handle_mismatch : Text → Text → E2eError
  replay_window : ℕ → ℕ → E2eError
  chunk_limit : ℕ → E2eError
  rate_limit : Text → E2eError
  io : Text → E2eError
  sqlite : Text → E2eError
  base64 : Text → E2eError
  hex : Text → E2eError

pub data Result {ℓ} (A : Type ℓ) : Type ℓ where
  ok : A → Result A
  err : E2eError → Result A

infixl 5 ◌>>=◌
abbrev pub ◌>>=◌ {ℓ κ} : {A : Type ℓ} {B : Type κ} → Result A → (A → Result B) → Result B
ok a >>= f = f a
err e >>= f = err e

pub Result-cases {ℓ} :
    {A : Type ℓ} (r : Result A) → ((a : A) × (r ≡ ok a)) ⊎ ((e : E2eError) × (r ≡ err e))
Result-cases (ok a) = inl (a, refl)
Result-cases (err e) = inr (e, refl)

-- The keyring context: a channel's own name, or the pseudochannel of a peer.
unfoldable pub context_key : Text → Text → Text
context_key target peer_handle =
    if starts_with_byte b'#' target
      || (starts_with_byte b'&' target
          || (starts_with_byte b'!' target || starts_with_byte b'+' target))
    then target
    else b'@' ∷ peer_handle

-- Two conversations share a context only if they are the same channel, or private ones with the
-- same peer handle.
pub context_key_injective :
    (target target' handle handle' : Text)
    → context_key target handle ≡ context_key target' handle'
    → (target ≡ target') ⊎ (handle ≡ handle')
unfolding context_key
context_key_injective [] [] handle handle' e = inl refl
context_key_injective [] (b ∷ bs) handle handle' e = ground arith
context_key_injective (a ∷ as') [] handle handle' e = ground arith
context_key_injective (a ∷ as') (b ∷ bs) handle handle' e = ground arith
