-- ===== src/Client/Decode.antt =====
-- A value that a client builds from data within the bounds of a parameter is taken for that data.
use native.Mathlib.Nat.{pow-suc}
use arthneura_core.Base.{
  ℕ, zero, suc, ◌/◌, ◌^◌, ◌<◌, ◌≤◌, ◌≡◌, refl, some, List, [], ◌∷◌, arith, length,
}
use arthneura_core.Base.Bytes.{le_bytes}
use arthneura_core.AgentRegistry.{AgentStatus, active, suspended, revoked}
use arthneura_core.Client.{u128, from_bytes, unnamed_variant}
use arthneura_core.Client.Agents.{variant_name}
use arthneura_core.Client.Commitments.{byte_arrays}
use arthneura_core.Client.Arguments.{of_bytes, array_of, arrays, uint, bounded, status}

pub length-le_bytes : (w n : ℕ) → length (le_bytes w n) ≡ w
unfolding le_bytes
length-le_bytes zero n = refl
length-le_bytes (suc w) n = omega (arith, length-le_bytes w (n / 256))

pub of_bytes-le_bytes : (w n : ℕ) → n < 256 ^ w → of_bytes (le_bytes w n) ≡ n
unfolding of_bytes le_bytes
of_bytes-le_bytes zero n h = omega arith
of_bytes-le_bytes (suc w) n h =
    let small : n / 256 < 256 ^ w = omega (arith, pow-suc 256 w) in
    omega (arith, of_bytes-le_bytes w (n / 256) small)

pub array_of-le_bytes : (n : ℕ) → n < 256 ^ 32 → array_of (le_bytes 32 n) ≡ some n
unfolding array_of
array_of-le_bytes n h = rw (length-le_bytes 32 n, of_bytes-le_bytes 32 n h)

pub uint-u128 : (w n : ℕ) → n < 2 ^ w → uint w (u128 n) ≡ some n
uint-u128 w n h = ground arith

pub bounded-from_bytes :
    (max : ℕ) (bytes : List ℕ) → length bytes ≤ max → bounded max (from_bytes bytes) ≡ some bytes
bounded-from_bytes max bytes h = ground arith

pub status-variant_name :
    (st : AgentStatus) → status (unnamed_variant (variant_name st) []) ≡ some st
unfolding variant_name
status-variant_name active = refl
status-variant_name suspended = refl
status-variant_name revoked = refl

-- Every hash of a list is a 32-byte value.
abbrev pub AllHashes : List ℕ → Type 0
AllHashes [] = Unit
AllHashes (h ∷ hs) = (h < 256 ^ 32) × AllHashes hs

pub arrays-byte_arrays : (hs : List ℕ) → AllHashes hs → arrays (byte_arrays hs) ≡ some hs
unfolding arrays
arrays-byte_arrays [] all = refl
arrays-byte_arrays (h ∷ hs) all =
    ground (arith, array_of-le_bytes h all.0, arrays-byte_arrays hs all.1)

pub length-byte_arrays : (hs : List ℕ) → length (byte_arrays hs) ≡ length hs
length-byte_arrays [] = refl
length-byte_arrays (h ∷ hs) = omega (arith, length-byte_arrays hs)
