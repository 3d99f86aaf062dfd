-- ===== src/Client/Arguments.antt =====
-- The types of the parameters that the extrinsics of pallets/pallet-agent-registry/src/lib.rs and
-- pallets/pallet-vector-db/src/lib.rs take, as tests on a dynamic value: a value of another shape, or
-- beyond the bound of the type, does not fit.
use text.Mathlib.Text.{◌==◌ as str_eq}
use arthneura_core.Base.{
  ℕ, ◌+◌, ◌*◌, ◌^◌, Option, none, some, List, [], ◌∷◌, ◌==◌, ltb, leb, if◌then◌else◌, length,
}
use arthneura_core.AgentRegistry.{AgentStatus, active, suspended, revoked}
use arthneura_core.Client.{Value, from_bytes, u128, unnamed_variant, unnamed_composite}

infixl 5 ◌>>=◌
abbrev pub ◌>>=◌ {ℓ κ} : {A : Type ℓ} {B : Type κ} → Option A → (A → Option B) → Option B
none >>= next = none
some a >>= next = next a

-- `MAX_PUBKEY_LEN`, `MAX_SIG_LEN`, `MAX_LABEL_LEN`
abbrev pub max_pubkey_len : ℕ
max_pubkey_len = 1952

abbrev pub max_sig_len : ℕ
max_sig_len = 3309

abbrev pub max_label_len : ℕ
max_label_len = 64

-- `MAX_METADATA_LEN` of both pallets, `MAX_CHUNK_LEN` and `MAX_PROOF_DEPTH`
abbrev pub max_metadata_len : ℕ
max_metadata_len = 256

abbrev pub max_chunk_len : ℕ
max_chunk_len = 1024

abbrev pub max_proof_depth : ℕ
max_proof_depth = 32

-- The number that a byte array stands for, the least significant byte first.
unfoldable pub of_bytes : List ℕ → ℕ
of_bytes [] = 0
of_bytes (b ∷ bs) = b + 256 * of_bytes bs

-- `[u8; 32]`
unfoldable pub array_of : List ℕ → Option ℕ
unfolding of_bytes
array_of bytes = if length bytes == 32 then some (of_bytes bytes) else none

abbrev pub hash : Value → Option ℕ
hash (from_bytes bytes) = array_of bytes
hash (u128 n) = none
hash (unnamed_variant name values) = none
hash (unnamed_composite values) = none

-- `u32`, `u64` and `u128`, of `w` bits
abbrev pub uint : ℕ → Value → Option ℕ
uint w (from_bytes bytes) = none
uint w (u128 n) = if ltb n (2 ^ w) then some n else none
uint w (unnamed_variant name values) = none
uint w (unnamed_composite values) = none

-- `BoundedVec<u8, ConstU32<max>>`
abbrev pub bounded : ℕ → Value → Option (List ℕ)
bounded max (from_bytes bytes) = if leb (length bytes) max then some bytes else none
bounded max (u128 n) = none
bounded max (unnamed_variant name values) = none
bounded max (unnamed_composite values) = none

unfoldable pub arrays : List (List ℕ) → Option (List ℕ)
unfolding array_of
arrays [] = some []
arrays (v ∷ vs) =
    let rest = arrays vs in
    elim (array_of v) [ none ↦ none | some h ↦ elim rest [ none ↦ none | some hs ↦ some (h ∷ hs) ] ]

-- `BoundedVec<[u8; 32], ConstU32<max>>`
abbrev pub bounded_hashes : ℕ → Value → Option (List ℕ)
bounded_hashes max (from_bytes bytes) = none
bounded_hashes max (u128 n) = none
bounded_hashes max (unnamed_variant name values) = none
bounded_hashes max (unnamed_composite values) =
    if leb (length values) max then arrays values else none

-- `AgentStatus`, by the name of its variant
abbrev pub status : Value → Option AgentStatus
status (from_bytes bytes) = none
status (u128 n) = none
status (unnamed_variant name (v ∷ values)) = none
status (unnamed_variant name []) =
    if str_eq name "Active"
    then some active
    else if str_eq name "Suspended"
    then some suspended
    else if str_eq name "Revoked"
    then some revoked
    else none
status (unnamed_composite values) = none
