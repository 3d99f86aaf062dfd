-- ===== src/Client/Agents.antt =====
-- offchain-agent-registry/src/lib.rs: one client for each extrinsic of pallet-agent-registry. An account is
-- named by its number; the key of an agent is named by its seed.
use Prim.Native.String.{String}
use arthneura_core.Base.{ℕ, none, some, List, [], ◌∷◌, ◌++◌}
use arthneura_core.Base.Bytes.{le_bytes, ascii}
use arthneura_core.AgentRegistry.{AgentStatus, active, suspended, revoked}
use arthneura_core.Client.{
  Node, CallResult, failed, subxt, confirmed, from_bytes, from_array, u128, unnamed_variant,
  call_and_confirm,
}

abbrev pub pallet_name : String
pallet_name = "AgentRegistry"

-- `AgentStatus::variant_name`
unfoldable pub variant_name : AgentStatus → String
variant_name active = "Active"
variant_name suspended = "Suspended"
variant_name revoked = "Revoked"

-- `blake2_256(DID_DOMAIN_TAG ++ pubkey)`, with the hash of `sp_core`.
unfoldable pub did_of : (List ℕ → ℕ) → List ℕ → ℕ
did_of blake2_256 pubkey = blake2_256 (ascii "ArthNeura-DID-v1" ++ pubkey)

-- `codec::Encode::encode` of the tuple of arrays and a `u32`.
unfoldable pub encode_challenge : ℕ → ℕ → ℕ → ℕ → ℕ → List ℕ
encode_challenge genesis_hash did controller signed_at_block signed_at_hash =
    le_bytes 32 genesis_hash
    ++ (le_bytes 32 did
        ++ (le_bytes 32 controller ++ (le_bytes 4 signed_at_block ++ le_bytes 32 signed_at_hash)))

-- The crate `ml_dsa`: the encoded verifying key of a signing key, the bytes that it is stored as, and
-- its encoded signature of a message.
pub record Signing : Type 0 where
  pub verifying_key : ℕ → List ℕ
  pub to_bytes : ℕ → List ℕ
  pub sign : ℕ → List ℕ → List ℕ

pub record RegisteredAgent : Type 0 where
  pub did : ℕ
  pub signing_key_bytes : List ℕ

module _ {S : Type 0} (node : Node S) where
  unfoldable pub update_profile : ℕ → ℕ → ℕ → List ℕ → List ℕ → S → S × CallResult (Unit {0})
  update_profile signer did capabilities metadata label s = confirmed tt (
      call_and_confirm node signer
        (record {
          pallet_name = pallet_name;
          call_name = "update_profile";
          args = from_array did ∷ u128 capabilities ∷ from_bytes metadata ∷ from_bytes label ∷ [];
        })
        "AgentProfileUpdated" s)

  unfoldable pub set_agent_status : ℕ → ℕ → AgentStatus → S → S × CallResult (Unit {0})
  unfolding variant_name
  set_agent_status signer did new_status s = confirmed tt (
      call_and_confirm node signer
        (record {
          pallet_name = pallet_name;
          call_name = "set_agent_status";
          args = from_array did ∷ unnamed_variant (variant_name new_status) [] ∷ [];
        })
        "AgentStatusChanged" s)

  unfoldable pub give_star : ℕ → ℕ → ℕ → S → S × CallResult (Unit {0})
  give_star signer giver_did receiver s = confirmed tt (
      call_and_confirm node signer
        (record {
          pallet_name = pallet_name;
          call_name = "give_star";
          args = from_array giver_did ∷ from_array receiver ∷ [];
        })
        "StarGiven" s)

  unfoldable pub remove_star : ℕ → ℕ → ℕ → S → S × CallResult (Unit {0})
  remove_star signer giver_did receiver s = confirmed tt (
      call_and_confirm node signer
        (record {
          pallet_name = pallet_name;
          call_name = "remove_star";
          args = from_array giver_did ∷ from_array receiver ∷ [];
        })
        "StarRemoved" s)

  unfoldable pub deregister_agent : ℕ → ℕ → S → S × CallResult (Unit {0})
  deregister_agent signer did s = confirmed tt (
      call_and_confirm node signer
        (record {
          pallet_name = pallet_name;
          call_name = "deregister_agent";
          args = from_array did ∷ [];
        })
        "AgentDeregistered" s)

  unfoldable pub submit_signed_registration :
      (List ℕ → ℕ) → ℕ → List ℕ → List ℕ → ℕ → ℕ → List ℕ → List ℕ → S → S × CallResult ℕ
  unfolding did_of
  submit_signed_registration blake2_256 signer pubkey signature signed_at_block capabilities
        metadata label s =
      let did = did_of blake2_256 pubkey in
      confirmed did (
        call_and_confirm node signer
          (record {
            pallet_name = pallet_name;
            call_name = "register_agent";
            args =
                from_bytes pubkey
                ∷ from_bytes signature
                ∷ u128 signed_at_block
                ∷ u128 capabilities
                ∷ from_bytes metadata
                ∷ from_bytes label
                ∷ [];
          })
          "AgentRegistered" s)

  -- `signing_key` is the key that `SigningKey::generate` returns.
  unfoldable pub register_agent :
      (List ℕ → ℕ) → Signing → ℕ → ℕ → ℕ → List ℕ → List ℕ → S → S × CallResult RegisteredAgent
  unfolding did_of encode_challenge
  register_agent blake2_256 keys signing_key signer capabilities metadata label s =
      let pubkey = keys.verifying_key signing_key in
      let did = did_of blake2_256 pubkey in
      elim (node.at_latest s) [
        | none ↦ (s, failed subxt)
        | some (signed_at_block, signed_at_hash) ↦
            let challenge =
              encode_challenge (node.genesis_hash s) did signer signed_at_block signed_at_hash in
            let signature = keys.sign signing_key challenge in
            confirmed (record { did = did; signing_key_bytes = keys.to_bytes signing_key })
              (call_and_confirm node signer
                (record {
                  pallet_name = pallet_name;
                  call_name = "register_agent";
                  args =
                      from_bytes pubkey
                      ∷ from_bytes signature
                      ∷ u128 signed_at_block
                      ∷ u128 capabilities
                      ∷ from_bytes metadata
                      ∷ from_bytes label
                      ∷ [];
                })
                "AgentRegistered" s)
      ]
