-- ===== src/Errors.antt =====
-- The `Error` enumerations of the three pallets, in the order of their declarations:
-- pallets/pallet-agent-registry/src/lib.rs, pallets/pallet-escrow/src/lib.rs and
-- pallets/pallet-vector-db/src/lib.rs.

pub data RegistryError : Type 0 where
  did_already_registered : RegistryError
  did_not_found : RegistryError
  not_controller : RegistryError
  agent_revoked : RegistryError
  too_many_agents_for_controller : RegistryError
  cooldown_not_expired : RegistryError
  not_starred : RegistryError
  cannot_star_self : RegistryError
  cannot_star_same_controller : RegistryError
  invalid_pubkey_length : RegistryError
  invalid_signature_length : RegistryError
  invalid_challenge_block : RegistryError
  challenge_expired : RegistryError
  invalid_quantum_proof : RegistryError
  insufficient_balance_for_deposit : RegistryError
  agent_already_revoked : RegistryError

pub data EscrowError : Type 0 where
  escrow_already_exists : EscrowError
  escrow_not_found : EscrowError
  escrow_not_locked : EscrowError
  insufficient_balance_for_escrow : EscrowError

pub data VectorDbError : Type 0 where
  commitment_already_exists : VectorDbError
  commitment_not_found : VectorDbError
  not_provider : VectorDbError
  not_consumer : VectorDbError
  provider_not_eligible : VectorDbError
  consumer_not_eligible : VectorDbError
  self_trade : VectorDbError
  expiry_must_be_positive : VectorDbError
  expiry_too_far : VectorDbError
  commitment_expired_error : VectorDbError
  not_pending : VectorDbError
  not_active : VectorDbError
  not_disputed : VectorDbError
  already_finalized : VectorDbError
  stream_hash_mismatch : VectorDbError
  invalid_merkle_proof : VectorDbError
  dispute_already_raised : VectorDbError
  dispute_window_still_open : VectorDbError
  dispute_window_expired : VectorDbError
  not_yet_expired : VectorDbError
  total_chunks_must_be_positive : VectorDbError
  invalid_merkle_root : VectorDbError
  chunk_index_out_of_bounds : VectorDbError
