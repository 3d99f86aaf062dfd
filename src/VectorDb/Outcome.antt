-- ===== src/VectorDb/Outcome.antt =====
-- What a successful call of pallets/pallet-vector-db/src/lib.rs has checked and what it leaves
-- behind: registration, acknowledgement and settlement.
use arthneura_core.Base.{
  ℕ, ◌-◌, ◌≤◌, ◌<◌, ◌≡◌, refl, ◌≢◌, inl, inr, true, some, none, List, ◌∷◌, arith, saturating_add,
  Option-cases,
}
use arthneura_core.Base.Map.{lookup, insert}
use arthneura_core.Frame.{Origin, signed, root, unsigned, ok, Result-cases}
use arthneura_core.VectorDb.{
  VectorCommitment, VectorDb, Config, Hashing, pending, active, settled, is_pending, is_active,
  commitment_registered, commitment_acknowledged, commitment_settled, commitment_id_of,
  register_commitment, acknowledge_commitment, close_commitment,
}

-- The commitment that a registration stores.
abbrev pub new_commitment : ℕ → ℕ → ℕ → ℕ → ℕ → List ℕ → ℕ → ℕ → ℕ → VectorCommitment
new_commitment id provider consumer merkle_root total_chunks metadata created_at expires_at price =
    record {
      commitment_id = id;
      provider = provider;
      consumer = consumer;
      merkle_root = merkle_root;
      total_chunks = total_chunks;
      metadata = metadata;
      status = pending;
      created_at = created_at;
      expires_at = expires_at;
      acknowledged_at = none;
      price = price;
    }

module _ {W : Type 0} (cfg : Config W) where
  -- The caller is the controller of an agent that is active and verified.
  pub record Acts (who did : ℕ) (s : VectorDb W) : Type 0 where
    pub controls : cfg.agents.controller_of s.world did ≡ some who
    pub eligible : cfg.agents.is_active_verified s.world did ≡ true

  pub register_commitment-ok :
      (k : Hashing) (now : ℕ) (origin : Origin) (provider consumer merkle_root total_chunks : ℕ)
      (metadata : List ℕ) (expires_in price : ℕ) (s t : VectorDb W)
      → register_commitment cfg k now origin provider consumer merkle_root total_chunks metadata
          expires_in price s
        ≡ ok t
      → (who : ℕ) × (origin ≡ signed who)
        × Acts who provider s
        × (cfg.agents.is_active_verified s.world consumer ≡ true)
        × (provider ≢ consumer)
        × (0 < total_chunks)
        × (merkle_root ≢ 0)
        × (0 < expires_in)
        × (expires_in ≤ cfg.max_commitment_lifetime)
        × (lookup (commitment_id_of k provider consumer merkle_root now) s.vector_commitments
            ≡ none)
        × (t ≡ record s {
          vector_commitments =
              insert
                (commitment_id_of k provider consumer merkle_root now)
                (new_commitment
                  (commitment_id_of k provider consumer merkle_root now)
                  provider
                  consumer
                  merkle_root
                  total_chunks
                  metadata
                  now
                  (saturating_add now expires_in)
                  price)
                s.vector_commitments;
          active_commitment_count = saturating_add s.active_commitment_count 1;
          events =
              commitment_registered
                (commitment_id_of k provider consumer merkle_root now)
                provider
                consumer
                merkle_root
                total_chunks
                (saturating_add now expires_in)
                metadata
              ∷ s.events;
        })
  unfolding register_commitment
  register_commitment-ok k now root provider consumer merkle_root total_chunks metadata expires_in
        price s t e =
      absurd (cc)
  register_commitment-ok k now unsigned provider consumer merkle_root total_chunks metadata
        expires_in price s t e =
      absurd (cc)
  register_commitment-ok k now (signed who) provider consumer merkle_root total_chunks metadata
        expires_in price s t e =
      elim (Option-cases (cfg.agents.controller_of s.world provider)) [
        | inl missing ↦ absurd (ground arith)
        | inr (owner, found) ↦ (
          who,
          refl,
          ground arith,
          ground arith,
          ground arith,
          ground arith,
          ground arith,
          ground arith,
          ground arith,
          ground arith,
          ground arith,
        )
      ]

  pub acknowledge_commitment-ok :
      (now : ℕ) (origin : Origin) (id consumer : ℕ) (s t : VectorDb W)
      → acknowledge_commitment cfg now origin id consumer s ≡ ok t
      → (who : ℕ) × (m : VectorCommitment) × (payee : ℕ) × (w : W) × (origin ≡ signed who)
        × (lookup id s.vector_commitments ≡ some m)
        × (is_pending m.status ≡ true)
        × (now < m.expires_at)
        × (m.consumer ≡ consumer)
        × Acts who consumer s
        × (cfg.agents.controller_of s.world m.provider ≡ some payee)
        × (cfg.escrow.lock now id who payee m.price s.world ≡ ok w)
        × (t ≡ record s {
          vector_commitments =
              insert id
                (record m { status = active; acknowledged_at = some now })
                s.vector_commitments;
          world = w;
          events = commitment_acknowledged id now ∷ s.events;
        })
  unfolding acknowledge_commitment
  acknowledge_commitment-ok now root id consumer s t e = absurd (cc)
  acknowledge_commitment-ok now unsigned id consumer s t e = absurd (cc)
  acknowledge_commitment-ok now (signed who) id consumer s t e =
      elim (Option-cases (lookup id s.vector_commitments)) [
        | inl missing ↦ absurd (ground arith)
        | inr (m, found) ↦ elim (Option-cases (cfg.agents.controller_of s.world m.provider)) [
          | inl gone ↦ absurd (ground arith)
          | inr (payee, owner) ↦
              elim (Result-cases (cfg.escrow.lock now id who payee m.price s.world)) [
                | inl (x, refused) ↦ absurd (ground arith)
                | inr (w, held) ↦ (
                  who,
                  m,
                  payee,
                  w,
                  refl,
                  found,
                  ground arith,
                  ground arith,
                  ground arith,
                  ground arith,
                  owner,
                  held,
                  ground arith,
                )
              ]
        ]
      ]

  pub close_commitment-ok :
      (now : ℕ) (origin : Origin) (id consumer stream_hash chunk_count : ℕ) (s t : VectorDb W)
      → close_commitment cfg now origin id consumer stream_hash chunk_count s ≡ ok t
      → (who : ℕ) × (m : VectorCommitment) × (w : W) × (origin ≡ signed who)
        × (lookup id s.vector_commitments ≡ some m)
        × (is_active m.status ≡ true)
        × (now < m.expires_at)
        × (m.consumer ≡ consumer)
        × Acts who consumer s
        × (stream_hash ≡ m.merkle_root)
        × (cfg.escrow.release id s.world ≡ ok w)
        × (t ≡ record s {
          stream_receipts =
              insert id
                (record {
                  commitment_id = id;
                  final_stream_hash = stream_hash;
                  chunk_count = chunk_count;
                  submitted_at = now;
                })
                s.stream_receipts;
          vector_commitments = insert id (record m { status = settled }) s.vector_commitments;
          active_commitment_count = s.active_commitment_count - 1;
          world = w;
          events = commitment_settled id stream_hash chunk_count ∷ s.events;
        })
  unfolding close_commitment
  close_commitment-ok now root id consumer stream_hash chunk_count s t e = absurd (cc)
  close_commitment-ok now unsigned id consumer stream_hash chunk_count s t e = absurd (cc)
  close_commitment-ok now (signed who) id consumer stream_hash chunk_count s t e =
      elim (Option-cases (lookup id s.vector_commitments)) [
        | inl missing ↦ absurd (ground arith)
        | inr (m, found) ↦ elim (Result-cases (cfg.escrow.release id s.world)) [
          | inl (x, refused) ↦ absurd (ground arith)
          | inr (w, paid) ↦ (
            who,
            m,
            w,
            refl,
            found,
            ground arith,
            ground arith,
            ground arith,
            ground arith,
            ground arith,
            paid,
            ground arith,
          )
        ]
      ]
