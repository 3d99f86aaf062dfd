-- ===== src/VectorDb/Calls.antt =====
-- A history of pallets/pallet-vector-db/src/lib.rs: its extrinsics, each with the block at which it
-- runs and the account that sends it, in the order of execution. Between two calls the rest of the
-- runtime may change in any way.
use arthneura_core.Base.{ℕ, List, [], ◌∷◌}
use arthneura_core.Frame.{Origin, Result, committed}
use arthneura_core.VectorDb.{
  VectorDb, Config, Hashing, register_commitment, acknowledge_commitment, close_commitment,
  raise_dispute, counter_dispute, finalize_dispute, expire_commitment,
}

pub data Call : Type 0 where
  registers : ℕ → Origin → ℕ → ℕ → ℕ → ℕ → List ℕ → ℕ → ℕ → Call
  acknowledges : ℕ → Origin → ℕ → ℕ → Call
  closes : ℕ → Origin → ℕ → ℕ → ℕ → ℕ → Call
  raises : ℕ → Origin → ℕ → ℕ → ℕ → ℕ → ℕ → Call
  counters : ℕ → Origin → ℕ → ℕ → List ℕ → List ℕ → Call
  finalizes : ℕ → Origin → ℕ → Call
  expires : ℕ → Origin → ℕ → Call

-- A call of the pallet, or anything that the rest of the runtime does.
pub data Step (W : Type 0) : Type 0 where
  calls : Call → Step W
  elsewhere : (W → W) → Step W

module _ {W : Type 0} (cfg : Config W) (k : Hashing) where
  unfoldable pub call : Call → VectorDb W → Result (VectorDb W)
  call (registers now o provider consumer merkle_root chunks metadata expires_in price) s =
      register_commitment cfg k now o provider consumer merkle_root chunks metadata expires_in price
        s
  call (acknowledges now o id consumer) s = acknowledge_commitment cfg now o id consumer s
  call (closes now o id consumer stream_hash chunks) s =
      close_commitment cfg now o id consumer stream_hash chunks s
  call (raises now o id consumer index received chunks) s =
      raise_dispute cfg now o id consumer index received chunks s
  call (counters now o id provider chunk proof) s =
      counter_dispute cfg k now o id provider chunk proof s
  call (finalizes now o id) s = finalize_dispute cfg now o id s
  call (expires now o id) s = expire_commitment cfg now o id s

  unfoldable pub run : List (Step W) → VectorDb W → VectorDb W
  run [] s = s
  run (calls x ∷ xs) s = run xs (committed s (call x s))
  run (elsewhere f ∷ xs) s = run xs (record s { world = f s.world })
