-- ===== src/Runtime/Payment.antt =====
-- The money of a trade, across pallets/pallet-vector-db, pallets/pallet-escrow and
-- runtime/src/adapters: who pays when, and who is paid at each end of a commitment.
use arthneura_core.Base.{ℕ, ◌+◌, ◌≡◌, inl, inr, true, some, List, arith, ==_refl, Option-cases}
use mathlib.Core.Logic.{◌↔◌}
use arthneura_core.Base.Map.{lookup, lookup-insert}
use arthneura_core.Frame.{Origin, signed, ok, Result-cases}
use arthneura_core.Currency.{Currency, IsReservable}
use arthneura_core.Escrow.{Escrow, EscrowRecord, is_locked}
use arthneura_core.Escrow
use arthneura_core.Escrow.Outcome.{new_record, lock-ok}
use arthneura_core.Escrow.Solvency.{IsSolvent, release_pays, refund_pays}
use arthneura_core.AgentRegistry.{
  slash_reputation, slash_reputation_for_guilty_delivery, add_strike, slash_deposit, is_active,
  active,
}
use arthneura_core.AgentRegistry
use arthneura_core.VectorDb.{
  VectorCommitment, VectorDb, Hashing, acknowledge_commitment, close_commitment, counter_dispute,
  finalize_dispute,
}
use arthneura_core.VectorDb.Outcome.{acknowledge_commitment-ok, close_commitment-ok}
use arthneura_core.VectorDb.DisputeOutcome.{counter_dispute-ok, finalize_dispute-ok}
use arthneura_core.Runtime.{
  World, vector_db_config, registry_config, escrow_part, with_escrow, lock, release, refund,
  is_active_verified, penalize_provider, penalize_false_disputer,
}
use arthneura_core.Runtime
use arthneura_core.Runtime.Adapters.{penalize_false_disputer-escrows}
use arthneura_core.Runtime.Backing.{Backed}

-- In a valid registry, the adapter finds an agent eligible exactly when it is registered and `Active`.
pub is_active_verified_iff :
    {B : Type 0} (did : ℕ) (w : World B)
    → AgentRegistry.Invariant.IsValid w.agents
    → (is_active_verified w did ≡ true) ↔ (
        (p : AgentRegistry.AgentProfile) × (lookup did w.agents.agent_profiles ≡ some p)
        × (p.status ≡ active))
unfolding is_active_verified
is_active_verified_iff did w v = (
  λ e. elim (Option-cases (lookup did w.agents.agent_profiles)) [
    | inl missing ↦ absurd (ground arith)
    | inr (p, found) ↦ (p, found, ground arith)
  ],
  λ r. let (p, found, is) = r in let verified = (v.named did p found).1 in ground arith,
)

-- The free balance of an account in a runtime.
abbrev pub free_of : {B : Type 0} → Currency B → ℕ → VectorDb (World B) → ℕ
free_of c who s = c.free s.world.agents.balances who

abbrev pub reserve_of : {B : Type 0} → Currency B → ℕ → VectorDb (World B) → ℕ
reserve_of c who s = c.reserved s.world.agents.balances who

module _ {B : Type 0} (c : Currency B) (laws : IsReservable c) where
  -- A penalty takes nothing from any free balance.
  penalize_provider-free :
      (did who : ℕ) (w : World B)
      → c.free (penalize_provider c did w).agents.balances who ≡ c.free w.agents.balances who
  unfolding penalize_provider slash_reputation_for_guilty_delivery slash_reputation add_strike
  penalize_provider-free did who w = grind (arith, laws.free-slash_reserved)

  penalize_false_disputer-balances :
      (did : ℕ) (w : World B)
      → (penalize_false_disputer c did w).agents.balances ≡ w.agents.balances
  unfolding penalize_false_disputer slash_reputation
  penalize_false_disputer-balances did w = ground arith

  -- Acknowledging a commitment takes its price from the free balance of the account that
  -- controls the consumer, which signed the call, into its reserve, and earmarks it for the account
  -- that controls the provider at that block.
  pub acknowledge_commitment-charges :
      (now who id consumer : ℕ) (s t : VectorDb (World B))
      → acknowledge_commitment (vector_db_config c) now (signed who) id consumer s ≡ ok t
      → (m : VectorCommitment) × (payee : ℕ) × (lookup id s.vector_commitments ≡ some m)
        × (Runtime.controller_of s.world m.consumer ≡ some who)
        × (Runtime.controller_of s.world m.provider ≡ some payee)
        × (lookup id t.world.escrows ≡ some (new_record now who payee m.price))
        × (free_of c who t + m.price ≡ free_of c who s)
        × (reserve_of c who t ≡ reserve_of c who s + m.price)
  unfolding lock
  acknowledge_commitment-charges now who id consumer s t e =
      let (who', m, payee, w, same, found, _, _, named, acts, provider, held, done) =
        acknowledge_commitment-ok (vector_db_config c) now (signed who) id consumer s t e in
      let same_who : who' ≡ who = cc in
      elim (Result-cases (Escrow.lock c now id who' payee m.price (escrow_part s.world))) [
        | inl (x, refused) ↦ absurd (ground arith)
        | inr (t', locked) ↦
            let (b, fresh, taken, after) =
              lock-ok c now id who' payee m.price (escrow_part s.world) t' locked in
            let w_is : w ≡ with_escrow s.world t' = ground arith in
            let enough = laws.reserve-covered who' m.price s.world.agents.balances b taken in
            let free_after = laws.free-reserve who' m.price who' s.world.agents.balances b taken in
            let held_after =
              laws.reserved-reserve who' m.price who' s.world.agents.balances b taken in
            rw (done, w_is, after, ← same_who)
              (
                m,
                payee,
                found,
                rw named acts.controls,
                provider,
                rw (lookup-insert, ==_refl),
                ground (arith, free_after),
                ground (arith, held_after),
              )
      ]

  -- What a release, and a refund, through the adapter moves in a solvent runtime.
  release-moves :
      (other : ℕ → ℕ) (id price : ℕ) (r : EscrowRecord) (w w' : World B)
      → IsSolvent c other (escrow_part w)
      → lookup id w.escrows ≡ some r
      → r.amount ≡ price
      → release c id w ≡ ok w'
      → (c.free w'.agents.balances r.payee ≡ c.free w.agents.balances r.payee + price)
        × (c.reserved w'.agents.balances r.payer + price ≡ c.reserved w.agents.balances r.payer)
        × IsSolvent c other (escrow_part w')
  unfolding release
  release-moves other id price r w w' v held priced e =
      elim (Result-cases (Escrow.release c id (escrow_part w))) [
        | inl (x, refused) ↦ absurd (ground arith)
        | inr (t, paid) ↦
            let (free_after, reserve_after, _, _, solvent) =
              release_pays c laws other id r (escrow_part w) t v held paid in
            let w_is : with_escrow w t ≡ w' = ground arith in
            rw (← w_is, ← priced) (free_after, reserve_after, solvent)
      ]

  refund-moves :
      (other : ℕ → ℕ) (id price : ℕ) (r : EscrowRecord) (w w' : World B)
      → IsSolvent c other (escrow_part w)
      → lookup id w.escrows ≡ some r
      → is_locked r.status ≡ true
      → r.amount ≡ price
      → refund c id w ≡ ok w'
      → (c.free w'.agents.balances r.payer ≡ c.free w.agents.balances r.payer + price)
        × (c.reserved w'.agents.balances r.payer + price ≡ c.reserved w.agents.balances r.payer)
        × IsSolvent c other (escrow_part w')
  unfolding refund
  refund-moves other id price r w w' v held is priced e =
      let (t, paid, free_after, reserve_after, _, solvent) =
        refund_pays c laws other id r (escrow_part w) v held is in
      let w_is : with_escrow w t ≡ w' = ground arith in
      rw (← w_is, ← priced) (free_after, reserve_after, solvent)

  -- Settling a commitment of a solvent and backed runtime pays its price from the reserve of the
  -- escrow's payer to the free balance of its payee, and leaves the runtime solvent.
  pub close_commitment-pays :
      (other : ℕ → ℕ) (now id consumer stream_hash chunks : ℕ) (o : Origin)
      (s t : VectorDb (World B))
      → IsSolvent c other (escrow_part s.world)
      → Backed s
      → close_commitment (vector_db_config c) now o id consumer stream_hash chunks s ≡ ok t
      → (m : VectorCommitment) × (r : EscrowRecord) × (lookup id s.vector_commitments ≡ some m)
        × (lookup id s.world.escrows ≡ some r)
        × (free_of c r.payee t ≡ free_of c r.payee s + m.price)
        × (reserve_of c r.payer t + m.price ≡ reserve_of c r.payer s)
        × IsSolvent c other (escrow_part t.world)
  close_commitment-pays other now id consumer stream_hash chunks o s t v b e =
      let (_, m, w, _, found, is, _, _, _, _, paid, done) =
        close_commitment-ok (vector_db_config c) now o id consumer stream_hash chunks s t e in
      let (r, held, _, price) = b id m found (ground arith) in
      let (free_after, reserve_after, solvent) =
        release-moves other id m.price r s.world w v held price paid in
      rw done (m, r, found, held, free_after, reserve_after, solvent)

  -- A dispute that the provider counters in a solvent and backed runtime pays the price from the
  -- reserve of the escrow's payer to the free balance of its payee, and leaves the runtime solvent:
  -- the penalty of the consumer moves no funds.
  pub counter_dispute-pays :
      (other : ℕ → ℕ) (k : Hashing) (now id provider : ℕ) (chunk proof : List ℕ) (o : Origin)
      (s t : VectorDb (World B))
      → IsSolvent c other (escrow_part s.world)
      → Backed s
      → counter_dispute (vector_db_config c) k now o id provider chunk proof s ≡ ok t
      → (m : VectorCommitment) × (r : EscrowRecord) × (lookup id s.vector_commitments ≡ some m)
        × (lookup id s.world.escrows ≡ some r)
        × (free_of c r.payee t ≡ free_of c r.payee s + m.price)
        × (reserve_of c r.payer t + m.price ≡ reserve_of c r.payer s)
        × IsSolvent c other (escrow_part t.world)
  counter_dispute-pays other k now id provider chunk proof o s t v b e =
      let (_, m, d, w, _, found, is, _, _, _, _, _, _, paid, done) =
        counter_dispute-ok (vector_db_config c) k now o id provider chunk proof s t e in
      let (r, held, _, price) = b id m found (ground arith) in
      let (free_after, reserve_after, solvent) =
        release-moves other id m.price r s.world w v held price paid in
      let kept = penalize_false_disputer-balances m.consumer w in
      let escrows_kept = penalize_false_disputer-escrows c m.consumer w in
      let same : IsSolvent c other (escrow_part (penalize_false_disputer c m.consumer w)) = record {
        keyed = rw escrows_kept (solvent.keyed);
        covered = λ who. rw (escrows_kept, kept) (solvent.covered who);
      } in
      rw done (m, r, found, held, rw kept free_after, rw kept reserve_after, same)

  -- Finalizing a dispute of a solvent and backed runtime gives the price back to the free balance
  -- of the account that paid into the escrow, which the provider's penalty does not lower.
  pub finalize_dispute-refunds :
      (other : ℕ → ℕ) (now id : ℕ) (o : Origin) (s t : VectorDb (World B))
      → IsSolvent c other (escrow_part s.world)
      → Backed s
      → finalize_dispute (vector_db_config c) now o id s ≡ ok t
      → (m : VectorCommitment) × (r : EscrowRecord) × (lookup id s.vector_commitments ≡ some m)
        × (lookup id s.world.escrows ≡ some r)
        × (free_of c r.payer t ≡ free_of c r.payer s + m.price)
  finalize_dispute-refunds other now id o s t v b e =
      let (m, d, w, found, is, _, _, paid, done) =
        finalize_dispute-ok (vector_db_config c) now o id s t e in
      let (r, held, locked, price) = b id m found (ground arith) in
      let (free_after, _, _) = refund-moves other id m.price r s.world w v held locked price paid in
      rw done (m, r, found, held, rw (penalize_provider-free m.provider r.payer w) free_after)
