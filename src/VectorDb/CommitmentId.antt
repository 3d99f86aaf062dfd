-- ===== src/VectorDb/CommitmentId.antt =====
-- The commitment id of pallets/pallet-vector-db/src/lib.rs: the bytes that are hashed determine the
-- parties, the root and the block.
use arthneura_core.Base.{ℕ, ◌<◌, ◌^◌, ◌≡◌, []}
use arthneura_core.Base.Bytes.{ascii, append_cancel, le_bytes-append}
use mathlib.Core.List.{append-nil}
use arthneura_core.VectorDb.{Hashing, preimage, commitment_id_of}

-- If the hash of the host does not collide on the two preimages, two commitments (of 32-byte parties and
-- roots and 4-byte blocks) with equal ids have the same provider, consumer, root and block.
pub commitment_id_of-injective :
    (k : Hashing) (p c r n p' c' r' n' : ℕ)
    → (p < 256 ^ 32) × (c < 256 ^ 32) × (r < 256 ^ 32) × (n < 256 ^ 4)
    → (p' < 256 ^ 32) × (c' < 256 ^ 32) × (r' < 256 ^ 32) × (n' < 256 ^ 4)
    → (k.blake2_256 (preimage p c r n) ≡ k.blake2_256 (preimage p' c' r' n')
        → preimage p c r n ≡ preimage p' c' r' n')
    → commitment_id_of k p c r n ≡ commitment_id_of k p' c' r' n'
    → (p ≡ p') × (c ≡ c') × (r ≡ r') × (n ≡ n')
unfolding commitment_id_of preimage
commitment_id_of-injective k p c r n p' c' r' n' (hp, hc, hr, hn) (hp', hc', hr', hn')
      collision_free e =
    let tail = append_cancel (ascii "ArthNeura-Vector-v1") _ _ (collision_free e) in
    let (same_p, tail_p) = le_bytes-append 32 p p' _ _ hp hp' tail in
    let (same_c, tail_c) = le_bytes-append 32 c c' _ _ hc hc' tail_p in
    let (same_r, tail_r) = le_bytes-append 32 r r' _ _ hr hr' tail_c in
    let (same_n, _) = le_bytes-append 4 n n' [] [] hn hn' (rw (append-nil, append-nil) tail_r) in
    (same_p, same_c, same_r, same_n)
