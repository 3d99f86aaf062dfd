-- ===== src/AgentRegistry/Challenge.antt =====
-- The challenge of `register_agent` in pallets/pallet-agent-registry/src/lib.rs: its bytes bind the
-- chain, the DID, the account and the block.
use arthneura_core.Base.{ℕ, ◌<◌, ◌^◌, ◌≡◌, []}
use arthneura_core.Base.Bytes.{le_bytes-append}
use mathlib.Core.List.{append-nil}
use arthneura_core.AgentRegistry.{challenge}

-- Two challenges (of 32-byte hashes, DIDs and accounts and 4-byte blocks) with the same bytes are for the
-- same genesis hash, DID, controller, block and block hash.
pub challenge-injective :
    (g d c n h g' d' c' n' h' : ℕ)
    → (g < 256 ^ 32) × (d < 256 ^ 32) × (c < 256 ^ 32) × (n < 256 ^ 4) × (h < 256 ^ 32)
    → (g' < 256 ^ 32) × (d' < 256 ^ 32) × (c' < 256 ^ 32) × (n' < 256 ^ 4) × (h' < 256 ^ 32)
    → challenge g d c n h ≡ challenge g' d' c' n' h'
    → (g ≡ g') × (d ≡ d') × (c ≡ c') × (n ≡ n') × (h ≡ h')
unfolding challenge
challenge-injective g d c n h g' d' c' n' h' (hg, hd, hc, hn, hh) (hg', hd', hc', hn', hh') e =
    let (same_g, tail_g) = le_bytes-append 32 g g' _ _ hg hg' e in
    let (same_d, tail_d) = le_bytes-append 32 d d' _ _ hd hd' tail_g in
    let (same_c, tail_c) = le_bytes-append 32 c c' _ _ hc hc' tail_d in
    let (same_n, tail_n) = le_bytes-append 4 n n' _ _ hn hn' tail_c in
    let (same_h, _) = le_bytes-append 32 h h' [] [] hh hh' (rw (append-nil, append-nil) tail_n) in
    (same_g, same_d, same_c, same_n, same_h)
