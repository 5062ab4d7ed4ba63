-- ===== src/Genesis.antt =====
-- 111/src/tx.rs `create_genesis_block`: the first block, and the search of its nonce. The text in its
-- coinbase is taken in UTF-8.
pub mod Nonce
mod Tests
use abc.Bytes.{Bytes, from_be_bytes, zero_hash}
use abc.Errors.{Result, ok, err, ◌>>=◌, anyhow}
use abc.External.{External}
use abc.Prelude.{ℕ, zero, suc, ◌+◌, ◌^◌, List, [], ◌∷◌, leb, if◌then◌else◌, false, none}
use abc.Tx.{header_hash, p2pkh_script, u32_max}
use abc.Tx.Merkle.{compute_merkle_root}
use abc.Types.{Transaction, BlockHeader, Block}
use abc.Utils.Compact.{compact_to_target}
use abc.Utils.Constants.{genesis_timestamp}
use abc.Utils.Subsidy.{subsidy}

-- The bytes of the text.
abbrev pub launch_text : Bytes
launch_text =
    b'L' ∷ b'y' ∷ b'r' ∷ b'i' ∷ b'o' ∷ b'n' ∷ b' ' ∷ b'N' ∷ b'e' ∷ b't' ∷ b'w' ∷ b'o' ∷ b'r' ∷ b'k'
    ∷ b' ' ∷ 226 ∷ 128 ∷ 147 ∷ b' ' ∷ b'P' ∷ b'r' ∷ b'i' ∷ b'v' ∷ b'a' ∷ b'c' ∷ b'y' ∷ b' ' ∷ b'b'
    ∷ b'y' ∷ b' ' ∷ b'D' ∷ b'e' ∷ b's' ∷ b'i' ∷ b'g' ∷ b'n' ∷ b' ' ∷ 226 ∷ 128 ∷ 147 ∷ b' ' ∷ b'L'
    ∷ b'a' ∷ b'u' ∷ b'n' ∷ b'c' ∷ b'h' ∷ b'e' ∷ b'd' ∷ b' ' ∷ b'N' ∷ b'o' ∷ b'v' ∷ b'e' ∷ b'm'
    ∷ b'b' ∷ b'e' ∷ b'r' ∷ b' ' ∷ b'2' ∷ b'0' ∷ b',' ∷ b' ' ∷ b'2' ∷ b'0' ∷ b'2' ∷ b'5' ∷ []

module _ (x : External) where
  unfoldable pub genesis_coinbase : Bytes → Transaction
  genesis_coinbase pubkey = record {
    version = 1;
    is_anonymous = false;
    inputs =
        record { txid = zero_hash; vout = u32_max; script_sig = launch_text; sequence = u32_max }
        ∷ [];
    outputs =
        record { value = subsidy 0; script_pubkey = p2pkh_script x pubkey; commitment = none } ∷ [];
    lock_time = 0;
    range_proofs = [];
  }

  unfoldable pub genesis_header : Transaction → BlockHeader
  genesis_header coinbase_tx = record {
    version = 1;
    prev_hash = zero_hash;
    merkle_root = compute_merkle_root x (coinbase_tx ∷ []);
    timestamp = genesis_timestamp;
    bits = 0x1d00ffff;
    nonce = 0;
  }

  -- The loop over the nonces, from `nonce` on with `n` left before it wraps around.
  unfoldable pub find_nonce : ℕ → ℕ → ℕ → BlockHeader → Result BlockHeader
  find_nonce target zero nonce header = err (anyhow "Impossible to mine genesis – increase bits")
  find_nonce target (suc n) nonce header = do
    let tried = record header { nonce = nonce }
    hash ← header_hash x tried
    (if leb (from_be_bytes hash) target then ok tried else find_nonce target n (nonce + 1) header)

  unfoldable pub create_genesis_block : Bytes → Result Block
  create_genesis_block pubkey = do
    let coinbase_tx = genesis_coinbase pubkey
    let header = genesis_header coinbase_tx
    target ← compact_to_target header.bits
    found ← find_nonce target (2 ^ 64) 0 header
    ok (record { header = found; txs = coinbase_tx ∷ [] })
