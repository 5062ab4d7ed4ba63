-- ===== src/Tx.antt =====
-- 111/src/tx.rs: transactions and blocks, hashed, measured and built; with the hash functions of
-- 111/src/utils.rs.
pub mod Merkle
use abc.Prelude.{
  ℕ, ◌-◌, ◌+◌, ◌%◌, ◌^◌, Bool, true, false, ◌&&◌, Option, none, some, List, [], ◌∷◌, ◌++◌, map,
  length, ◌==◌, if◌then◌else◌,
}
use abc.Bytes.{Bytes, eq_bytes, to_le_bytes, zero_hash}
use abc.Errors.{Result, ok, err, anyhow}
use abc.Types.{Hash, TxInput, TxOutput, Transaction, BlockHeader, Block}
use abc.Utils.Checked.{u32_mod, try_sum}
use abc.External.{External}

-- `u32::MAX`
abbrev pub u32_max : ℕ
u32_max = 0xffff_ffff

-- `Transaction::is_coinbase`
unfoldable pub is_coinbase_inputs : List TxInput → Bool
is_coinbase_inputs (i ∷ []) = eq_bytes i.txid zero_hash && i.vout == u32_max
is_coinbase_inputs _ = false

abbrev pub is_coinbase : Transaction → Bool
is_coinbase tx = is_coinbase_inputs tx.inputs

-- A map from outpoints to outputs; a later entry stands in front.
abbrev pub Outputs : Type 0
Outputs = List ((Hash × ℕ) × TxOutput)

unfoldable pub get_output : Hash → ℕ → Outputs → Option TxOutput
get_output txid vout [] = none
get_output txid vout (((t, v), o) ∷ m) =
    if eq_bytes txid t && vout == v then some o else get_output txid vout m

-- What an input is worth by the map: 0 if it is not there.
unfoldable pub input_value : Outputs → TxInput → ℕ
input_value m vin = elim (get_output vin.txid vin.vout m) [ none ↦ 0 | some o ↦ o.value ]

-- `Transaction::fee`. The overflow of a sum gives 0.
unfoldable pub fee : Transaction → Outputs → ℕ
fee tx m = elim (try_sum 0 (map (input_value m) tx.inputs)) [
  | none ↦ 0
  | some input_sum ↦ elim (try_sum 0 (map (λ o. o.value) tx.outputs)) [
    | none ↦ 0
    | some output_sum ↦ input_sum - output_sum
  ]
]

module _ (x : External) where
  open x use {serialize_tx, serialize_header, serialize_block, sha256, ripemd160, calculate_hash}

  unfoldable pub sha256d : Bytes → Hash
  sha256d d = sha256 (sha256 d)

  unfoldable pub hash160 : Bytes → Bytes
  hash160 d = ripemd160 (sha256 d)

  -- `Transaction::hash`; the cache in front of it holds results of the same call.
  unfoldable pub tx_hash : Transaction → Hash
  unfolding sha256d
  tx_hash tx = sha256d (serialize_tx tx)

  -- `Transaction::size`
  unfoldable pub tx_size : Transaction → ℕ
  tx_size tx = length (serialize_tx tx)

  -- `Block::size`
  unfoldable pub block_size : Block → ℕ
  block_size b = length (serialize_block b)

  -- `Block::header_hash`, `BlockHeader::hash` and `header_hash`, by the engine of `PowEngine`.
  unfoldable pub header_hash : BlockHeader → Result Hash
  header_hash h = elim (calculate_hash (serialize_header h)) [
    | none ↦ err (anyhow "RandomX hash failed")
    | some v ↦ ok v
  ]

  -- `p2pkh_script`, of the serialized public key.
  unfoldable pub p2pkh_script : Bytes → Bytes
  unfolding hash160
  p2pkh_script pubkey = (0x76 ∷ 0xa9 ∷ 0x14 ∷ []) ++ (hash160 pubkey ++ (0x88 ∷ 0xac ∷ []))

  -- `create_coinbase`
  unfoldable pub create_coinbase : ℕ → Bytes → Bytes → Transaction
  unfolding p2pkh_script
  create_coinbase height extra pubkey = record {
    version = 1;
    is_anonymous = false;
    inputs =
        record {
          txid = zero_hash;
          vout = u32_max;
          script_sig = to_le_bytes 8 height ++ extra;
          sequence = u32_max;
        }
        ∷ [];
    outputs = record { value = 0; script_pubkey = p2pkh_script pubkey; commitment = none } ∷ [];
    lock_time = 0;
    range_proofs = [];
  }
