-- ===== src/SampleChain.antt =====
-- A block of one coinbase on a chain of one block, on the stand-ins for the libraries.
use abc.BlockValidation.{
  collect_inputs, collect_outputs, validate_all, spent_commitments, made_commitments,
  block_commitments, check_commitments, check_time, check_transactions, validate_block,
}
use abc.Bytes.{eq_bytes, to_be_bytes, to_le_bytes, be_value, zeros}
use abc.Difficulty.{
  insert_sorted, sort_times, get_time, median, block_time, recent_times, get_median_timestamp,
  calculate_next_bits,
}
use abc.External.{default, put_cf}
use abc.Prelude.{ℕ, none, Option, [], ◌∷◌}
use abc.Sample.{sample, MapDb}
use abc.Store.{height_key, block_key, hdr_key, load_block_from_db, load_header}
use abc.Tx.{
  is_coinbase_inputs, fee, sha256d, hash160, tx_hash, block_size, header_hash, p2pkh_script,
  create_coinbase,
}
use abc.Tx.Merkle.{merkle_loop, merkle_root_of, compute_merkle_root}
use abc.Types.{Hash, Transaction, Block}
use abc.Utils.Checked.{try_sum}
use abc.Utils.Compact.{mantissa, compact_to_target}
use abc.Utils.Subsidy.{shr, subsidy}
use abc.Utxo.Write.{write}
use abc.Validation.{queue_proofs, sum_points}

-- What a validation of a block computes through.
unfoldable pub validation : Unit {0}
unfolding eq_bytes to_be_bytes to_le_bytes be_value zeros height_key block_key hdr_key
    load_block_from_db load_header insert_sorted sort_times get_time median block_time recent_times
    get_median_timestamp calculate_next_bits is_coinbase_inputs fee sha256d hash160 tx_hash
    block_size header_hash p2pkh_script create_coinbase merkle_loop merkle_root_of
    compute_merkle_root try_sum mantissa compact_to_target shr subsidy queue_proofs sum_points
    collect_inputs collect_outputs validate_all spent_commitments made_commitments block_commitments
    check_commitments check_time check_transactions validate_block
validation = tt

abbrev pub genesis : Block
genesis = record {
  header = record {
    version = 1;
    prev_hash = [];
    merkle_root = [];
    timestamp = 1000;
    bits = 0x1c7fffff;
    nonce = 0;
  };
  txs = [];
}

abbrev pub db : MapDb
db =
    write sample (λ c k. none)
      (put_cf default (height_key 0) (1 ∷ [])
        ∷ put_cf default (block_key (1 ∷ [])) (sample.serialize_block genesis)
        ∷ [])

abbrev pub reward : Transaction
reward =
    let tx = create_coinbase sample 1 [] (5 ∷ []) in
    record tx {
      outputs = record { value = 10_000_000_000; script_pubkey = []; commitment = none } ∷ [];
    }

abbrev pub block : Block
block = record {
  header = record {
    version = 1;
    prev_hash = [];
    merkle_root = tx_hash sample reward;
    timestamp = 1060;
    bits = 0x1c7fffff;
    nonce = 7;
  };
  txs = reward ∷ [];
}

abbrev pub no_checkpoints : ℕ → Option Hash
no_checkpoints h = none
