-- ===== src/Store/Tests.antt =====
-- Two blocks saved in a small database.
use abc.Bytes.{eq_bytes, to_be_bytes, be_value}
use abc.Errors.{Result, ok}
use abc.External.{default, WriteOp, put_cf}
use abc.Prelude.{◌≡◌, refl, none, List, [], ◌∷◌}
use abc.Sample.{sample, MapDb, map_rocks-IsRocks}
use abc.Store.{height_key, block_key, hdr_key, save_block, load_block_from_db, load_header}
use abc.Store.RoundTrip.{load_block_from_db-save_block}
use abc.Tx.{header_hash}
use abc.Types.{BlockHeader, Block}
use abc.Utxo.Write.{write}

program : Unit {0}
unfolding eq_bytes to_be_bytes be_value header_hash height_key block_key hdr_key save_block
    load_block_from_db load_header
program = tt

abbrev header : BlockHeader
header = record {
  version = 1;
  prev_hash = [];
  merkle_root = [];
  timestamp = 600;
  bits = 0x1c7fffff;
  nonce = 0;
}

abbrev block : Block
block = record { header = header; txs = [] }

abbrev entries : Result (List WriteOp) → List WriteOp
entries (ok ops) = ops
entries _ = []

abbrev empty : MapDb
empty = λ c k. none

abbrev saved : List WriteOp
saved = entries (save_block sample 7 block)

later_header : load_header sample (write sample empty saved) 7 ≡ ok header
unfolding program
later_header = refl

load_block_from_db-save_block_example :
    load_block_from_db sample (write sample empty saved) 7 ≡ ok block
unfolding program
load_block_from_db-save_block_example =
    load_block_from_db-save_block sample map_rocks-IsRocks empty 7 block refl refl

-- Another block is stored at height 6.
abbrev first : MapDb
first = write sample empty (put_cf default (height_key 6) (9 ∷ []) ∷ [])
