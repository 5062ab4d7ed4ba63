-- ===== src/Miner/Tests.antt =====
-- A template on the chain of one block, and the block that is made of it.
use abc.BlockValidation.{Spent, collect_outputs, after_first, fee_of}
use abc.Chain.{Chain}
use abc.Chain.Load.{empty_state}
use abc.Errors.{ok}
use abc.Mempool.{Mempool}
use abc.Mempool.Select.{insert_rate, fee_rates, select_rates, select_txs}
use abc.Miner.{
  Template, make_template, make_coinbase, set_reward, total_fees, is_solution, make_block,
}
use abc.Miner.Reward.{make_block_pays_no_fees}
use abc.Prelude.{map, ◌*◌, ◌^◌, ◌≡◌, refl, [], ◌∷◌, none, true, false}
use abc.Sample.{sample}
use abc.SampleChain.{validation, db, no_checkpoints}
use abc.Tx.{create_coinbase, tx_hash}
use abc.Types.{Transaction}
use abc.Utils.Checked.{sum}

abbrev pool : Mempool
pool = record {
  txs = [];
  total_bytes = 0;
  by_parent = [];
  fee_index = [];
  expiration_index = [];
  avg_fee = 0;
  key_images = [];
  fee_cache = [];
  heap = [];
  ttl_heap = [];
  max_size = 1_000_000;
  avg_lock = false;
}

abbrev chain : Chain sample
chain = record {
  db = db;
  state = empty_state;
  best_tip = [];
  best_height = 0;
  orphan_blocks = [];
  genesis_hash = [];
  batch_pending = false;
  read_only_mode = false;
  state_lock = false;
  mempool_lock = false;
  mempool = pool;
}

program : Unit {0}
unfolding validation set_reward total_fees make_coinbase make_template is_solution make_block
    insert_rate fee_rates select_rates select_txs
program = tt

abbrev reward : Transaction
reward =
    let tx = create_coinbase sample 1 (9 ∷ []) (5 ∷ []) in
    record tx { outputs = set_reward 10_000_000_000 none tx.outputs }

abbrev template : Template
template = record {
  height = 1;
  txs = reward ∷ [];
  header = record {
    version = 1;
    prev_hash = [];
    merkle_root = tx_hash sample reward;
    timestamp = 1050;
    bits = 0x1c7fffff;
  };
  target = 0x7fffff * 2 ^ (8 * 25);
}

made : make_template sample chain pool 1_050_000 (9 ∷ []) (5 ∷ []) none ≡ ok template
unfolding program
made = refl

solved : is_solution sample template 7 ≡ true
unfolding program
solved = refl

make_block_pays_no_fees_example :
    (s : Spent) × (collect_outputs sample db
        (record { utxos = []; anon_outputs = [] })
        (after_first template.txs)
      ≡ ok s)
    × (sum (map (fee_of sample s) (after_first template.txs)) ≡ 0)
unfolding program
make_block_pays_no_fees_example =
    make_block_pays_no_fees sample chain pool 1_050_000 (9 ∷ []) (5 ∷ []) none template 7 1_060_000
      db 0 1_060_000 no_checkpoints refl refl
