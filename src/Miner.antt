-- ===== src/Miner.antt =====
-- 111/src/miner.rs `miner_task`: the template of a block, the test of a nonce and the block that is
-- made of them. The threads of the search, the hash rate and the waiting are left out: which nonce
-- is found is an argument.
pub mod Reward
mod Tests
use abc.Bytes.{Bytes, to_le_bytes, from_be_bytes}
use abc.Chain.{Chain}
use abc.Difficulty.{calculate_next_bits}
use abc.Errors.{Result, ok, err, panicked, ◌>>=◌, ok_or, unwrap, anyhow, value_overflow}
use abc.External.{External}
use abc.Mempool.{Mempool}
use abc.Mempool.Select.{select_txs}
use abc.Prelude.{
  ℕ, ◌+◌, ◌-◌, ◌/◌, ◌%◌, Bool, true, false, Option, none, some, List, [], ◌∷◌, ◌++◌, map, ltb, leb,
  if◌then◌else◌,
}
use abc.Tx.{fee, create_coinbase, p2pkh_script}
use abc.Tx.Merkle.{compute_merkle_root}
use abc.Types.{Hash, TxOutput, Transaction, HeaderWithoutNonce, Block}
use abc.Utils.Checked.{u32_mod, u64_mod, checked_add, try_sum}
use abc.Utils.Compact.{compact_to_target}
use abc.Utils.Constants.{max_block_size}
use abc.Utils.Subsidy.{subsidy}

-- What a round of the loop searches a nonce for.
pub record Template : Type 0 where
  pub height : ℕ
  pub txs : List Transaction
  pub header : HeaderWithoutNonce
  pub target : ℕ

-- A round on a chain in read-only mode counts one more attempt, up to thirty.
abbrev pub count_attempt : Bool → ℕ → Result ℕ
count_attempt false attempts = ok 0
count_attempt true attempts =
    if ltb 30 (attempts + 1) then err (anyhow "Persistent read_only_mode") else ok (attempts + 1)

-- `coinbase.outputs[0].value = value`, and the script of the destination that the configuration names.
unfoldable pub set_reward : ℕ → Option Bytes → List TxOutput → List TxOutput
set_reward value script [] = []
set_reward value none (o ∷ os) = record o { value = value } ∷ os
set_reward value (some s) (o ∷ os) = record o { value = value; script_pubkey = s } ∷ os

-- `tx.fee(&HashMap::new())`, summed up.
unfoldable pub total_fees : List Transaction → Result ℕ
total_fees selected =
    unwrap (ok_or (try_sum 0 (map (λ tx. fee tx []) selected)) (anyhow "Fee overflow"))

abbrev pub seconds : ℕ → ℕ
seconds now_ms = now_ms / 1000 % u32_mod

module _ (x : External) where
  abbrev pub script_of : Option Bytes → Option Bytes
  script_of none = none
  script_of (some key) = some (p2pkh_script x key)

  unfoldable pub make_coinbase : ℕ → Bytes → Bytes → Option Bytes → ℕ → Result Transaction
  make_coinbase height extra pubkey custom_dest fees = do
    reward ← ok_or (checked_add (subsidy height) fees) (anyhow "Subsidy overflow")
    let coinbase = create_coinbase x height extra pubkey
    ok (record coinbase { outputs = set_reward reward (script_of custom_dest) coinbase.outputs })

  unfoldable pub make_template :
      Chain x → Mempool → ℕ → Bytes → Bytes → Option Bytes → Result Template
  make_template chain mempool now_ms extra pubkey custom_dest = do
    let height = (chain.best_height + 1) % u64_mod
    bits ← calculate_next_bits x chain.db height
    let selected = select_txs x (max_block_size - 1000) mempool
    fees ← total_fees selected
    coinbase ← make_coinbase height extra pubkey custom_dest fees
    target ← compact_to_target bits
    ok (record {
      height = height;
      txs = coinbase ∷ selected;
      header = record {
        version = 1;
        prev_hash = chain.best_tip;
        merkle_root = compute_merkle_root x (coinbase ∷ selected);
        timestamp = seconds now_ms;
        bits = bits;
      };
      target = target;
    })

  -- The input of the hash, and the test of it; a hash that fails counts as the least one.
  unfoldable pub is_solution : Template → ℕ → Bool
  is_solution t nonce = elim (x.calculate_hash (x.serialize_base t.header ++ to_le_bytes 8 nonce)) [
    | none ↦ true
    | some hash ↦ leb (from_be_bytes hash) t.target
  ]

  -- The block of a nonce that was found, with the time at which it was.
  unfoldable pub make_block : Template → ℕ → ℕ → Block
  make_block t nonce now_ms = record {
    header = record {
      version = 1;
      prev_hash = t.header.prev_hash;
      merkle_root = t.header.merkle_root;
      timestamp = seconds now_ms;
      bits = t.header.bits;
      nonce = nonce;
    };
    txs = t.txs;
  }
