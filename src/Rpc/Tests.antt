-- ===== src/Rpc/Tests.antt =====
-- Requests to a chain of one block, with a secret of one byte.
use abc.Bytes.{eq_bytes, Bytes, zero_hash}
use abc.Chain.{Chain}
use abc.Maps.{find_at}
use abc.Mempool.{Mempool}
use abc.Methods.{done}
use abc.Prelude.{
  ◌≡◌, refl, false, none, some, List, [], ◌∷◌, ◌++◌, ◌==◌, if◌then◌else◌, length, ◌&&◌, ltb,
}
use abc.Rpc.{
  trim_bearer, validate_jwt, guarded, sum_entries, success, Codes, bearer, get_height, get_balance,
  get_block, get_mempool, send_tx, unauthorized,
}
use abc.Rpc.Guard.{rereading, answers-rereading}
use abc.Sample.{sample, MapDb}

program : Unit {0}
unfolding trim_bearer validate_jwt guarded get_height get_balance get_block get_mempool send_tx
    eq_bytes sum_entries find_at
program = tt

-- A token of one byte is good before the time 50; its time of expiry is read as 5.
abbrev codes : Codes
codes = record {
  decode = λ now token secret. if length token == 1 && ltb now 50 then some (some 5) else none;
  decode_hex = λ h. some h;
  address_to_pubkey_hash = λ a. some a;
  deserialize_tx = λ b. none;
  serialize_txs = λ txs. length txs ∷ [];
  serialize_block = λ b. [];
  decimal = λ n. n ∷ [];
}

abbrev pool : Mempool
pool = record {
  txs = [];
  total_bytes = 0;
  by_parent = [];
  fee_index = [];
  expiration_index = [];
  avg_fee = 0;
  key_images = [];
  fee_cache = [];
  heap = [];
  ttl_heap = [];
  max_size = 1_000_000;
  avg_lock = false;
}

abbrev chain : Chain sample
chain = record {
  db = λ c k. none;
  state = record {
    blocks = [];
    height_to_hash = [];
    hash_to_height = [];
    cumulative_work = [];
    timestamps = [];
    utxo_set_hash = zero_hash;
    total_supply = 0;
  };
  best_tip = [];
  best_height = 42;
  orphan_blocks = [];
  genesis_hash = [];
  batch_pending = false;
  read_only_mode = false;
  state_lock = false;
  mempool_lock = false;
  mempool = pool;
}

abbrev items : MapDb → Bytes → List (Bytes × Bytes)
items db prefix = []

abbrev token : Bytes
token = bearer ++ (9 ∷ [])

late_token :
    get_height codes (1 ∷ []) 40 sample (some token) chain ≡ (done (success (42 ∷ [])), chain)
unfolding program
late_token = refl

expired_token : get_height codes (1 ∷ []) 60 sample (some token) chain ≡ (done unauthorized, chain)
unfolding program
expired_token = refl

-- Codes that read a later time of expiry.
abbrev later_codes : Codes
later_codes = rereading (λ exp. some 90) codes

answers-rereading_example :
    (get_height later_codes (1 ∷ []) 40 sample (some token) chain
      ≡ get_height codes (1 ∷ []) 40 sample (some token) chain)
    × (get_balance later_codes (1 ∷ []) 40 sample items [] (some token) chain
        ≡ get_balance codes (1 ∷ []) 40 sample items [] (some token) chain)
    × (get_block later_codes (1 ∷ []) 40 sample (some token) chain
        ≡ get_block codes (1 ∷ []) 40 sample (some token) chain)
    × (get_mempool later_codes (1 ∷ []) 40 sample (some token) pool
        ≡ get_mempool codes (1 ∷ []) 40 sample (some token) pool)
    × (send_tx later_codes (1 ∷ []) 40 sample chain.db 7 [] (some token) pool
        ≡ send_tx codes (1 ∷ []) 40 sample chain.db 7 [] (some token) pool)
answers-rereading_example =
    answers-rereading codes (1 ∷ []) 40 sample items (λ exp. some 90) 7 (some token) [] [] chain
      pool
