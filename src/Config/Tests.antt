-- ===== src/Config/Tests.antt =====
-- A configuration of one seed, with a checkpoint and without a secret.
use abc.Bytes.{Bytes, zeros, zero_hash}
use abc.Config.{load_checkpoints, load_secret, AppConfig, Machine, is_empty, load}
use abc.Config.Usable.{AreHashes, load_checks}
use abc.Errors.{ok}
use abc.Maps.{insert_at}
use abc.Prelude.{arith, ℕ, suc, zero, ◌≤◌, ◌≡◌, refl, ap, true, false, some, [], ◌∷◌, length, min}

program : Unit {0}
unfolding load load_checkpoints load_secret insert_at zeros
program = tt

abbrev machine : Machine
machine = record {
  decode_base64 = λ b. some zero_hash;
  encode_base64 = λ b. 65 ∷ b;
  decode_to_slice = λ n hex. some (zeros n);
  random_secret = some (8 ∷ []);
  get_physical = 4;
  init_huge_pages = ok tt;
}

length-zeros : (n : ℕ) → length (zeros n) ≡ n
unfolding program
length-zeros zero = refl
length-zeros (suc n) = ap suc (length-zeros n)

decode-sized :
    (n : ℕ) (hex bytes : Bytes) → machine.decode_to_slice n hex ≡ some bytes → length bytes ≡ n
decode-sized n hex bytes h = grind (arith, length-zeros n, h)

abbrev given : AppConfig
given = record {
  mainnet = true;
  coinbase_sk = 1 ∷ [];
  db_path = [];
  p2p_port = 8333;
  rpc_port = 8332;
  max_peers = 50;
  max_mempool_size = 1000;
  seed_nodes = (1 ∷ []) ∷ [];
  tls_cert = [];
  tls_key = [];
  ca_cert = [];
  reorg_max_depth = 100;
  backup_signing_key = [];
  signing_key_path = [];
  tx_expiration_ms = 0;
  log_level = [];
  max_threads = 1;
  num_randomx_threads = 0;
  enable_huge_pages = true;
  rpc_jwt_secret = [];
  coinbase_sk_bytes = [];
  checkpoint_hashes = [];
  checkpoints = (7, 4 ∷ []) ∷ [];
}

abbrev loaded : AppConfig
loaded = record given {
  coinbase_sk_bytes = zero_hash;
  checkpoint_hashes = (7, zero_hash) ∷ [];
  rpc_jwt_secret = 65 ∷ 8 ∷ [];
  num_randomx_threads = 4;
}

load_checks_example :
    (length loaded.coinbase_sk_bytes ≡ 32)
    × AreHashes loaded.checkpoint_hashes
    × (1 ≤ loaded.p2p_port)
    × (1 ≤ loaded.rpc_port)
    × (is_empty loaded.rpc_jwt_secret ≡ false)
    × (is_empty loaded.seed_nodes ≡ false)
    × (min 1 machine.get_physical ≤ loaded.num_randomx_threads)
unfolding program
load_checks_example = load_checks machine decode-sized (ok given) loaded refl
