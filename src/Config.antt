-- ===== src/Config.antt =====
-- 111/src/config.rs: `AppConfig` and `AppConfig::load`. What the file and the environment give, base64,
-- hexadecimal digits, random bytes, the number of cores and huge pages are arguments.
pub mod Usable
mod Tests
use abc.Bytes.{Bytes}
use abc.Errors.{Result, ok, err, panicked, ok_or, bail_if, unwrap, anyhow, ◌>>=◌, ◌>>◌}
use abc.Maps.{insert_at}
use abc.Prelude.{
  ℕ, Bool, true, false, not, ◌||◌, Option, List, [], ◌∷◌, length, min, ◌==◌, if◌then◌else◌,
}
use abc.Types.{Hash}

-- A string is its bytes.
pub record AppConfig : Type 0 where
  pub mainnet : Bool
  pub coinbase_sk : Bytes
  pub db_path : Bytes
  pub p2p_port : ℕ
  pub rpc_port : ℕ
  pub max_peers : ℕ
  pub max_mempool_size : ℕ
  pub seed_nodes : List Bytes
  pub tls_cert : Bytes
  pub tls_key : Bytes
  pub ca_cert : Bytes
  pub reorg_max_depth : ℕ
  pub backup_signing_key : Bytes
  pub signing_key_path : Bytes
  pub tx_expiration_ms : ℕ
  pub log_level : Bytes
  pub max_threads : ℕ
  pub num_randomx_threads : ℕ
  pub enable_huge_pages : Bool
  pub rpc_jwt_secret : Bytes
  pub coinbase_sk_bytes : Bytes
  pub checkpoint_hashes : List (ℕ × Hash)
  pub checkpoints : List (ℕ × Bytes)

pub record Machine : Type 0 where
  pub decode_base64 : Bytes → Option Bytes
  pub encode_base64 : Bytes → Bytes
  -- The bytes of hexadecimal digits, when they are as many as asked for.
  pub decode_to_slice : ℕ → Bytes → Option Bytes
  pub random_secret : Option Bytes
  pub get_physical : ℕ
  pub init_huge_pages : Result (Unit {0})

abbrev pub is_empty {ℓ} : {A : Type ℓ} → List A → Bool
is_empty [] = true
is_empty (a ∷ as') = false

module _ (m : Machine) where
  -- `for (&height, hex_str) in &config.checkpoints`
  unfoldable pub load_checkpoints : List (ℕ × Bytes) → List (ℕ × Hash) → Result (List (ℕ × Hash))
  load_checkpoints [] hashes = ok hashes
  load_checkpoints ((height, hex_str) ∷ checkpoints) hashes = do
    bytes ← ok_or (m.decode_to_slice 32 hex_str) (anyhow "Invalid checkpoint hash")
    load_checkpoints checkpoints (insert_at height bytes hashes)

  -- A secret is made when there is none; `expect` panics when the generator fails.
  unfoldable pub load_secret : Bytes → Result Bytes
  load_secret secret =
      if is_empty secret
      then (do
        bytes ← unwrap (ok_or m.random_secret (anyhow "RNG failed"))
        ok (m.encode_base64 bytes))
      else ok secret

  abbrev pub threads_of : ℕ → ℕ
  threads_of n = if n == 0 then min m.get_physical 64 else n

  -- `AppConfig::load`, from what was read.
  unfoldable pub load : Result AppConfig → Result AppConfig
  load source = do
    config ← source
    decoded ← ok_or (m.decode_base64 config.coinbase_sk) (anyhow "Invalid base64 coinbase_sk")
    bail_if (not (length decoded == 32)) (anyhow "coinbase_sk must be 32 bytes")
    hashes ← load_checkpoints config.checkpoints []
    secret ← load_secret config.rpc_jwt_secret
    bail_if ((config.p2p_port == 0) || (config.rpc_port == 0)) (anyhow "Ports must be > 0")
    bail_if (is_empty secret) (anyhow "RPC JWT secret required")
    bail_if (is_empty config.seed_nodes) (anyhow "At least one seed node required")
    if config.enable_huge_pages then m.init_huge_pages else ok tt
    ok (record config {
      coinbase_sk_bytes = decoded;
      checkpoint_hashes = hashes;
      rpc_jwt_secret = secret;
      num_randomx_threads = threads_of config.num_randomx_threads;
    })
