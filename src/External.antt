-- ===== src/External.antt =====
-- What the node calls and does not implement: RocksDB, bincode, the hash functions, ring
-- signatures, commitments and range proofs. The operations are a parameter of the model; what is
-- relied on is stated as a law where a theorem needs it.
use abc.Bytes.{Bytes, eq_bytes}
use abc.Prelude.{ℕ, ◌≡◌, Bool, Option, some, none, List, ◌&&◌, if◌then◌else◌}
use abc.Types.{Hash, TxOutput, Transaction, BlockHeader, HeaderWithoutNonce, Block, ReorgJournal}

-- The column families, and the default one.
pub data Cf : Type 0 where
  default utxo anonymous key_images coinbase addr_index tx_index : Cf

abbrev pub eq_cf : Cf → Cf → Bool
eq_cf default default = Bool.true
eq_cf utxo utxo = Bool.true
eq_cf anonymous anonymous = Bool.true
eq_cf key_images key_images = Bool.true
eq_cf coinbase coinbase = Bool.true
eq_cf addr_index addr_index = Bool.true
eq_cf tx_index tx_index = Bool.true
eq_cf _ _ = Bool.false

-- One entry of a `WriteBatch`.
pub data WriteOp : Type 0 where
  put_cf : Cf → Bytes → Bytes → WriteOp
  delete_cf : Cf → Bytes → WriteOp

-- RocksDB: a read is of a snapshot, and an entry of a batch gives the next state.
pub record Rocks : Type 1 where
  pub Db : Type 0
  pub get_cf : Db → Cf → Bytes → Option Bytes
  pub apply : Db → WriteOp → Db

pub record IsRocks (r : Rocks) : Type 0 where
  pub get-put :
      (db : r.Db) (c d : Cf) (k j v : Bytes)
      → r.get_cf (r.apply db (put_cf c k v)) d j
        ≡ (if eq_cf c d && eq_bytes k j then some v else r.get_cf db d j)
  pub get-delete :
      (db : r.Db) (c d : Cf) (k j : Bytes)
      → r.get_cf (r.apply db (delete_cf c k)) d j
        ≡ (if eq_cf c d && eq_bytes k j then none else r.get_cf db d j)

-- bincode, for the types that are stored or hashed.
pub record Codec : Type 0 where
  pub serialize_tx : Transaction → Bytes
  pub serialize_header : BlockHeader → Bytes
  pub serialize_base : HeaderWithoutNonce → Bytes
  pub serialize_block : Block → Bytes
  pub serialize_output : TxOutput → Bytes
  pub deserialize_output : Bytes → Option TxOutput
  pub deserialize_header : Bytes → Option BlockHeader
  pub deserialize_block : Bytes → Option Block
  pub serialize_journal : ReorgJournal → Bytes
  pub deserialize_journal : Bytes → Option ReorgJournal
  pub serialize_index : ℕ → ℕ → Bytes
  -- A number in decimal.
  pub to_string : ℕ → Bytes

-- The digests of the sha2 and ripemd crates, and RandomX.
pub record Digests : Type 0 where
  pub sha256 : Bytes → Bytes
  pub ripemd160 : Bytes → Bytes
  pub calculate_hash : Bytes → Option Hash

-- Key images, ring signatures, curve points and range proofs.
pub record Privacy : Type 1 where
  pub key_image_from_slice : Bytes → Option Hash
  pub Clsag : Type 0
  pub deserialize_clsag : Bytes → Option Clsag
  pub ring_len : Clsag → ℕ
  pub clsag_verify : Clsag → Hash → Hash → Bool
  pub Point : Type 0
  pub decompress : Bytes → Option Point
  pub commit : ℕ → ℕ → Point
  pub add_points : Point → Point → Point
  pub eq_points : Point → Point → Bool
  pub RangeProof : Type 0
  pub deserialize_proof : Bytes → Option RangeProof
  pub batch_verify : List (RangeProof × Point × ℕ) → Bool

-- All of it.
pub record External : Type 1 where
  pub rocks : Rocks
  pub open rocks use *
  pub codec : Codec
  pub open codec use *
  pub digests : Digests
  pub open digests use *
  pub privacy : Privacy
  pub open privacy use *

-- secp256k1: signatures and public keys, as they are read and checked.
pub record Secp : Type 1 where
  pub Signature : Type 0
  pub PublicKey : Type 0
  pub signature_from_der : Bytes → Option Signature
  pub public_key_from_slice : Bytes → Option PublicKey
  pub verify_ecdsa : Hash → Signature → PublicKey → Bool
