-- ===== src/Types.antt =====
-- 111/src/tx.rs: the data of transactions and blocks. A byte vector or array is a list of bytes,
-- an unsigned integer is a natural number.
use abc.Bytes.{Bytes}
use abc.Prelude.{ℕ, Bool, Option, List}

-- `[u8; 32]`
abbrev pub Hash : Type 0
Hash = Bytes

pub record TxInput : Type 0 where
  pub txid : Hash
  pub vout : ℕ
  pub script_sig : Bytes
  pub sequence : ℕ

pub record TxOutput : Type 0 where
  pub value : ℕ
  pub script_pubkey : Bytes
  pub commitment : Option Bytes

pub record Transaction : Type 0 where
  pub version : ℕ
  pub is_anonymous : Bool
  pub inputs : List TxInput
  pub outputs : List TxOutput
  pub lock_time : ℕ
  pub range_proofs : List Bytes

pub record BlockHeader : Type 0 where
  pub version : ℕ
  pub prev_hash : Hash
  pub merkle_root : Hash
  pub timestamp : ℕ
  pub bits : ℕ
  pub nonce : ℕ

-- 111/src/miner.rs `HeaderWithoutNonce`
pub record HeaderWithoutNonce : Type 0 where
  pub version : ℕ
  pub prev_hash : Hash
  pub merkle_root : Hash
  pub timestamp : ℕ
  pub bits : ℕ

pub record Block : Type 0 where
  pub header : BlockHeader
  pub txs : List Transaction

-- 111/src/chain.rs `ReorgJournal`
pub record ReorgJournal : Type 0 where
  pub journal_id : Bytes
  pub old_tip_height : ℕ
  pub old_tip_hash : Hash
  pub disconnect_depth : ℕ
  pub new_block : Block
