-- ===== src/Net/Outside.antt =====
-- What 111/src/net.rs calls and does not implement: the encoding of messages by bincode, snappy,
-- the text of addresses, ed25519 and the stream of a connection.
use abc.Bytes.{Bytes}
use abc.Prelude.{ℕ, ◌≡◌, Bool, Option, some, List, length}
use abc.Types.{BlockHeader, Transaction}

pub record Wire : Type 1 where
  pub show_ip : Bytes → Bytes
  -- "ip:port"
  pub show_addr : Bytes → ℕ → Bytes
  pub serialize_u32 : ℕ → Bytes
  pub deserialize_tx : Bytes → Option Transaction
  pub serialize_headers : List BlockHeader → Bytes
  pub deserialize_headers : Bytes → Option (List BlockHeader)
  pub serialize_addrs : List Bytes → Bytes
  pub deserialize_addrs : Bytes → Option (List Bytes)
  -- A kind of message, a time and addresses.
  pub serialize_news : ℕ → ℕ → List Bytes → Bytes
  pub compress : Bytes → Option Bytes
  pub uncompress : Bytes → Option Bytes
  pub PublicKey : Type 0
  pub Signature : Type 0
  pub public_key_from_bytes : Bytes → Option PublicKey
  pub peer_id_from_bytes : Bytes → Option Bytes
  pub signature_from_bytes : Bytes → Option Signature
  pub verify : PublicKey → Bytes → Signature → Bool
  pub our_public : Bytes
  pub sign : Bytes → Bytes
  -- 96 random bits of the nonce, if the generator works.
  pub random_nonce : Option Bytes

-- A stream: `read_exact` into a buffer of this size, in time.
abbrev pub Stream : Type 0
Stream = ℕ → Option Bytes

-- A read that succeeds has filled the buffer.
pub record IsExact (s : Stream) : Type 0 where
  pub fills : (n : ℕ) (buf : Bytes) → s n ≡ some buf → length buf ≡ n

-- Compression keeps a message.
pub record IsLossless (w : Wire) : Type 0 where
  pub uncompress-compress : (m c : Bytes) → w.compress m ≡ some c → w.uncompress c ≡ some m
