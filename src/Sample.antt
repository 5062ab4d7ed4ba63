-- ===== src/Sample.antt =====
-- Concrete stand-ins for the libraries, on which the tests and the instances of theorems run. The
-- laws that theorems assume hold of them.
use abc.Bytes.{Bytes, eq_bytes, to_be_bytes, be_value, from_be_bytes}
use abc.Bytes.Laws.{length-to_be_bytes}
use abc.External.{
  Cf, eq_cf, WriteOp, put_cf, delete_cf, Rocks, IsRocks, Codec, Digests, Privacy, External,
}
use abc.Prelude.{
  ◌==◌, [], ℕ, ◌+◌, ◌*◌, ◌≡◌, refl, true, Option, none, some, ◌++◌, length, take, drop,
  if◌then◌else◌, ◌&&◌, ltb,
}
use abc.Types.{Hash, TxOutput, Block}

abbrev pub MapDb : Type 0
MapDb = Cf → Bytes → Option Bytes

abbrev pub apply_op : MapDb → WriteOp → MapDb
apply_op db (put_cf c k v) d j = if eq_cf c d && eq_bytes k j then some v else db d j
apply_op db (delete_cf c k) d j = if eq_cf c d && eq_bytes k j then none else db d j

abbrev pub map_rocks : Rocks
map_rocks = record { Db = MapDb; get_cf = λ db c k. db c k; apply = apply_op }

pub map_rocks-IsRocks : IsRocks map_rocks
map_rocks-IsRocks = record { get-put = λ db c d k j v. refl; get-delete = λ db c d k j. refl }

abbrev pub sample_deserialize : Bytes → Option TxOutput
sample_deserialize b =
    if ltb (length b) 8
    then none
    else some
        (record { value = from_be_bytes (take 8 b); script_pubkey = drop 8 b; commitment = none })

-- The time and the bits of a block; the rest is left out.
abbrev pub sample_block : Bytes → Option Block
sample_block b =
    if ltb (length b) 8
    then none
    else some (record {
      header = record {
        version = 1;
        prev_hash = [];
        merkle_root = [];
        timestamp = from_be_bytes (take 4 b);
        bits = from_be_bytes (drop 4 b);
        nonce = 0;
      };
      txs = [];
    })

abbrev pub sample_codec : Codec
sample_codec = record {
  serialize_tx = λ tx. to_be_bytes 4 tx.version ++ to_be_bytes 4 tx.lock_time;
  serialize_header = λ h. h.prev_hash ++ to_be_bytes 8 h.nonce;
  serialize_base = λ h. h.prev_hash;
  serialize_block = λ b. to_be_bytes 4 b.header.timestamp ++ to_be_bytes 4 b.header.bits;
  serialize_output = λ o. to_be_bytes 8 o.value ++ o.script_pubkey;
  deserialize_output = sample_deserialize;
  deserialize_header = λ b. none;
  deserialize_block = sample_block;
  serialize_journal = λ j. j.journal_id;
  deserialize_journal = λ b. none;
  serialize_index = λ h i. to_be_bytes 8 h ++ to_be_bytes 8 i;
  to_string = to_be_bytes 16;
}

abbrev pub checksum : Bytes → Hash
checksum d = to_be_bytes 32 (be_value 7 d * 31 + 5)

abbrev pub sample_digests : Digests
sample_digests = record {
  sha256 = checksum;
  ripemd160 = λ d. to_be_bytes 20 (be_value 3 d);
  calculate_hash = λ d. some (checksum d);
}

abbrev pub sample_privacy : Privacy
sample_privacy = record {
  key_image_from_slice = λ b. some b;
  Clsag = ℕ;
  deserialize_clsag = λ b. some (length b);
  ring_len = λ c. c;
  clsag_verify = λ c h k. true;
  Point = ℕ;
  decompress = λ b. some (from_be_bytes b);
  commit = λ v r. v + r;
  add_points = λ p q. p + q;
  eq_points = λ p q. p == q;
  RangeProof = ℕ;
  deserialize_proof = λ b. some (length b);
  batch_verify = λ l. true;
}

abbrev pub sample : External
sample = record {
  rocks = map_rocks;
  codec = sample_codec;
  digests = sample_digests;
  privacy = sample_privacy;
}

pub sample-Digests32 : (d : Bytes) → length (sample.sha256 d) ≡ 32
sample-Digests32 d = length-to_be_bytes 32 (be_value 7 d * 31 + 5)
