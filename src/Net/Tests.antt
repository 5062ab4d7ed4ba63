-- ===== src/Net/Tests.antt =====
-- A node with one peer, on the stand-ins for the libraries.
use abc.Bytes.{eq_bytes, Bytes, zeros, to_le_bytes, zero_hash}
use abc.Chain.{Chain, Disk}
use abc.Chain.Add.{
  add_block, add_block_with, add_locked, add_under, add_orphan, bound_orphans, headers_from,
  get_headers,
}
use abc.Errors.{Result, ok}
use abc.Maps.{insert_key, erase_key, find_at, find_key}
use abc.Mempool.{Mempool}
use abc.Methods.{done, crashed, blocked, is_failed}
use abc.Net.{
  penalize, retain_bans, modify_at, retain_others, send_each, send_all, without_peer, send,
  is_banned, remove_peers, store_ban, ban_ip, decrease_reputation, IpAddr, Peer, Clock, PeerManager,
  ban_ms, broadcast, remove_peer,
}
use abc.Net.Arrivals.{
  connect_to_seeds, reconnect, new_manager, start, arrive, HasBan, AreAmong, Arrives-kept,
}
use abc.Net.Bans.{Request, ban, ask, answers, promised, answers_refine, Keeps-none}
use abc.Net.Frame.{frame, unpack, unpack-frame}
use abc.Net.Frame.Reader.{on_read, read_loop}
use abc.Net.Handshake.{
  from_le_bytes, accept_signature, accept_key, register, meet, Limits, handshake, add_peer,
  new_peer,
}
use abc.Net.Handshake.Refused.{handshake_refuses}
use abc.Net.Leave.{remove_peer_blocks}
use abc.Net.Messages.{
  contains_addr, learn, handle_inv, send_tx, send_block, handle_getdata, handle_getheaders,
  handle_getaddr, handle_addr, handle_ping, announce_tx, handle_tx, take_block, take_headers,
  handle_block, handle_headers,
}
use abc.Net.Messages.Blocks.{handle_block-kept}
use abc.Net.Messages.Crash.{getdata_crashes}
use abc.Net.Messages.Handle.{count_inv, handle_kind, handle_message}
use abc.Net.Messages.Headers.{IsRun, handle_headers-IsRun}
use abc.Net.Messages.Light.{orphans_of}
use abc.Net.Outside.{Wire, Stream, IsExact, IsLossless}
use abc.Net.Reputation.{offend, last_ban, offend_bans}
use abc.Prelude.{
  ap, zero, suc, ◌+◌, ℕ, ◌≡◌, refl, true, false, none, some, List, [], ◌∷◌, ◌++◌, length, drop,
  arith, inr,
}
use abc.Sample.{sample, MapDb, checksum}
use abc.SampleChain.{validation, no_checkpoints}
use abc.Types.{BlockHeader}

program : Unit {0}
unfolding validation penalize retain_bans modify_at retain_others send_each send_all without_peer
    send is_banned broadcast remove_peers remove_peer store_ban ban_ip decrease_reputation
    from_le_bytes accept_signature accept_key handshake register meet add_peer connect_to_seeds
    reconnect frame unpack on_read read_loop contains_addr learn handle_inv send_tx send_block
    handle_getdata handle_getheaders handle_getaddr handle_addr handle_ping announce_tx handle_tx
    take_block handle_block take_headers handle_headers count_inv handle_kind handle_message offend
    last_ban HasBan answers promised add_block add_block_with add_locked add_under add_orphan
    bound_orphans find_key insert_key erase_key find_at eq_bytes to_le_bytes headers_from
    get_headers
program = tt

abbrev header : BlockHeader
header = record {
  version = 1;
  prev_hash = 3 ∷ [];
  merkle_root = [];
  timestamp = 1000;
  bits = 0x1c7fffff;
  nonce = 0;
}

-- A header after it.
abbrev header_after : BlockHeader
header_after = record header { prev_hash = checksum (sample.serialize_header header) }

-- A long message is kept in a byte.
abbrev wire : Wire
wire = record {
  show_ip = λ ip. ip;
  show_addr = λ ip port. ip ++ (port ∷ []);
  serialize_u32 = to_le_bytes 4;
  deserialize_tx = λ b. none;
  serialize_headers = λ hs. length hs ∷ [];
  deserialize_headers = λ b. some (header ∷ header_after ∷ []);
  serialize_addrs = λ addrs. length addrs ∷ [];
  deserialize_addrs = λ b. some (b ∷ []);
  serialize_news = λ kind time addrs. kind ∷ time ∷ length addrs ∷ [];
  compress = λ m. some (9 ∷ m);
  uncompress = λ c. some (drop 1 c);
  PublicKey = Bytes;
  Signature = Bytes;
  public_key_from_bytes = λ b. some b;
  peer_id_from_bytes = λ b. some b;
  signature_from_bytes = λ b. some b;
  verify = λ k m s. true;
  our_public = 1 ∷ 2 ∷ [];
  sign = λ m. length m ∷ [];
  random_nonce = some (5 ∷ 6 ∷ []);
}

wire-IsLossless : IsLossless wire
wire-IsLossless = record { uncompress-compress = λ m c h. cc }

abbrev clock : Clock
clock = record { instant = 1000; unix_ms = 1_700_000_000_000 }

abbrev later : ℕ → Clock
later t = record clock { instant = t }

abbrev limits : Limits
limits = record { max_peers = 50; p2p_port = 8333 }

abbrev ip : IpAddr
ip = 10 ∷ 0 ∷ 0 ∷ 7 ∷ []

abbrev other_ip : IpAddr
other_ip = 10 ∷ 0 ∷ 9 ∷ 7 ∷ []

abbrev pool : Mempool
pool = record {
  txs = [];
  total_bytes = 0;
  by_parent = [];
  fee_index = [];
  expiration_index = [];
  avg_fee = 0;
  key_images = [];
  fee_cache = [];
  heap = [];
  ttl_heap = [];
  max_size = 1_000_000;
  avg_lock = false;
}

abbrev chain : Chain sample
chain = record {
  db = λ c k. none;
  state = record {
    blocks = [];
    height_to_hash = (0, 1 ∷ []) ∷ [];
    hash_to_height = (1 ∷ [], 0) ∷ [];
    cumulative_work = [];
    timestamps = [];
    utxo_set_hash = zero_hash;
    total_supply = 0;
  };
  best_tip = 1 ∷ [];
  best_height = 0;
  orphan_blocks = [];
  genesis_hash = 1 ∷ [];
  batch_pending = false;
  read_only_mode = false;
  state_lock = false;
  mempool_lock = false;
  mempool = pool;
}

abbrev seeds : List Bytes
seeds = (7 ∷ 7 ∷ []) ∷ []

abbrev node : PeerManager sample
node = new_manager sample seeds chain

-- A peer that takes messages.
abbrev peer : Peer
peer = record (new_peer (1 ∷ 2 ∷ [])) { receives = true }

abbrev met : PeerManager sample
met = record node {
  store = (0, peer) ∷ [];
  peers = (ip, 0 ∷ []) ∷ [];
  peers_by_id = (1 ∷ 2 ∷ [], (ip, 0)) ∷ [];
}

abbrev zero_stream : Stream
zero_stream n = some (zeros n)

abbrev good : Disk
good = record { accepts = true; rollbacks = λ i. true }

abbrev supply_of : MapDb → Result ℕ
supply_of d = ok 0

length-zeros : (n : ℕ) → length (zeros n) ≡ n
unfolding program
length-zeros zero = refl
length-zeros (suc n) = ap suc (length-zeros n)

zero_stream-IsExact : IsExact zero_stream
zero_stream-IsExact = record { fills = λ n buf h. grind (arith, length-zeros n, h) }

handshake_refuses_example : is_failed (handshake sample wire clock zero_stream 0 met).0 ≡ true
handshake_refuses_example =
    handshake_refuses sample wire clock zero_stream 0 met refl zero_stream-IsExact

-- Two connections, while one ban lasts and one ends.
abbrev banning : PeerManager sample
banning = record met { bans = (3 ∷ [], 500) ∷ (4 ∷ [], 5000) ∷ [] }

abbrev turned_away : PeerManager sample
turned_away =
    (add_peer sample wire (later 9) true limits zero_stream other_ip
      (add_peer sample wire clock true limits zero_stream ip banning).1).1

Arrives-kept_example :
    (turned_away.peers ≡ banning.peers)
    × (turned_away.peers_by_id ≡ banning.peers_by_id)
    × (turned_away.known_peers ≡ banning.known_peers)
    × (turned_away.chain ≡ banning.chain)
    × AreAmong turned_away.bans banning.bans
    × AreAmong turned_away.bans_persistent banning.bans_persistent
Arrives-kept_example =
    Arrives-kept sample wire true limits banning turned_away
      (arrive (later 9) zero_stream other_ip (arrive clock zero_stream ip start))

one_left : turned_away.bans ≡ (4 ∷ [], 5000) ∷ []
unfolding program
one_left = refl

-- Banned, then asked for during the ban and after it.
abbrev requests : List Request
requests =
    ask clock ip
    ∷ ban clock ip
    ∷ ask (later 2000) ip
    ∷ ask (later 2000) other_ip
    ∷ ask (later 300_000_000) ip
    ∷ []

answers_refine_example :
    (answers sample wire true requests met).0 ≡ done (promised requests (λ j. 0))
answers_refine_example =
    answers_refine sample wire true requests 0 (λ j. 0) met
      (Keeps-none sample wire true met refl refl refl)
      (omega arith, (omega arith, (omega arith, (omega arith, (omega arith, tt)))))

answered : promised requests (λ j. 0) ≡ false ∷ true ∷ false ∷ false ∷ []
unfolding program
answered = refl

-- The last of six offences first.
abbrev times : List Clock
times = later 9000 ∷ later 8000 ∷ later 7000 ∷ later 3000 ∷ later 2000 ∷ clock ∷ []

offend_bans_example :
    ((offend sample wire true 0 ip times met).0 ≡ done tt)
    × (find_key ip (offend sample wire true 0 ip times met).1.bans ≡ some (9000 + ban_ms))
unfolding program
offend_bans_example = offend_bans sample wire true 0 ip times peer met (omega arith) refl refl refl

abbrev block_msg : Bytes
block_msg = 6 ∷ 0 ∷ 0 ∷ 0 ∷ 0 ∷ 0 ∷ 3 ∷ 232 ∷ 28 ∷ 127 ∷ 255 ∷ 255 ∷ []

-- Its parent is not known.
abbrev block_taken : PeerManager sample
block_taken = (handle_block sample wire clock supply_of good no_checkpoints block_msg met).1

handle_block-kept_example : block_taken ≡ record met {
  chain = record (met.chain) {
    orphan_blocks = block_taken.chain.orphan_blocks;
    state_lock = false;
    mempool_lock = false;
  };
  chain_lock = false;
}
unfolding program
handle_block-kept_example =
    handle_block-kept sample wire clock supply_of good no_checkpoints block_msg met block_taken refl

block_waits : length block_taken.chain.orphan_blocks ≡ 1
unfolding program
block_waits = refl

-- Two headers whose parents are not known.
abbrev headers_taken : PeerManager sample
headers_taken = (handle_headers sample wire clock supply_of good no_checkpoints (8 ∷ []) met).1

handle_headers-IsRun_example :
    (headers : List BlockHeader) × (wire.deserialize_headers [] ≡ some headers)
    × IsRun sample headers
    × (headers_taken.chain ≡ orphans_of met.chain headers_taken.chain)
    × (headers_taken.store ≡ met.store)
unfolding program
handle_headers-IsRun_example =
    handle_headers-IsRun sample wire clock supply_of good no_checkpoints (8 ∷ []) met headers_taken
      refl

-- A request for the block of a hash that is not there.
abbrev getdata_msg : Bytes
getdata_msg = 3 ∷ 0 ∷ 0 ∷ 0 ∷ 2 ∷ 0 ∷ 0 ∷ 0 ∷ zero_hash

getdata_crashes_example :
    (handle_message sample wire true clock supply_of good no_checkpoints 0 ip getdata_msg met).0
    ≡ crashed
unfolding program
getdata_crashes_example =
    getdata_crashes sample wire true clock supply_of good no_checkpoints 0 ip getdata_msg met refl
      (omega arith) (inr (refl, refl, refl))

unpack-frame_example : unpack wire (0 ∷ 4 ∷ 5 ∷ []) ≡ ok (4 ∷ 5 ∷ [])
unfolding program
unpack-frame_example =
    unpack-frame wire (4 ∷ 5 ∷ []) (0 ∷ 4 ∷ 5 ∷ []) wire-IsLossless refl (omega arith) (omega arith)

abbrev left : PeerManager sample
left = (remove_peer sample ip 0 met).1

remove_peer_blocks_example :
    ((remove_peer sample ip 0 met).0 ≡ blocked)
    × ((broadcast sample [] left).0 ≡ blocked)
    × ((add_peer sample wire clock true limits zero_stream other_ip left).0 ≡ blocked)
unfolding program
remove_peer_blocks_example =
    remove_peer_blocks sample wire true limits ip other_ip 0 [] clock zero_stream met refl
