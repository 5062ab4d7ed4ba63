-- ===== src/Net/Messages.antt =====
-- 111/src/net.rs `handle_message`: one handler for each kind of message. The chain and the pool are
-- shared with the node, behind locks that a handler keeps while it works; what waits keeps its locks.
-- The limits on the rate only delay a message.
pub mod Handle
pub mod Crash
pub mod Addresses
pub mod Blocks
pub mod Light
pub mod Headers
use abc.Bytes.{Bytes, eq_bytes, to_le_bytes, zero_hash}
use abc.Chain.{Chain, Disk}
use abc.Chain.Add.{add_block, get_headers}
use abc.Errors.{Result, ok, err, panicked, ok_or, anyhow, bincode, invalid_block}
use abc.External.{External}
use abc.Maps.{find_key}
use abc.Mempool.{Mempool, MempoolEntry}
use abc.Mempool.Join.{insert}
use abc.Methods.{
  Method, Outcome, done, failed, crashed, blocked, call, ◌>>=◌, ◌>>◌, read, change, fail_if,
  wait_if, pure, caught,
}
use abc.Net.{IpAddr, Clock, PeerManager, PmMethod, send, broadcast}
use abc.Net.Handshake.{from_le_bytes}
use abc.Net.Outside.{Wire}
use abc.Prelude.{
  ℕ, ◌-◌, Bool, true, false, not, Option, none, some, List, [], ◌∷◌, ◌++◌, length, take, drop, ltb,
  leb, ◌==◌, if◌then◌else◌,
}
use abc.Store.{load_block_from_db}
use abc.Tx.{header_hash, tx_hash}
use abc.Types.{Hash, Block, BlockHeader, Transaction}

-- `data[a..b]`
abbrev pub sub_slice : ℕ → ℕ → Bytes → Result Bytes
sub_slice a b msg = if ltb (length msg) b then panicked else ok (take (b - a) (drop a msg))

-- `bytes.try_into()?` to an array of `n` bytes.
abbrev pub to_array : ℕ → Bytes → Result Bytes
to_array n bytes = if length bytes == n then ok bytes else err (anyhow "TryFromSliceError")

-- `known.contains(&addr)`
unfoldable pub contains_addr : Bytes → List Bytes → Bool
contains_addr addr [] = false
contains_addr addr (a ∷ known) = if eq_bytes addr a then true else contains_addr addr known

-- The addresses that are not known are added.
unfoldable pub learn : List Bytes → List Bytes → List Bytes
learn [] known = known
learn (addr ∷ addrs) known =
    learn addrs (if contains_addr addr known then known else known ++ (addr ∷ []))

module _ (x : External) where
  -- A method of the chain, on the chain of the node.
  abbrev pub on_chain : {A : Type 0} → Method (Chain x) A → PmMethod x A
  on_chain m pm = let r = m pm.chain in (r.0, record pm { chain = r.1 })

  -- The guards are dropped when the handler comes back.
  abbrev pub release : {A : Type 0} → Outcome A × PeerManager x → Outcome A × PeerManager x
  release (blocked, pm) = (blocked, pm)
  release (o, pm) =
      (o, record pm { chain_lock = false; chain = record (pm.chain) { mempool_lock = false } })

  -- `self.chain.write()`, and then `self.mempool.write()`
  abbrev pub with_both : {A : Type 0} → PmMethod x A → PmMethod x A
  with_both m pm =
      if pm.chain_lock
      then (blocked, pm)
      else (if pm.chain.mempool_lock
          then (blocked, record pm { chain_lock = true })
          else release (
              m (record pm {
                chain_lock = true;
                chain = record (pm.chain) { mempool_lock = true };
              })))

  -- `self.mempool.write()`, and then `self.chain.read()`
  abbrev pub with_pool : {A : Type 0} → PmMethod x A → PmMethod x A
  with_pool m pm =
      if pm.chain.mempool_lock
      then (blocked, pm)
      else (if pm.chain_lock
          then (blocked, record pm { chain = record (pm.chain) { mempool_lock = true } })
          else release (
              m (record pm {
                chain_lock = true;
                chain = record (pm.chain) { mempool_lock = true };
              })))

  abbrev pub drop_chain : {A : Type 0} → Outcome A × PeerManager x → Outcome A × PeerManager x
  drop_chain (blocked, pm) = (blocked, pm)
  drop_chain (o, pm) = (o, record pm { chain_lock = false })

  -- `self.chain.write()`
  abbrev pub with_chain : {A : Type 0} → PmMethod x A → PmMethod x A
  with_chain m pm =
      if pm.chain_lock then (blocked, pm) else drop_chain (m (record pm { chain_lock = true }))

  -- The hash of an inventory message is passed on.
  unfoldable pub handle_inv : ℕ → Bytes → PmMethod x (Unit {0})
  handle_inv kind msg = do
    hash ← call (sub_slice 4 36 msg)
    change (λ pm. record pm { inv_sent = pm.inv_sent ++ ((kind, hash) ∷ []) })

  module _ (w : Wire) where
    -- `MSG_TX` and `MSG_BLOCK`
    unfoldable pub send_tx : ℕ → Option MempoolEntry → PmMethod x (Unit {0})
    send_tx p none = pure tt
    send_tx p (some entry) = send x p (to_le_bytes 4 5 ++ x.serialize_tx entry.tx)

    -- `chain.hash_to_height[&hash]` panics on a hash that is not there.
    unfoldable pub send_block : ℕ → Option ℕ → PmMethod x (Unit {0})
    send_block p none = call panicked
    send_block p (some height) = do
      pm ← read
      block ← call (load_block_from_db x pm.chain.db height)
      send x p (to_le_bytes 4 6 ++ x.serialize_block block)

    unfoldable pub handle_getdata : ℕ → Bytes → PmMethod x (Unit {0})
    handle_getdata p msg = do
      inv_bytes ← call (sub_slice 4 8 msg)
      hash ← call (sub_slice 8 40 msg)
      pm ← read
      (if from_le_bytes inv_bytes == 1
          then wait_if pm.chain.mempool_lock >> send_tx p (find_key hash pm.chain.mempool.txs)
          else (if from_le_bytes inv_bytes == 2
              then wait_if pm.chain_lock
                >> send_block p (find_key hash pm.chain.state.hash_to_height)
              else pure tt))

    unfoldable pub handle_getheaders : ℕ → Bytes → PmMethod x (Unit {0})
    handle_getheaders p msg = do
      fail_if (ltb (length msg) 40) (invalid_block "GETHEADERS too short")
      locator ← call (sub_slice 4 36 msg)
      stop ← call (if leb 72 (length msg) then sub_slice 36 68 msg else ok zero_hash)
      pm ← read
      wait_if pm.chain_lock
      headers ← call (get_headers x pm.chain locator stop)
      send x p (to_le_bytes 4 8 ++ w.serialize_headers headers)

    unfoldable pub handle_getaddr : ℕ → PmMethod x (Unit {0})
    handle_getaddr p = do pm ← read; send x p (to_le_bytes 4 10 ++ w.serialize_addrs pm.known_peers)

    unfoldable pub handle_addr : Bytes → PmMethod x (Unit {0})
    handle_addr msg = do
      addrs ← call (ok_or (w.deserialize_addrs (drop 4 msg)) (bincode "deserialize"))
      change (λ pm. record pm { known_peers = learn addrs pm.known_peers })

    -- `concat` joins arrays of one length: the nonce is to have the four bytes of `MSG_PONG`.
    unfoldable pub handle_ping : ℕ → Bytes → PmMethod x (Unit {0})
    handle_ping p msg = do
      eight ← call (sub_slice 4 12 msg)
      nonce ← call (to_array 4 eight)
      send x p (to_le_bytes 4 12 ++ nonce)

    module _ (clock : Clock) where
      -- What the pool answered: a transaction that it took is announced.
      unfoldable pub announce_tx : Transaction → Outcome Bool × Mempool → PmMethod x (Unit {0})
      announce_tx tx (done true, pool) = do
        change (λ pm. record pm { chain = record (pm.chain) { mempool = pool } })
        broadcast x (to_le_bytes 4 1 ++ tx_hash x tx)
      announce_tx tx (done false, pool) =
          change (λ pm. record pm { chain = record (pm.chain) { mempool = pool } })
      announce_tx tx (failed e, pool) =
          change (λ pm. record pm { chain = record (pm.chain) { mempool = pool } })
      announce_tx tx (crashed, pool) = call panicked
      announce_tx tx (blocked, pool) =
          change (λ pm. record pm { chain = record (pm.chain) { mempool = pool } }) >> wait_if true

      unfoldable pub handle_tx : Bytes → PmMethod x (Unit {0})
      handle_tx msg = do
        tx ← call (ok_or (w.deserialize_tx (drop 4 msg)) (bincode "deserialize"))
        with_pool
            (do pm ← read; announce_tx tx (insert x pm.chain.db clock.unix_ms tx pm.chain.mempool))

      module _ (load_supply_from_db : x.Db → Result ℕ) (disk : Disk)
          (checkpoint_hashes : ℕ → Option Hash) where
        -- `add_block`, at the times of the clock.
        abbrev pub add : Block → PmMethod x Bool
        add block = on_chain (
            add_block x load_supply_from_db disk clock.instant clock.unix_ms checkpoint_hashes
              block)

        -- A block that joined is announced.
        unfoldable pub take_block : Block → PmMethod x (Unit {0})
        take_block block = do
          joined ← add block
          (if joined
              then (do
                hash ← call (header_hash x block.header)
                broadcast x (to_le_bytes 4 2 ++ hash))
              else pure tt)

        unfoldable pub handle_block : Bytes → PmMethod x (Unit {0})
        handle_block msg = do
          block ← call (ok_or (x.deserialize_block (drop 4 msg)) (bincode "deserialize"))
          with_both (take_block block)

        -- `for header in headers`, after the one of this hash.
        unfoldable pub take_headers : Hash → List BlockHeader → PmMethod x (Unit {0})
        take_headers prev_hash [] = pure tt
        take_headers prev_hash (header ∷ headers) = do
          hash ← call (header_hash x header)
          fail_if (not (eq_bytes header.prev_hash prev_hash))
              (invalid_block "Discontinuous headers")
          (λ pm.
              caught (add (record { header = header; txs = [] }) pm) (take_headers hash headers)
                (take_headers hash headers))

        -- The first header is compared with itself.
        abbrev pub start_headers : List BlockHeader → PmMethod x (Unit {0})
        start_headers [] = pure tt
        start_headers (header ∷ headers) =
            with_chain (take_headers header.prev_hash (header ∷ headers))

        unfoldable pub handle_headers : Bytes → PmMethod x (Unit {0})
        handle_headers msg = do
          headers ←
              call
                (ok_or (w.deserialize_headers (drop 4 msg)) (anyhow "Deserialize headers failed"))
          start_headers headers
