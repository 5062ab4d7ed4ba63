-- ===== src/Wallet/History.antt =====
-- 111/src/main.rs `scan_chain`, `build_history_task`, `Wallet::get_history` and
-- `Wallet::get_receive_address`. The order of a map is that of its first insertions; a transaction is
-- named by its hash, and not by the digits of it. `scan_chain` derives its keys on hardened chains: the
-- keys that it is given are those. An amount of an entry is the word of an `i64`.
use abc.Bytes.{Bytes, utxo_key}
use abc.Errors.{Result, ok, err, ok_or, anyhow, bincode, ◌>>=◌, ◌>>◌}
use abc.External.{External, utxo}
use abc.Maps.{insert_key, find_key, is_some}
use abc.Prelude.{
  ℕ, zero, suc, ◌+◌, ◌^◌, Bool, true, not, ◌&&◌, Option, none, some, List, [], ◌∷◌, ◌++◌, length,
  take, leb, ltb, ◌==◌, if◌then◌else◌,
}
use abc.Tx.{hash160}
use abc.Types.{Hash}
use abc.Utils.Checked.{wrapping_add64}
use abc.Wallet.{
  Utxo, WalletKeys, Entry, query_addr_index, height_from_txid, get_block_timestamp,
  confirmations_of, fold_indices, negate64,
}

-- `TxHistoryEntry`
pub record TxHistoryEntry : Type 0 where
  pub txid : Hash
  pub timestamp : ℕ
  pub net_amount : ℕ
  pub confirmations : ℕ
  pub is_receive : Bool

abbrev pub History : Type 0
History = List (Hash × ℕ)

abbrev pub net_of : Option ℕ → ℕ
net_of none = 0
net_of (some net) = net

-- `*history_map.entry(txid).or_insert(0) += delta`
unfoldable pub add_net : Hash → ℕ → History → History
add_net txid delta m = insert_key txid (wrapping_add64 (net_of (find_key txid m)) delta) m

-- `net > 0` of an `i64`.
abbrev pub is_positive : ℕ → Bool
is_positive net = ltb 0 net && ltb net (2 ^ 63)

-- `filter(|(_, net)| *net != 0)`
unfoldable pub drop_settled : History → History
drop_settled [] = []
drop_settled ((txid, net) ∷ m) =
    let rest = drop_settled m in if net == 0 then rest else (txid, net) ∷ rest

-- `sort_by_key(|e| Reverse(e.timestamp))`, which is stable.
unfoldable pub insert_by_time : TxHistoryEntry → List TxHistoryEntry → List TxHistoryEntry
insert_by_time e [] = e ∷ []
insert_by_time e (f ∷ fs) =
    if leb f.timestamp e.timestamp then e ∷ f ∷ fs else f ∷ insert_by_time e fs

unfoldable pub sort_by_time : List TxHistoryEntry → List TxHistoryEntry
sort_by_time [] = []
sort_by_time (e ∷ es) = insert_by_time e (sort_by_time es)

-- `unwrap_or(0)`
abbrev pub or_no_time : Result ℕ → Result ℕ
or_no_time (ok time) = ok time
or_no_time (err e) = ok 0
or_no_time abc.Errors.panicked = abc.Errors.panicked

-- What a scan has found.
pub record Scan : Type 0 where
  pub utxos : List Utxo
  pub addresses : List Bytes
  pub index : ℕ

unfoldable pub balance_of : ℕ → List Utxo → ℕ
balance_of sum [] = sum
balance_of sum (u ∷ us) = balance_of (wrapping_add64 sum u.value) us

module _ (x : External) (k : WalletKeys) (iterate : x.Db → Bytes → List (Bytes × Bytes))
    (pubkey_to_address : Bytes → Bytes) where
  open x use {Db, get_cf, deserialize_output}

  -- `Wallet::get_receive_address`
  unfoldable pub get_receive_address : ℕ → Result Bytes
  get_receive_address index = do
    pk ← ok_or (k.public_key (0, index)) (anyhow "derive_priv")
    ok (pubkey_to_address pk)

  -- The entries of a key, what is received and unspent counted for it, and the rest against it.
  unfoldable pub add_entries : Db → ℕ → List Entry → History → History
  add_entries db chain [] m = m
  add_entries db chain ((txid, vout, value) ∷ entries) m =
      let signed = if chain == 0 then value else negate64 value in
      let delta =
        if is_some (get_cf db utxo (utxo_key txid vout)) then signed else negate64 signed in
      add_entries db chain entries (add_net txid delta m)

  -- `TxHistoryEntry` of a transaction and its amount.
  unfoldable pub entry_of : Db → ℕ → Hash × ℕ → Result TxHistoryEntry
  entry_of db current_height (txid, net) = do
    height ← height_from_txid x k iterate db txid
    timestamp ← or_no_time (get_block_timestamp x k iterate db height)
    ok (record {
      txid = txid;
      timestamp = timestamp;
      net_amount = net;
      confirmations = confirmations_of current_height height;
      is_receive = is_positive net;
    })

  unfoldable pub entries_of : Db → ℕ → History → Result (List TxHistoryEntry)
  entries_of db current_height [] = ok []
  entries_of db current_height (h ∷ m) = do
    entry ← entry_of db current_height h
    entries ← entries_of db current_height m
    ok (entry ∷ entries)

  unfoldable pub history_step : Db → ℕ → ℕ → History → Result History
  history_step db chain i m = do
    pk ← ok_or (k.public_key (chain, i)) (anyhow "derive_priv")
    entries ← query_addr_index x k iterate db (hash160 x pk)
    ok (add_entries db chain entries m)

  -- `Wallet::get_history`
  unfoldable pub get_history : Db → ℕ → ℕ → Result (List TxHistoryEntry)
  get_history db current_height limit = do
    received ← fold_indices (history_step db 0) 100 0 []
    m ← fold_indices (history_step db 1) 100 0 received
    entries ← entries_of db current_height m
    ok (take limit (sort_by_time entries))

  -- The addresses of both chains, what is spent counted against the transaction.
  unfoldable pub add_addresses : Db → List Bytes → History → Result History
  add_addresses db [] m = ok m
  add_addresses db (addr ∷ addrs) m = do
    pkh ← ok_or (k.address_to_pubkey_hash addr) (anyhow "Invalid address")
    entries ← query_addr_index x k iterate db pkh
    add_addresses db addrs (add_entries db 0 entries m)

  unfoldable pub build_history_task :
      Db → List Bytes → List Bytes → ℕ → Result (List TxHistoryEntry)
  build_history_task db receive_addrs change_addrs current_height = do
    m ← add_addresses db (receive_addrs ++ change_addrs) []
    entries ← entries_of db current_height (drop_settled m)
    ok (sort_by_time entries)

  -- One entry of a scan: the output, if it is unspent.
  abbrev pub found_utxo : Db → ℕ → ℕ × ℕ → Entry → Option Bytes → List Utxo → Result (List Utxo)
  found_utxo db current_height path (txid, vout, value) none utxos = ok utxos
  found_utxo db current_height path (txid, vout, value) (some raw) utxos = do
    out ← ok_or (deserialize_output raw) (bincode "deserialize")
    height ← height_from_txid x k iterate db txid
    ok (
        utxos
        ++ (record {
          txid = txid;
          vout = vout;
          value = value;
          confirmations = confirmations_of current_height height;
          script_pubkey = out.script_pubkey;
          height = height;
          derivation_path = path;
          is_confirmed = true;
        }
            ∷ []))

  unfoldable pub scan_entries : Db → ℕ → ℕ × ℕ → List Entry → List Utxo → Result (List Utxo)
  scan_entries db current_height path [] utxos = ok utxos
  scan_entries db current_height path ((txid, vout, value) ∷ entries) utxos = do
    utxos' ←
        found_utxo db current_height path (txid, vout, value) (get_cf db utxo (utxo_key txid vout))
          utxos
    scan_entries db current_height path entries utxos'

  -- `while gap < gap_limit`, with this many indices left of the 2 ^ 31 that a key can have.
  unfoldable pub scan_from : Db → ℕ → ℕ → ℕ → ℕ → ℕ → Scan → Result Scan
  scan_from db current_height chain_num gap_limit zero gap s =
      if ltb gap gap_limit then err (anyhow "Invalid child number") else ok s
  scan_from db current_height chain_num gap_limit (suc left) gap s =
      if not (ltb gap gap_limit) then ok s else (do
        pk ← ok_or (k.public_key (chain_num, s.index)) (anyhow "derive_priv")
        entries ← query_addr_index x k iterate db (hash160 x pk)
        utxos ← scan_entries db current_height (chain_num, s.index) entries s.utxos
        let active = ltb 0 (length entries)
        scan_from db current_height chain_num gap_limit left (if active then 0 else gap + 1)
            (record {
              utxos = utxos;
              addresses =
                  if active then s.addresses ++ (pubkey_to_address pk ∷ []) else s.addresses;
              index = s.index + 1;
            }))

  -- `scan_chain`: what it found, and the balance.
  unfoldable pub scan_chain : Db → ℕ → ℕ → ℕ → Result (Scan × ℕ)
  scan_chain db chain_num gap_limit current_height = do
    s ←
        scan_from db current_height chain_num gap_limit (2 ^ 31) 0
          (record { utxos = []; addresses = []; index = 0 })
    ok (s, balance_of 0 s.utxos)
