-- ===== src/Net/Messages/Handle.antt =====
-- 111/src/net.rs `handle_message`: the count of inventory messages, and the choice of the handler.
use abc.Bytes.{Bytes}
use abc.Chain.{Disk}
use abc.Errors.{Result, anyhow, invalid_block}
use abc.External.{External}
use abc.Maps.{find_key, insert_key, find_at}
use abc.Methods.{◌>>=◌, ◌>>◌, read, change, fail_if}
use abc.Net.{IpAddr, Clock, PmMethod, decrease_reputation, id_of}
use abc.Net.Handshake.{from_le_bytes}
use abc.Net.Messages.{
  handle_inv, handle_getdata, handle_getheaders, handle_getaddr, handle_addr, handle_ping,
  handle_tx, handle_block, handle_headers,
}
use abc.Net.Outside.{Wire}
use abc.Prelude.{
  not, ℕ, ◌+◌, ◌%◌, Bool, ◌||◌, Option, none, some, length, take, ltb, ◌==◌, if◌then◌else◌,
}
use abc.Types.{Hash}
use abc.Utils.Checked.{u64_mod}

abbrev pub count_or_zero : Option ℕ → ℕ
count_or_zero none = 0
count_or_zero (some n) = n

module _ (x : External) (w : Wire) (connects : Bool) (clock : Clock) where
  -- The inventory messages of a key are counted, and those after a thousand cost reputation.
  unfoldable pub count_inv : ℕ → IpAddr → PmMethod x (Unit {0}) → PmMethod x (Unit {0})
  count_inv p ip next = do
    pm ← read
    let peer_id = id_of (find_at p pm.store)
    let count = (count_or_zero (find_key peer_id pm.pending_inv) + 1) % u64_mod
    change (λ pm'. record pm' { pending_inv = insert_key peer_id count pm'.pending_inv })
    (if ltb 1000 count then decrease_reputation x w connects clock p ip else next)

  module _ (load_supply_from_db : x.Db → Result ℕ) (disk : Disk)
      (checkpoint_hashes : ℕ → Option Hash) where
    -- The kinds from 3 on.
    unfoldable pub handle_kind : ℕ → ℕ → Bytes → PmMethod x (Unit {0})
    handle_kind kind p msg =
        if kind == 3
        then handle_getdata x w p msg
        else if kind == 4
        then handle_getheaders x w p msg
        else if kind == 5
        then handle_tx x w clock msg
        else if kind == 6
        then handle_block x w clock load_supply_from_db disk checkpoint_hashes msg
        else if kind == 8
        then handle_headers x w clock load_supply_from_db disk checkpoint_hashes msg
        else if kind == 9
        then handle_getaddr x w p
        else if kind == 10
        then handle_addr x w msg
        else if kind == 11
        then handle_ping x w p msg
        else fail_if (not (kind == 12)) (anyhow "Unknown message type")

    -- `PeerManager::handle_message`
    unfoldable pub handle_message : ℕ → IpAddr → Bytes → PmMethod x (Unit {0})
    handle_message p ip msg = do
      fail_if (ltb (length msg) 4) (invalid_block "Message too short")
      let kind = from_le_bytes (take 4 msg)
      (if (kind == 1) || (kind == 2)
          then count_inv p ip (handle_inv x kind msg)
          else handle_kind kind p msg)
