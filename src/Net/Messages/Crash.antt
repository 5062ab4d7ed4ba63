-- ===== src/Net/Messages/Crash.antt =====
-- 111/src/net.rs `handle_message`: messages that end the process, and those that are never answered.
use abc.Bytes.{Bytes}
use abc.Chain.{Disk}
use abc.Errors.{Result, anyhow}
use abc.External.{External}
use abc.Maps.{find_key}
use abc.Methods.{crashed, failed}
use abc.Net.{IpAddr, Clock, PeerManager}
use abc.Net.Handshake.{from_le_bytes}
use abc.Net.Messages.{handle_getdata, handle_ping, send_block}
use abc.Net.Messages.Handle.{handle_kind, handle_message}
use abc.Net.Outside.{Wire}
use abc.Prelude.{
  ap, ◌∙◌, refl, zero, suc, [], ◌∷◌, ◌-◌, ◌==◌, ℕ, ◌+◌, ◌≤◌, ◌<◌, ◌≡◌, ◌⊎◌, inl, inr, false, Bool,
  ltb, if◌then◌else◌, Option, none, length, take, drop, arith,
}
use abc.Types.{Hash}

==-over : (a b : ℕ) → b < a → (a == b) ≡ false
==-over a b h = ground (arith, h)

short_lem : {n : ℕ} → 4 ≤ n → ltb n 4 ≡ false
short_lem h = ground (arith, h)

length-take : (n : ℕ) (b : Bytes) → n ≤ length b → length (take n b) ≡ n
length-take zero b h = ground arith
length-take (suc n) [] h = ground (arith, h)
length-take (suc n) (c ∷ b) h = grind (arith, length-take n b)

length-drop : (n : ℕ) (b : Bytes) → length (drop n b) ≡ length b - n
length-drop zero b = ground arith
length-drop (suc n) [] = ground arith
length-drop (suc n) (c ∷ b) = grind (arith, length-drop n b)

length-sub_slice : (a n : ℕ) (b : Bytes) → a + n ≤ length b → length (take n (drop a b)) ≡ n
length-sub_slice a n b h = length-take n (drop a b) (rw (length-drop a b) (omega arith))

module _ (x : External) (w : Wire) (connects : Bool) (clock : Clock)
    (load_supply_from_db : x.Db → Result ℕ) (disk : Disk) (checkpoint_hashes : ℕ → Option Hash)
    (p : ℕ) (ip : IpAddr) (msg : Bytes) (pm : PeerManager x) where
  handle_message-kind :
      (kind : ℕ)
      → from_le_bytes (take 4 msg) ≡ kind
      → 3 ≤ kind
      → 4 ≤ length msg
      → handle_message x w connects clock load_supply_from_db disk checkpoint_hashes p ip msg pm
        ≡ handle_kind x w connects clock load_supply_from_db disk checkpoint_hashes kind p msg pm
  unfolding handle_message
  handle_message-kind kind h three long =
      rw (short_lem long, h, ==-over kind 1 (omega arith), ==-over kind 2 (omega arith)) refl

  handle_getdata-crashes :
      (4 ≤ length msg)
      → (length msg < 40)
        ⊎ ((from_le_bytes (take 4 (drop 4 msg)) ≡ 2)
            × (find_key (take 32 (drop 8 msg)) pm.chain.state.hash_to_height ≡ none)
            × (pm.chain_lock ≡ false))
      → (handle_getdata x w p msg pm).0 ≡ crashed
  unfolding handle_getdata send_block
  handle_getdata-crashes long (inl short) = ground (arith, short)
  handle_getdata-crashes long (inr (block, unknown, free)) = ground (arith, block, unknown, free)

  -- A request for data of less than 40 bytes ends the process, and so does one for a block of an
  -- unknown hash, while the lock of the chain is free.
  pub getdata_crashes :
      from_le_bytes (take 4 msg) ≡ 3
      → 4 ≤ length msg
      → (length msg < 40)
        ⊎ ((from_le_bytes (take 4 (drop 4 msg)) ≡ 2)
            × (find_key (take 32 (drop 8 msg)) pm.chain.state.hash_to_height ≡ none)
            × (pm.chain_lock ≡ false))
      → (handle_message x w connects clock load_supply_from_db disk checkpoint_hashes p ip msg pm).0
        ≡ crashed
  unfolding handle_kind
  getdata_crashes kind long h =
      ap (λ r. r.0) (handle_message-kind 3 kind (omega arith) long) ∙ handle_getdata-crashes long h

  handle_ping-fails :
      handle_ping x w p msg pm
      ≡ ((if ltb (length msg) 12 then crashed else failed (anyhow "TryFromSliceError")), pm)
  unfolding handle_ping
  handle_ping-fails = let eight = length-sub_slice 4 8 msg in ground (arith, eight)

  -- A ping of twelve bytes or more is an error, and no pong is sent; a shorter one ends the process.
  pub ping_fails :
      from_le_bytes (take 4 msg) ≡ 11
      → 4 ≤ length msg
      → handle_message x w connects clock load_supply_from_db disk checkpoint_hashes p ip msg pm
        ≡ ((if ltb (length msg) 12 then crashed else failed (anyhow "TryFromSliceError")), pm)
  unfolding handle_kind
  ping_fails kind long = handle_message-kind 11 kind (omega arith) long ∙ handle_ping-fails
