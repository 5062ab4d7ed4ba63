-- ===== src/Net/Frame/Reader.antt =====
-- 111/src/net.rs `add_peer`, the task that reads: what it does with a read, and what ends it. A read
-- gives bytes, or nothing after an error or too long a wait.
use abc.Bytes.{Bytes}
use abc.Errors.{ok, invalid_block}
use abc.External.{External}
use abc.Methods.{failed, call, ◌>>=◌, ◌>>◌, fail_if, pure, caught}
use abc.Net.{IpAddr, Clock, PeerManager, PmMethod, decrease_reputation, remove_peer}
use abc.Net.Frame.{max_message_size, frame, unpack}
use abc.Net.Outside.{Wire}
use abc.Prelude.{
  ℕ, ◌<◌, ◌≡◌, Bool, true, false, Option, none, some, List, [], ◌∷◌, length, drop, ltb, ◌==◌,
  if◌then◌else◌, arith,
}

module _ (x : External) (w : Wire) (connects : Bool) (clock : Clock)
    (handle_message : ℕ → IpAddr → Bytes → PmMethod x (Unit {0})) where
  -- One read: whether there is a next one. The bytes after the first are counted, not the message.
  unfoldable pub on_read : ℕ → IpAddr → Bytes → PmMethod x Bool
  on_read p ip buf =
      if length buf == 0
      then pure false
      else (if ltb max_message_size (length buf)
          then (do decrease_reputation x w connects clock p ip; pure true)
          else (do
            processed ← call (unpack w buf)
            fail_if (ltb (length (drop 1 buf)) 4) (invalid_block "Message too short")
            (λ pm.
                caught (handle_message p ip processed pm)
                  (decrease_reputation x w connects clock p ip >> pure true) (pure true))))

  -- The reader. Only a read that gives nothing takes the peer out.
  unfoldable pub read_loop : ℕ → IpAddr → List (Option Bytes) → PmMethod x (Unit {0})
  read_loop p ip [] = pure tt
  read_loop p ip (none ∷ reads) = remove_peer x ip p
  read_loop p ip (some buf ∷ reads) = do
    more ← on_read p ip buf
    (if more then read_loop p ip reads else remove_peer x ip p)

  -- A message of less than four bytes, as the heartbeat is, ends the reader with an error: what comes
  -- after it is not read, and the peer is not taken out.
  pub read_loop_stops :
      (p : ℕ) (ip : IpAddr) (msg : Bytes) (reads : List (Option Bytes)) (pm : PeerManager x)
      → length msg < 4
      → (f : Bytes) × (frame w msg ≡ ok f)
        × (read_loop p ip (some f ∷ reads) pm ≡ (failed (invalid_block "Message too short"), pm))
  unfolding read_loop on_read frame unpack
  read_loop_stops p ip msg reads pm l = (0 ∷ msg, ground (arith, l), ground (arith, l))
