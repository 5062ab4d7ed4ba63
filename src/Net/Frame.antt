-- ===== src/Net/Frame.antt =====
-- 111/src/net.rs `add_peer`, the tasks of a connection: the bytes in which a message is written and
-- read.
pub mod Reader
use abc.Bytes.{Bytes}
use abc.Errors.{
  ◌>>=◌, ◌>>◌, Result, ok, ok_or, bail_if, decompression_failed, attack_detected, invalid_block,
}
use abc.Net.Outside.{Wire, IsLossless}
use abc.Prelude.{
  ℕ, ◌+◌, ◌*◌, ◌≤◌, ◌<◌, ◌≡◌, refl, Bool, true, false, ◌||◌, Option, none, some, List, [], ◌∷◌,
  length, drop, ltb, leb, ◌==◌, if◌then◌else◌, arith,
}

abbrev pub max_message_size : ℕ
max_message_size = 4 * 1024 * 1024

-- `MAX_MSG_DECOMPRESSED`, and a quarter of it
abbrev pub max_msg_decompressed : ℕ
max_msg_decompressed = 16 * 1024 * 1024

abbrev pub max_compressed_size : ℕ
max_compressed_size = 4 * 1024 * 1024

abbrev pub is_compressed : Bytes → Bool
is_compressed [] = false
is_compressed (b ∷ bs) = b == 1

-- The heartbeat, `vec![0; 1]`.
abbrev pub heartbeat : Bytes
heartbeat = 0 ∷ []

module _ (w : Wire) where
  -- What the writer makes of a message.
  unfoldable pub frame : Bytes → Result Bytes
  frame msg =
      if ltb 1024 (length msg)
      then (do compressed ← ok_or (w.compress msg) decompression_failed; ok (1 ∷ compressed))
      else ok (0 ∷ msg)

  -- What the reader makes of the bytes that were read.
  unfoldable pub unpack : Bytes → Result Bytes
  unpack buf =
      if is_compressed buf
      then (do
        bail_if (ltb max_compressed_size (length (drop 1 buf))) attack_detected
        decomp ← ok_or (w.uncompress (drop 1 buf)) decompression_failed
        bail_if (ltb max_msg_decompressed (length decomp)) attack_detected
        ok decomp)
      else ok (drop 1 buf)

  -- A message is read as it was written, if the library keeps it and it fits.
  pub unpack-frame :
      (msg f : Bytes)
      → IsLossless w
      → frame msg ≡ ok f
      → length f ≤ max_message_size
      → length msg ≤ max_msg_decompressed
      → unpack f ≡ ok msg
  unfolding frame unpack
  unpack-frame msg f lossless h l m =
      let keeps : (a c : Bytes) → w.compress a ≡ some c → w.uncompress c ≡ some a =
        lossless.uncompress-compress in
      grind (arith, keeps)

  -- What comes out of bytes that fit the buffer is not longer than the bound on decompression.
  pub unpack-le :
      (buf msg : Bytes)
      → length buf ≤ max_message_size
      → unpack buf ≡ ok msg
      → length msg ≤ max_msg_decompressed
  unfolding unpack
  unpack-le buf msg l h = ground arith
