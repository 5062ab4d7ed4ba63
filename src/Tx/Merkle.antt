-- ===== src/Tx/Merkle.antt =====
-- 111/src/tx.rs `Block::compute_merkle_root`.
pub mod Rounds
pub mod Binding
mod Tests
use abc.Prelude.{
  ℕ, zero, suc, ◌%◌, Bool, List, [], ◌∷◌, ◌++◌, map, length, ltb, ◌==◌, if◌then◌else◌, true, false,
}
use abc.Bytes.{Bytes, zero_hash}
use abc.Types.{Hash, Transaction}
use abc.External.{External}
use abc.Tx.{sha256d, tx_hash}

-- `hashes.last()`, or `d` where there is none.
unfoldable pub last_or : Hash → List Hash → Hash
last_or d [] = d
last_or d (h ∷ hs) = last_or h hs

-- `hashes[0]`, or `d` where there is none.
abbrev pub first_or : Hash → List Hash → Hash
first_or d [] = d
first_or d (h ∷ hs) = h

-- `if hashes.len() % 2 == 1 { hashes.push(*hashes.last().unwrap()); }`
unfoldable pub push_last : List Hash → List Hash
unfolding last_or
push_last hashes =
    if length hashes % 2 == 1 then hashes ++ (last_or zero_hash hashes ∷ []) else hashes

module _ (x : External) where
  -- The body of the loop over `hashes.chunks(2)`; the length is even here.
  unfoldable pub combine : List Hash → List Hash
  combine (a ∷ b ∷ hs) = sha256d x (a ++ b) ∷ combine hs
  combine _ = []

  -- `while hashes.len() > 1`; a round at least halves the list, so its length is fuel enough.
  unfoldable pub merkle_loop : ℕ → List Hash → List Hash
  unfolding combine push_last
  merkle_loop zero hashes = hashes
  merkle_loop (suc f) hashes = elim (ltb 1 (length hashes)) [
    | true ↦ merkle_loop f (combine (push_last hashes))
    | false ↦ hashes
  ]

  unfoldable pub merkle_root_of : List Hash → Hash
  merkle_root_of [] = zero_hash
  merkle_root_of (h ∷ hs) = first_or zero_hash (merkle_loop (length (h ∷ hs)) (h ∷ hs))

  unfoldable pub compute_merkle_root : List Transaction → Hash
  unfolding merkle_root_of
  compute_merkle_root txs = merkle_root_of (map (tx_hash x) txs)
