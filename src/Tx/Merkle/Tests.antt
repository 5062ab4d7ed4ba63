-- ===== src/Tx/Merkle/Tests.antt =====
-- Merkle roots of small rows.
use abc.Prelude.{◌≡◌, ◌⊎◌, refl, false, [], ◌∷◌, map}
use abc.Sample.{sample, sample-Digests32}
use abc.Tx.{tx_hash}
use abc.Tx.Merkle.{compute_merkle_root, merkle_root_of, merkle_loop}
use abc.Tx.Merkle.Binding.{Collision, compute_merkle_root_binds}
use abc.Types.{Transaction}

abbrev one : Transaction
one = record {
  version = 1;
  is_anonymous = false;
  inputs = [];
  outputs = [];
  lock_time = 0;
  range_proofs = [];
}

abbrev two : Transaction
two = record one { version = 2 }

abbrev three : Transaction
three = record one { version = 3 }

-- One transaction is its own root.
root_of_one : compute_merkle_root sample (one ∷ []) ≡ tx_hash sample one
unfolding compute_merkle_root merkle_root_of merkle_loop
root_of_one = refl

compute_merkle_root_binds_example :
    (map (tx_hash sample) (one ∷ two ∷ three ∷ []) ≡ map (tx_hash sample) (one ∷ two ∷ three ∷ []))
    ⊎ Collision sample
compute_merkle_root_binds_example =
    compute_merkle_root_binds sample sample-Digests32 (one ∷ two ∷ three ∷ [])
      (one ∷ two ∷ three ∷ []) refl refl
