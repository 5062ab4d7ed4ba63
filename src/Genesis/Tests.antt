-- ===== src/Genesis/Tests.antt =====
-- The genesis block on the stand-ins for the libraries, on which the first nonce does.
use abc.Bytes.{zeros}
use abc.Errors.{ok}
use abc.Genesis.{genesis_coinbase, genesis_header, find_nonce, create_genesis_block}
use abc.Genesis.Nonce.{IsFirst, create_genesis_block-IsFirst}
use abc.Prelude.{ℕ, ◌≡◌, ◌<◌, ◌^◌, refl, [], ◌∷◌}
use abc.Sample.{sample}
use abc.SampleChain.{validation}
use abc.Types.{Block}
use abc.Utils.Compact.{compact_to_target}

program : Unit {0}
unfolding validation zeros genesis_coinbase genesis_header find_nonce create_genesis_block
program = tt

abbrev genesis : Block
genesis = record {
  header = genesis_header sample (genesis_coinbase sample (5 ∷ []));
  txs = genesis_coinbase sample (5 ∷ []) ∷ [];
}

created : create_genesis_block sample (5 ∷ []) ≡ ok genesis
unfolding program
created = refl

create_genesis_block-IsFirst_example :
    (target : ℕ) × (compact_to_target 0x1d00ffff ≡ ok target)
    × (first : IsFirst sample target
        (genesis_header sample (genesis_coinbase sample (5 ∷ [])))
        0
        genesis.header)
    × (first.k < 2 ^ 64)
    × (genesis.txs ≡ genesis_coinbase sample (5 ∷ []) ∷ [])
create_genesis_block-IsFirst_example = create_genesis_block-IsFirst sample (5 ∷ []) genesis created
