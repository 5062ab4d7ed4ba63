-- ===== src/Validation/Anonymous.antt =====
-- Anonymous transactions never pass: `validate_transaction` leaves their input sum at zero.
use abc.Prelude.{ℕ, ◌<◌, ◌≡◌, ◌≢◌, true, false, arith, ◌^◌}
use abc.Errors.{ok}
use abc.Types.{Transaction}
use abc.External.{External}
use abc.Tx.{is_coinbase, tx_size}
use abc.Validation.{required_fee, check_fee, validate_transaction}

module _ (x : External) where
  open x use {Db}

  -- No anonymous transaction can pay its fee from an input sum of zero.
  check_fee-zero :
      (tx : Transaction)
      → tx.is_anonymous ≡ true
      → 0 < tx_size x tx
      → tx_size x tx < 2 ^ 59
      → check_fee x tx 0 ≢ ok tt
  unfolding check_fee required_fee
  check_fee-zero tx a lo hi h = ground arith

  -- An anonymous transaction that is no coinbase is refused, whatever it spends, proves and pays,
  -- when its encoding is not empty and shorter than 2 ^ 59 bytes.
  pub validate_transaction_refuses_anonymous :
      (tx : Transaction) (best_height : ℕ) (db : Db) (height : ℕ)
      → is_coinbase tx ≡ false
      → tx.is_anonymous ≡ true
      → 0 < tx_size x tx
      → tx_size x tx < 2 ^ 59
      → validate_transaction x tx best_height db height ≢ ok tt
  unfolding validate_transaction
  validate_transaction_refuses_anonymous tx best_height db height c a lo hi h =
      ground (arith, check_fee-zero tx a lo hi)
