-- ===== src/Utxo/Coinbase.antt =====
-- The reward of a block never reaches the set of unspent outputs, so that the supply that is
-- counted there only falls.
use abc.Bytes.{Bytes, to_be_bytes}
use abc.Errors.{ok, >>=-eq-ok, ok_injective}
use abc.External.{utxo, coinbase, put_cf, IsRocks, External}
use abc.Prelude.{
  ℕ, ◌≤◌, ◌≡◌, ◌⊎◌, inl, inr, Bool, true, false, none, List, [], ◌∷◌, arith, refl, ap, sym, ◌∙◌,
}
use abc.Tx.{is_coinbase, tx_hash}
use abc.Types.{TxInput, Transaction}
use abc.Utils.Checked.{sum}
use abc.Utxo.{Acc, connect, push, coinbase_action, handle_utxo_action, txs_action}
use abc.Utxo.Supply.{AllSpend, handle_utxo_action-supply}
use abc.Utxo.Write.{write, get_cf-write}
use abc.Validation.{validate_transaction}
use abc.Validation.Sound.{IsPayment, Worth, validate_transaction_iff}
use mathlib.Core.Path.{subst}

module _ (x : External) where
  open x use {Db, get_cf}

  handle_coinbase :
      (db : Db) (height : ℕ) (tx : Transaction) (a : Acc)
      → is_coinbase tx ≡ true
      → handle_utxo_action x db connect height tx a
        ≡ ok (
            push
              (put_cf coinbase (tx_hash x tx) (to_be_bytes 8 height))
              ((coinbase, tx_hash x tx, none) ∷ [])
              a)
  unfolding handle_utxo_action coinbase_action
  handle_coinbase db height tx a c = simp c

  -- Connecting a coinbase succeeds, leaves the supply and the hash of the set as they are, and its
  -- batch changes nothing in the family of unspent outputs, in a database that reads back what was
  -- written: the reward cannot be spent.
  pub coinbase_not_stored :
      IsRocks x.rocks
      → (db : Db) (height : ℕ) (tx : Transaction) (a : Acc) → is_coinbase tx ≡ true
      → (a' : Acc) × (handle_utxo_action x db connect height tx a ≡ ok a')
        × (a'.supply ≡ a.supply)
        × (a'.set_hash ≡ a.set_hash)
        × ((k : Bytes) → get_cf (write x db a'.batch) utxo k ≡ get_cf (write x db a.batch) utxo k)
  coinbase_not_stored laws db height tx a c =
      let op = put_cf coinbase (tx_hash x tx) (to_be_bytes 8 height) in
      (
        push op ((coinbase, tx_hash x tx, none) ∷ []) a,
        handle_coinbase db height tx a c,
        refl,
        refl,
        λ k. get_cf-write x laws db a.batch op utxo k,
      )

  -- One input is worth one value.
  same_values :
      (db : Db) (is : List TxInput) (vs ws : List ℕ)
      → AllSpend x db false is vs
      → Worth x db is ws
      → vs ≡ ws
  same_values db [] [] [] p q = refl
  same_values db [] [] (w ∷ ws) p q = absurd q
  same_values db [] (v ∷ vs) ws p q = absurd p
  same_values db (i ∷ is) [] ws p q = absurd p
  same_values db (i ∷ is) (v ∷ vs) [] p q = absurd q
  same_values db (i ∷ is) (v ∷ vs) (w ∷ ws) ((b, o, f, r, e), p) ((b', o', f', r', e'), q) =
      let rest : vs ≡ ws = same_values db is vs ws p q in let first : v ≡ w = ground arith in cc

  -- A transaction of a block that passed validation.
  abbrev pub IsChecked : Db → ℕ → ℕ → Transaction → Type 0
  IsChecked db best height tx =
      (is_coinbase tx ≡ true)
      ⊎ ((is_coinbase tx ≡ false)
          × (tx.is_anonymous ≡ false)
          × (validate_transaction x tx best db height ≡ ok tt))

  abbrev pub AllChecked : Db → ℕ → ℕ → List Transaction → Type 0
  AllChecked db best height [] = Unit
  AllChecked db best height (tx ∷ txs) = IsChecked db best height tx × AllChecked db best height txs

  handle-supply-le :
      (db : Db) (best height : ℕ) (tx : Transaction) (a : Acc) {a' : Acc}
      → IsChecked db best height tx
      → handle_utxo_action x db connect height tx a ≡ ok a'
      → a'.supply ≤ a.supply
  handle-supply-le db best height tx a (inl c) h = omega (
    arith,
    ap (λ (b : Acc). b.supply) (ok_injective (sym (handle_coinbase db height tx a c) ∙ h)),
  )
  handle-supply-le db best height tx a (inr (c, plain, valid)) h =
      let p : IsPayment x tx best db height =
        (validate_transaction_iff x tx best db height c plain).0 valid in
      let (vs, spends, total) = handle_utxo_action-supply x db height tx a c h in
      let spends' : AllSpend x db false tx.inputs vs =
        subst (λ (b : Bool). AllSpend x db b tx.inputs vs) plain spends in
      omega (arith, total, ap sum (same_values db tx.inputs vs p.values spends' p.worth), p.covered)

  -- Connecting a block whose transactions are coinbases or passed validation as transparent
  -- transactions against the same state never raises the supply that is counted.
  pub txs_action-supply-le :
      (db : Db) (best height : ℕ) (txs : List Transaction) (a : Acc) {a' : Acc}
      → AllChecked db best height txs
      → txs_action x db connect height txs a ≡ ok a'
      → a'.supply ≤ a.supply
  unfolding txs_action
  txs_action-supply-le db best height [] a checked h =
      omega (arith, ap (λ (b : Acc). b.supply) (ok_injective h))
  txs_action-supply-le db best height (tx ∷ txs) a (one, rest) h =
      let (a1, first, others) = >>=-eq-ok (handle_utxo_action x db connect height tx a) _ h in
      omega (
        arith,
        handle-supply-le db best height tx a one first,
        txs_action-supply-le db best height txs a1 rest others,
      )
