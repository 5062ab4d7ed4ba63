-- ===== src/Wallet/Payment.antt =====
-- 111/src/main.rs `Wallet::create_tx`: which outputs are spent, the fee, the change and the
-- signatures. `self.current_change_index`, which the source does not declare, is an argument.
pub mod Balance
pub mod Pays
use abc.Bytes.{Bytes}
use abc.Errors.{Result, ok, err, panicked, ok_or, bail_if, anyhow, ◌>>=◌, ◌>>◌}
use abc.External.{External, Secp}
use abc.Prelude.{
  ℕ, zero, suc, ◌+◌, ◌-◌, ◌*◌, ◌%◌, ◌^◌, Bool, true, false, ◌||◌, Option, none, some, List, [], ◌∷◌,
  ◌++◌, length, map, leb, ltb, ◌==◌, if◌then◌else◌,
}
use abc.Script.{sighash, set_script}
use abc.Tx.{p2pkh_script, tx_hash}
use abc.Types.{Hash, TxInput, TxOutput, Transaction}
use abc.Utils.Checked.{u64_mod, wrapping_add64, wrapping_sub64}
use abc.Wallet.{Utxo, WalletKeys, get_utxos}

-- `sort_by_key(|u| Reverse(u.value))`, which is stable.
unfoldable pub insert_by_value : Utxo → List Utxo → List Utxo
insert_by_value u [] = u ∷ []
insert_by_value u (v ∷ vs) = if leb v.value u.value then u ∷ v ∷ vs else v ∷ insert_by_value u vs

unfoldable pub sort_by_value : List Utxo → List Utxo
sort_by_value [] = []
sort_by_value (u ∷ us) = insert_by_value u (sort_by_value us)

-- The outputs that are taken until their sum is enough, and the sum.
unfoldable pub select : ℕ → ℕ → List Utxo → List Utxo × ℕ
select enough sum [] = ([], sum)
select enough sum (u ∷ us) =
    let sum' = wrapping_add64 sum u.value in
    let rest = select enough sum' us in
    if leb enough sum' then (u ∷ [], sum') else (u ∷ rest.0, rest.1)

abbrev pub dust : ℕ
dust = 1000

abbrev pub outputs_count : ℕ → ℕ
outputs_count change = if ltb dust change then 2 else 1

-- `(a as i64 - b as i64).abs() < 20`; the least number has no other absolute value than itself.
abbrev pub is_near : ℕ → ℕ → Bool
is_near a b = let d = wrapping_sub64 a b in ltb d 20 || ltb (u64_mod - d) 20 || (d == 2 ^ 63)

-- The fee of `n` inputs with one output, and with those that the fee leaves room for.
abbrev pub first_fee : ℕ → ℕ → ℕ
first_fee n fee_rate = (n * 106 + 26 + 34) * fee_rate % u64_mod

abbrev pub next_fee : ℕ → ℕ → ℕ → ℕ
next_fee n fee_rate change = (26 + n * 106 + outputs_count change * 34 + n * 4) * fee_rate % u64_mod

-- `for _ in 0..20`, with `turns` left.
unfoldable pub settle_fee : ℕ → ℕ → ℕ → ℕ → ℕ → ℕ
settle_fee zero n fee_rate left fee = fee
settle_fee (suc turns) n fee_rate left fee =
    let new_fee = next_fee n fee_rate (wrapping_sub64 left fee) in
    let rest = settle_fee turns n fee_rate left new_fee in if is_near new_fee fee then fee else rest

-- `p2pkh_script_from_pkh`
abbrev pub p2pkh_script_from_pkh : Bytes → Bytes
p2pkh_script_from_pkh pkh = (0x76 ∷ 0xa9 ∷ 0x14 ∷ []) ++ (pkh ++ (0x88 ∷ 0xac ∷ []))

abbrev pub pay : ℕ → Bytes → TxOutput
pay value script = record { value = value; script_pubkey = script; commitment = none }

abbrev pub input_of : Utxo → TxInput
input_of u = record { txid = u.txid; vout = u.vout; script_sig = []; sequence = 0xffffffff }

-- What is paid for and how: the inputs and their sum, the amount and the fee.
pub record Plan : Type 0 where
  pub inputs : List Utxo
  pub input_sum : ℕ
  pub fee : ℕ

-- Up to the outputs.
unfoldable pub make_plan : ℕ → ℕ → List Utxo → Result Plan
make_plan amount fee_rate utxos = do
  let (inputs, input_sum) = select (wrapping_add64 amount 100_000) 0 (sort_by_value utxos)
  bail_if (ltb input_sum amount) (anyhow "Insufficient funds")
  let n = length inputs
  let fee = settle_fee 20 n fee_rate (wrapping_sub64 input_sum amount) (first_fee n fee_rate)
  bail_if (ltb input_sum (wrapping_add64 amount fee)) (anyhow "Insufficient funds (fees included)")
  ok (record { inputs = inputs; input_sum = input_sum; fee = fee })

module _ (x : External) (secp : Secp) (k : WalletKeys) where
  -- The change: to a key of the wallet, or what is dust to the address that was given.
  unfoldable pub change_outputs : ℕ → ℕ → Option Bytes → Result (List TxOutput)
  change_outputs change_index change change_addr =
      if ltb dust change
      then (do
        pk ← ok_or (k.public_key (1, change_index)) (anyhow "derive_priv")
        ok (pay change (p2pkh_script x pk) ∷ []))
      else elim change_addr [
        | none ↦ ok []
        | some address ↦ do
          pkh ← ok_or (k.address_to_pubkey_hash address) (anyhow "Invalid address")
          ok (pay change (p2pkh_script_from_pkh pkh) ∷ [])
      ]

  unfoldable pub make_outputs : Bytes → ℕ → ℕ → Option Bytes → Plan → Result (List TxOutput)
  make_outputs to amount change_index change_addr p = do
    to_pkh ← ok_or (k.address_to_pubkey_hash to) (anyhow "Invalid address")
    rest ←
        change_outputs change_index (wrapping_sub64 (wrapping_sub64 p.input_sum amount) p.fee)
          change_addr
    ok (pay amount (p2pkh_script_from_pkh to_pkh) ∷ rest)

  -- `for (i, utxo) in inputs.iter().enumerate()`, from `i` on: the signature, the type of its hash and
  -- the key, one after the other.
  unfoldable pub sign_inputs : ℕ → List Utxo → Transaction → Result Transaction
  sign_inputs i [] tx = ok tx
  sign_inputs i (u ∷ us) tx = do
    pk ← ok_or (k.public_key u.derivation_path) (anyhow "derive_priv")
    hash ← sighash x secp tx i u.script_pubkey 1
    inputs ← set_script i (k.sign u.derivation_path hash ++ ((1 ∷ []) ++ pk)) tx.inputs
    sign_inputs (i + 1) us (record tx { inputs = inputs })

  -- From the outputs of the wallet on.
  unfoldable pub pay_from :
      Bytes → ℕ → ℕ → ℕ → Option Bytes → List Utxo → Result (Transaction × Hash)
  pay_from to amount fee_rate change_index change_addr utxos = do
    p ← make_plan amount fee_rate utxos
    outputs ← make_outputs to amount change_index change_addr p
    tx ← sign_inputs 0 p.inputs (record {
      version = 1;
      is_anonymous = false;
      inputs = map input_of p.inputs;
      outputs = outputs;
      lock_time = 0;
      range_proofs = [];
    })
    ok (tx, tx_hash x tx)

  module _ (iterate : x.Db → Bytes → List (Bytes × Bytes)) where
    -- `Wallet::create_tx`
    unfoldable pub create_tx :
        x.Db → ℕ → Bytes → ℕ → ℕ → ℕ → Option Bytes → Result (Transaction × Hash)
    create_tx db current_height to amount fee_rate change_index change_addr = do
      utxos ← get_utxos x k iterate db current_height true
      pay_from to amount fee_rate change_index change_addr utxos
