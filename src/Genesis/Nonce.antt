-- ===== src/Genesis/Nonce.antt =====
-- 111/src/tx.rs `create_genesis_block`: the nonce that is found is the first one that does.
use native.Mathlib.Decide.{dec_lt}
use mathlib.Core.Path.{subst}
use abc.Bytes.{Bytes, from_be_bytes}
use abc.Errors.{ok, >>=-eq-ok, ok_injective}
use abc.External.{External}
use abc.Genesis.{find_nonce, create_genesis_block, genesis_coinbase, genesis_header}
use abc.Prelude.{
  sym, ap, ◌∙◌, ℕ, zero, suc, ◌+◌, ◌^◌, ◌<◌, ◌≤◌, ◌≡◌, [], ◌∷◌, arith, inl, inr, Bool-cases, leb,
}
use abc.Tx.{header_hash}
use abc.Types.{Hash, BlockHeader, Block}
use abc.Utils.Compact.{compact_to_target}

module _ (x : External) where
  -- The hash of the header with this nonce, and how it compares with the target.
  abbrev pub IsTooHigh : ℕ → BlockHeader → ℕ → Type 0
  IsTooHigh target header k =
      (hash : Hash) × (header_hash x (record header { nonce = k }) ≡ ok hash)
      × (target < from_be_bytes hash)

  abbrev pub IsMined : ℕ → BlockHeader → ℕ → Type 0
  IsMined target header k =
      (hash : Hash) × (header_hash x (record header { nonce = k }) ≡ ok hash)
      × (from_be_bytes hash ≤ target)

  -- What the search has found, and what it has passed.
  pub record IsFirst (target : ℕ) (header : BlockHeader) (start : ℕ) (found : BlockHeader)
      : Type 0 where
    pub k : ℕ
    pub is : found ≡ record header { nonce = k }
    pub after_start : start ≤ k
    pub mined : IsMined target header k
    pub passed : (j : ℕ) → start ≤ j → j < k → IsTooHigh target header j

  find_nonce-IsFirst :
      (target n start : ℕ) (header : BlockHeader) {found : BlockHeader}
      → find_nonce x target n start header ≡ ok found
      → (first : IsFirst target header start found) × (first.k < start + n)
  unfolding find_nonce
  find_nonce-IsFirst target zero start header h = cc h
  find_nonce-IsFirst target (suc n) start header h =
      let (hash, e, r) = >>=-eq-ok (header_hash x (record header { nonce = start })) _ h in
      elim (Bool-cases (leb (from_be_bytes hash) target)) [
        | inl low ↦ (
          record {
            k = start;
            is = sym (ok_injective (rw low at r));
            after_start = omega arith;
            mined = (hash, e, ground (arith, low));
            passed = λ j a b. absurd (omega (arith, a, b));
          },
          omega arith,
        )
        | inr high ↦
            let (first, bound) = find_nonce-IsFirst target n (start + 1) header (rw high at r) in
            (
              record {
                k = first.k;
                is = first.is;
                after_start = omega (arith, first.after_start);
                mined = first.mined;
                passed = λ j a b. elim (dec_lt start j) [
                  | yes later ↦ first.passed j (omega (arith, later)) b
                  | no sooner ↦
                      let here : start ≡ j = omega (arith, a, sooner) in
                      subst (IsTooHigh target header) here (hash, e, ground (arith, high))
                ];
              },
              omega (arith, bound),
            )
      ]

  -- The genesis block that is made has the first nonce below 2 ^ 64 whose hash is at most the target of
  -- its bits: every smaller nonce gives a hash above it.
  pub create_genesis_block-IsFirst :
      (pubkey : Bytes) (b : Block)
      → create_genesis_block x pubkey ≡ ok b
      → (target : ℕ) × (compact_to_target 0x1d00ffff ≡ ok target)
        × (first : IsFirst target (genesis_header x (genesis_coinbase x pubkey)) 0 b.header)
        × (first.k < 2 ^ 64)
        × (b.txs ≡ genesis_coinbase x pubkey ∷ [])
  unfolding create_genesis_block genesis_header
  create_genesis_block-IsFirst pubkey b h =
      let header = genesis_header x (genesis_coinbase x pubkey) in
      let (target, e, r) = >>=-eq-ok (compact_to_target 0x1d00ffff) _ h in
      let (found, finds, made) = >>=-eq-ok (find_nonce x target (2 ^ 64) 0 header) _ r in
      let (first, bound) = find_nonce-IsFirst target (2 ^ 64) 0 header finds in
      let same = ok_injective (sym made) in
      (
        target,
        e,
        record {
          k = first.k;
          is = ap (λ (c : Block). c.header) same ∙ first.is;
          after_start = first.after_start;
          mined = first.mined;
          passed = first.passed;
        },
        omega (arith, bound),
        ap (λ (c : Block). c.txs) same,
      )
