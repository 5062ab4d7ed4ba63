-- ===== src/Rpc/Guard.antt =====
-- 111/src/main.rs `start_rpc_server`: which requests are answered.
use abc.Bytes.{Bytes}
use abc.Chain.{Chain}
use abc.External.{External}
use abc.Mempool.{Mempool}
use abc.Methods.{Method, done}
use abc.Prelude.{
  Option-cases, inl, inr, ap, false, ℕ, ◌≡◌, refl, Option, none, some, List, length, if◌then◌else◌,
  arith,
}
use abc.Rpc.{
  Response, unauthorized, Codes, trim_bearer, validate_jwt, guarded, get_height, get_balance,
  get_block, get_mempool, send_tx, is_ok,
}

-- The same codes, where another time of expiry is read from the claims of a token.
abbrev pub rereading : (Option ℕ → Option ℕ) → Codes → Codes
rereading reread codes = record codes {
  decode = λ now token secret. elim (codes.decode now token secret) [
    | none ↦ none
    | some exp ↦ some (reread exp)
  ];
}

module _ (codes : Codes) (secret : Bytes) (now : ℕ) where
  validate_jwt-rereading :
      (reread : Option ℕ → Option ℕ) (token : Bytes)
      → is_ok (validate_jwt (rereading reread codes) secret now token)
        ≡ is_ok (validate_jwt codes secret now token)
  unfolding validate_jwt
  validate_jwt-rereading reread token = elim (Option-cases (codes.decode now token secret)) [
    | inl refused ↦ ground (arith, refused)
    | inr (exp, decoded) ↦ ground (arith, decoded)
  ]

  validate_jwt_refuses :
      (token : Bytes)
      → codes.decode now token secret ≡ none
      → is_ok (validate_jwt codes secret now token) ≡ false
  unfolding validate_jwt
  validate_jwt_refuses token h = ground (arith, h)

  guarded-rereading :
      {S : Type 0} (reread : Option ℕ → Option ℕ) (auth : Option Bytes) (answer : Method S Response)
      (s : S)
      → guarded (rereading reread codes) secret now auth answer s
        ≡ guarded codes secret now auth answer s
  unfolding guarded
  guarded-rereading reread none answer s = refl
  guarded-rereading reread (some auth) answer s =
      ap (λ b. if b then answer s else (done unauthorized, s))
        (validate_jwt-rereading reread (trim_bearer (length auth) auth))

  guarded_refuses :
      {S : Type 0} (auth : Bytes) (answer : Method S Response) (s : S)
      → codes.decode now (trim_bearer (length auth) auth) secret ≡ none
      → guarded codes secret now (some auth) answer s ≡ (done unauthorized, s)
  unfolding guarded
  guarded_refuses auth answer s h =
      ap (λ b. if b then answer s else (done unauthorized, s))
        (validate_jwt_refuses (trim_bearer (length auth) auth) h)

  module _ (x : External) (iterate : x.Db → Bytes → List (Bytes × Bytes)) where
    -- Whatever time of expiry the five handlers read from the claims of a token, none of their answers
    -- is another one: only the checks that the decoder makes count.
    pub answers-rereading :
        (reread : Option ℕ → Option ℕ) (now_ms : ℕ) (auth : Option Bytes) (address raw_hex : Bytes)
        (c : Chain x) (m : Mempool)
        → let codes' = rereading reread codes in
          (get_height codes' secret now x auth c ≡ get_height codes secret now x auth c)
          × (get_balance codes' secret now x iterate address auth c
              ≡ get_balance codes secret now x iterate address auth c)
          × (get_block codes' secret now x auth c ≡ get_block codes secret now x auth c)
          × (get_mempool codes' secret now x auth m ≡ get_mempool codes secret now x auth m)
          × (send_tx codes' secret now x c.db now_ms raw_hex auth m
              ≡ send_tx codes secret now x c.db now_ms raw_hex auth m)
    unfolding get_height get_balance get_block get_mempool send_tx
    answers-rereading reread now_ms auth address raw_hex c m = (
      guarded-rereading reread auth _ c,
      guarded-rereading reread auth _ c,
      guarded-rereading reread auth _ c,
      guarded-rereading reread auth _ m,
      guarded-rereading reread auth _ m,
    )

    -- A request whose token the decoder refuses is refused, and changes nothing.
    strangers_refused :
        (now_ms : ℕ) (auth address raw_hex : Bytes) (c : Chain x) (m : Mempool)
        → codes.decode now (trim_bearer (length auth) auth) secret ≡ none
        → (get_height codes secret now x (some auth) c ≡ (done unauthorized, c))
          × (get_balance codes secret now x iterate address (some auth) c ≡ (done unauthorized, c))
          × (get_block codes secret now x (some auth) c ≡ (done unauthorized, c))
          × (get_mempool codes secret now x (some auth) m ≡ (done unauthorized, m))
          × (send_tx codes secret now x c.db now_ms raw_hex (some auth) m ≡ (done unauthorized, m))
    unfolding get_height get_balance get_block get_mempool send_tx
    strangers_refused now_ms auth address raw_hex c m h = (
      guarded_refuses auth _ c h,
      guarded_refuses auth _ c h,
      guarded_refuses auth _ c h,
      guarded_refuses auth _ m h,
      guarded_refuses auth _ m h,
    )
