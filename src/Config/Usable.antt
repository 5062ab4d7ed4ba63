-- ===== src/Config/Usable.antt =====
-- 111/src/config.rs `AppConfig::load`: what holds of every configuration that it gives.
use abc.Bytes.{Bytes}
use abc.Config.{AppConfig, Machine, is_empty, load_checkpoints, load_secret, threads_of, load}
use abc.Errors.{bail_if, anyhow, Result, ok, ok_or, >>=-eq-ok, ok_injective}
use abc.Maps.{insert_at}
use abc.Prelude.{
  not, ◌||◌, if◌then◌else◌, Bool-cases, inl, inr, ◌==◌, ℕ, ◌≤◌, ◌≡◌, false, some, List, [], ◌∷◌,
  length, min, arith,
}
use abc.Types.{Hash}

-- The hashes have the size of hashes.
abbrev pub AreHashes : List (ℕ × Hash) → Type 0
AreHashes [] = Unit {0}
AreHashes ((height, hash) ∷ hashes) = (length hash ≡ 32) × AreHashes hashes

insert_at-AreHashes :
    (height : ℕ) (hash : Hash) (hashes : List (ℕ × Hash))
    → length hash ≡ 32
    → AreHashes hashes
    → AreHashes (insert_at height hash hashes)
unfolding insert_at
insert_at-AreHashes height hash [] size rest = (size, tt)
insert_at-AreHashes height hash ((h, old) ∷ hashes) size (one, rest) =
    elim (Bool-cases (height == h)) [
      | inl same ↦ rw same (size, rest)
      | inr other ↦ rw other (one, insert_at-AreHashes height hash hashes size rest)
    ]

module _ (m : Machine)
    (sized : (n : ℕ) (hex bytes : Bytes)
      → m.decode_to_slice n hex ≡ some bytes
      → length bytes ≡ n) where
  load_checkpoints-AreHashes :
      (checkpoints : List (ℕ × Bytes)) (hashes out : List (ℕ × Hash))
      → AreHashes hashes
      → load_checkpoints m checkpoints hashes ≡ ok out
      → AreHashes out
  unfolding load_checkpoints
  load_checkpoints-AreHashes [] hashes out h e = rw (← ok_injective e) h
  load_checkpoints-AreHashes ((height, hex_str) ∷ checkpoints) hashes out h e =
      let (bytes, decoded, e') =
        >>=-eq-ok (ok_or (m.decode_to_slice 32 hex_str) (anyhow "Invalid checkpoint hash")) _ e in
      let size = sized 32 hex_str bytes (ground (arith, decoded)) in
      load_checkpoints-AreHashes checkpoints (insert_at height bytes hashes) out
        (insert_at-AreHashes height bytes hashes size h) e'

  threads_of-le : (n : ℕ) → min 1 m.get_physical ≤ threads_of m n
  threads_of-le n = ground arith

  -- A configuration that was loaded has a key of 32 bytes, hashes of 32 bytes, ports, a secret, a seed
  -- and, on a machine with a core, a thread, where decoded digits have the size that was asked for.
  pub load_checks :
      (source : Result AppConfig) (c : AppConfig)
      → load m source ≡ ok c
      → (length c.coinbase_sk_bytes ≡ 32)
        × AreHashes c.checkpoint_hashes
        × (1 ≤ c.p2p_port)
        × (1 ≤ c.rpc_port)
        × (is_empty c.rpc_jwt_secret ≡ false)
        × (is_empty c.seed_nodes ≡ false)
        × (min 1 m.get_physical ≤ c.num_randomx_threads)
  unfolding load
  load_checks source c e =
      let (config, given, e1) = >>=-eq-ok source _ e in
      let (decoded, known, e2) =
        >>=-eq-ok (ok_or (m.decode_base64 config.coinbase_sk) (anyhow "Invalid base64 coinbase_sk"))
          _ e1 in
      let (u, key_size, e3) =
        >>=-eq-ok (bail_if (not (length decoded == 32)) (anyhow "coinbase_sk must be 32 bytes")) _
          e2 in
      let (hashes, loaded, e4) = >>=-eq-ok (load_checkpoints m config.checkpoints []) _ e3 in
      let (secret, made, e5) = >>=-eq-ok (load_secret m config.rpc_jwt_secret) _ e4 in
      let (u1, ports, e6) =
        >>=-eq-ok
          (bail_if ((config.p2p_port == 0) || (config.rpc_port == 0)) (anyhow "Ports must be > 0"))
          _ e5 in
      let (u2, secrets, e7) =
        >>=-eq-ok (bail_if (is_empty secret) (anyhow "RPC JWT secret required")) _ e6 in
      let (u3, seeds, e8) =
        >>=-eq-ok (bail_if (is_empty config.seed_nodes) (anyhow "At least one seed node required"))
          _ e7 in
      let (u4, pages, e9) =
        >>=-eq-ok (if config.enable_huge_pages then m.init_huge_pages else ok tt) _ e8 in
      let sizes = load_checkpoints-AreHashes config.checkpoints [] hashes tt loaded in
      rw (← ok_injective e9) (
        ground (arith, key_size),
        sizes,
        ground (arith, ports),
        ground (arith, ports),
        ground (arith, secrets),
        ground (arith, seeds),
        threads_of-le config.num_randomx_threads,
      )
