-- ===== src/Utils/Secrets.antt =====
-- 111/src/utils.rs `secure_load_file`, `load_keypair` and `PowEngine::hash`: the guards of secret
-- files, and the machine that hashes next. What the system says of a file, ed25519 and RandomX are
-- arguments.
use abc.Bytes.{Bytes}
use abc.Errors.{
  Result, ok, err, ok_or, bail_if, anyhow, file_permission_error_at, invalid_encryption_key, ◌>>=◌,
  ◌>>◌, >>=-eq-ok,
}
use abc.External.{External}
use abc.Methods.{Method, call}
use abc.Prelude.{ℕ, ◌+◌, ◌%◌, ◌≤◌, ◌≡◌, Bool, not, Option, length, ltb, ◌==◌, if◌then◌else◌, arith}
use abc.Types.{Hash}
use abc.Utils.Checked.{u64_mod}

-- What `fstat` gives of an open file.
pub record FileStat : Type 0 where
  pub st_uid : ℕ
  pub st_mode : ℕ
  pub st_size : ℕ

-- `mode.intersects(0o077)`, the last six bits.
abbrev pub is_broad : ℕ → Bool
is_broad mode = not (mode % 64 == 0)

-- `secure_load_file`, of a file that may not open, by this user; `read_exact` fills a buffer.
unfoldable pub secure_load_file : ℕ → Option FileStat → (ℕ → Option Bytes) → Result Bytes
secure_load_file user file read_exact = do
  stat ← ok_or file (anyhow "Unable to open the secret file")
  bail_if (not (stat.st_uid == user)) (file_permission_error_at "Wrong owner")
  bail_if (is_broad stat.st_mode) (file_permission_error_at "Permissions too broad")
  bail_if (ltb 4096 stat.st_size) (file_permission_error_at "Key file too large")
  ok_or (read_exact stat.st_size) (anyhow "Reading secret file")

-- `load_keypair`, for a way to make a key of 32 bytes.
unfoldable pub load_keypair :
    {K : Type 0} → (Bytes → Option K) → ℕ → Option FileStat → (ℕ → Option Bytes) → Result K
load_keypair from_bytes user file read_exact = do
  bytes ← secure_load_file user file read_exact
  bail_if (not (length bytes == 32)) invalid_encryption_key
  ok_or (from_bytes bytes) (anyhow "Invalid secret key bytes")

-- `PowEngine::hash`, with this many machines; the state is the count of hashes.
unfoldable pub engine_hash : External → ℕ → Bytes → Method ℕ Hash
engine_hash x machines bytes idx =
    if machines == 0
    then call (err (anyhow "RandomX pool empty")) idx
    else call (ok_or (x.calculate_hash bytes) (anyhow "RandomX hash failed")) ((idx + 1) % u64_mod)

-- A secret that was loaded is in a file of this user that no one else can use, of at most 4096 bytes.
pub secure_load_file-ok :
    (user : ℕ) (file : Option FileStat) (read_exact : ℕ → Option Bytes) (secret : Bytes)
    → secure_load_file user file read_exact ≡ ok secret
    → (stat : FileStat) × (ok_or file (anyhow "Unable to open the secret file") ≡ ok stat)
      × (stat.st_uid ≡ user)
      × (stat.st_mode % 64 ≡ 0)
      × (stat.st_size ≤ 4096)
unfolding secure_load_file
secure_load_file-ok user file read_exact secret h =
    let (stat, opened, h1) = >>=-eq-ok (ok_or file (anyhow "Unable to open the secret file")) _ h in
    let (u1, owner, h2) =
      >>=-eq-ok (bail_if (not (stat.st_uid == user)) (file_permission_error_at "Wrong owner")) _
        h1 in
    let (u2, closed, h3) =
      >>=-eq-ok (bail_if (is_broad stat.st_mode) (file_permission_error_at "Permissions too broad"))
        _ h2 in
    let (u3, small, h4) =
      >>=-eq-ok (bail_if (ltb 4096 stat.st_size) (file_permission_error_at "Key file too large")) _
        h3 in
    (stat, opened, ground (arith, owner), ground (arith, closed), ground (arith, small))
