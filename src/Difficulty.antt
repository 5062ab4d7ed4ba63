-- ===== src/Difficulty.antt =====
-- 111/src/chain.rs `calculate_next_bits` and `get_median_timestamp`: the difficulty of the next
-- block, from the headers of the best chain. Heights are of 64 bits.
pub mod Retarget
pub mod Bits
mod Tests
use abc.Prelude.{
  ℕ, zero, suc, ◌+◌, ◌-◌, ◌*◌, ◌/◌, ◌%◌, min, Option, none, some, List, [], ◌∷◌, length, ltb, leb,
  ◌==◌, if◌then◌else◌,
}
use abc.Errors.{Result, ok, err, panicked, ◌>>=◌, ok_or, unwrap, anyhow}
use abc.Types.{Block}
use abc.External.{default, External}
use abc.Store.{height_key, block_key, load_header}
use abc.Utils.Checked.{u32_mod, wrapping_sub64}
use abc.Utils.Compact.{compact_to_target, target_to_compact}
use abc.Utils.Constants.{difficulty_adjust_interval, expected_time}

-- `times.sort_unstable()`: on numbers every sort gives the same list.
unfoldable pub insert_sorted : ℕ → List ℕ → List ℕ
insert_sorted t [] = t ∷ []
insert_sorted t (u ∷ us) = if leb t u then t ∷ u ∷ us else u ∷ insert_sorted t us

unfoldable pub sort_times : List ℕ → List ℕ
unfolding insert_sorted
sort_times [] = []
sort_times (t ∷ ts) = insert_sorted t (sort_times ts)

-- `times[i]`
unfoldable pub get_time : List ℕ → ℕ → Result ℕ
get_time [] i = panicked
get_time (t ∷ ts) zero = ok t
get_time (t ∷ ts) (suc i) = get_time ts i

-- `if times.is_empty() { 0 } else { times[times.len() / 2] }` of the sorted times.
unfoldable pub median : List ℕ → Result ℕ
unfolding sort_times get_time
median [] = ok 0
median (t ∷ ts) = get_time (sort_times (t ∷ ts)) (length (t ∷ ts) / 2)

-- `timestamp.clamp(EXPECTED_TIME / 4, EXPECTED_TIME * 4)`
unfoldable pub clamp_time : ℕ → ℕ
clamp_time t =
    if ltb t (expected_time / 4)
    then expected_time / 4
    else if ltb (expected_time * 4) t
    then expected_time * 4
    else t

-- The new target of the old one and of the time that the period took, below the target of the
-- genesis block.
unfoldable pub retarget : ℕ → ℕ → ℕ → ℕ
unfolding clamp_time
retarget genesis_target old_target actual_time =
    let new_target = old_target * clamp_time actual_time / expected_time in
    let max_target = old_target * 4 in
    let min_target = old_target / 4 in
    let new_target = if ltb max_target new_target then max_target else new_target in
    let new_target = if ltb new_target min_target then min_target else new_target in
    if ltb genesis_target new_target then genesis_target else new_target

module _ (x : External) where
  open x use {Db, get_cf, deserialize_block}

  -- One turn of the loop of `get_median_timestamp`.
  unfoldable pub block_time : Db → ℕ → List ℕ → Result (List ℕ)
  block_time db i rest = elim (get_cf db default (height_key i)) [
    | none ↦ ok rest
    | some hash_bytes ↦ elim (get_cf db default (block_key hash_bytes)) [
      | none ↦ ok rest
      | some block_bytes ↦ do
        block ← unwrap (ok_or (deserialize_block block_bytes) (anyhow "Deserialize failed"))
        ok (block.header.timestamp ∷ rest)
    ]
  ]

  -- `(height.saturating_sub(10)..=height).rev()`, the last `n` of it.
  unfoldable pub recent_times : Db → ℕ → ℕ → Result (List ℕ)
  recent_times db zero i = ok []
  recent_times db (suc n) i = do rest ← recent_times db n (i - 1); block_time db i rest

  unfoldable pub get_median_timestamp : Db → ℕ → Result ℕ
  get_median_timestamp db height = do
    times ← recent_times db (min height 10 + 1) height
    median times

  unfoldable pub calculate_next_bits : Db → ℕ → Result ℕ
  calculate_next_bits db height =
      if height % difficulty_adjust_interval == 0
      then (do
        start_header ← unwrap (load_header x db (wrapping_sub64 height difficulty_adjust_interval))
        end_header ← unwrap (load_header x db (wrapping_sub64 height 1))
        let actual_time = (end_header.timestamp + u32_mod - start_header.timestamp) % u32_mod
        old_target ← compact_to_target end_header.bits
        genesis_target ← compact_to_target 0x1d00ffff
        median_time ← get_median_timestamp db (wrapping_sub64 height 1)
        ok (
            target_to_compact (
              if leb end_header.timestamp median_time
              then old_target
              else retarget genesis_target old_target actual_time)))
      else (do header ← unwrap (load_header x db (height - 1)); ok header.bits)
