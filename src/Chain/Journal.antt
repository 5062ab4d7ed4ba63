-- ===== src/Chain/Journal.antt =====
-- 111/src/chain.rs `start_reorg_journal`, `commit_reorg_batch` and `build_block_ops`: the batch of a
-- reorganization, and its journal in the database. A write of the journal is taken to succeed.
use abc.Bytes.{Bytes, to_be_bytes}
use abc.Chain.{Chain, Disk, ChainState, header_ops}
use abc.Methods.{Method, ◌>>=◌, ◌>>◌, call, read, change, fail_if}
use abc.Errors.{Result, ok, anyhow, rocks_db}
use abc.External.{default, WriteOp, put_cf, delete_cf, External}
use abc.Prelude.{ℕ, zero, suc, ◌-◌, List, [], ◌∷◌, ◌++◌, not}
use abc.Store.{load_block_from_db}
use abc.Tx.{header_hash}
use abc.Types.{Block, ReorgJournal}
use abc.Utils.Checked.{wrapping_sub64}
use abc.Utxo.{Action, connect, disconnect, apply_utxo_changes, key_utxo_set_hash, key_total_supply}
use abc.Utxo.Write.{write}

-- `format!("reorg:pending:{}", journal_id)`
unfoldable pub journal_key : Bytes → Bytes
journal_key journal_id =
    (b'r' ∷ b'e' ∷ b'o' ∷ b'r' ∷ b'g' ∷ b':' ∷ b'p' ∷ b'e' ∷ b'n' ∷ b'd' ∷ b'i' ∷ b'n' ∷ b'g' ∷ b':'
      ∷ [])
    ++ journal_id

module _ (x : External) where
  open x use {Db, serialize_journal}

  unfoldable pub start_reorg_journal : Bytes → ReorgJournal → Db → Db
  start_reorg_journal journal_id journal db =
      write x db (put_cf default (journal_key journal_id) (serialize_journal journal) ∷ [])

  -- The batch, and then the journal, by two writes.
  unfoldable pub commit_reorg_batch : Db → List WriteOp → Bytes → Db
  commit_reorg_batch db batch journal_id =
      write x (write x db batch) (delete_cf default (journal_key journal_id) ∷ [])

  -- The hash and the supply are the ones in memory, also for the second block of a batch.
  unfoldable pub build_block_ops :
      Db → ChainState → Block → ℕ → Action → List WriteOp → Result (List WriteOp)
  build_block_ops db state block height action batch =
      abc.Errors.◌>>=◌ (header_hash x block.header) λ hash.
        abc.Errors.◌>>=◌
          (apply_utxo_changes x db action height block (record {
            batch = batch;
            rollback_ops = [];
            set_hash = state.utxo_set_hash;
            supply = state.total_supply;
          }))
          λ a. ok (
            a.batch
            ++ (header_ops x action height block
                ++ (put_cf default (key_utxo_set_hash x) a.set_hash
                    ∷ put_cf default (key_total_supply x) (to_be_bytes 8 a.supply)
                    ∷ [])))

  -- The blocks of the best chain from height `h` down, `n` of them.
  unfoldable pub disconnect_blocks : Db → ChainState → ℕ → ℕ → List WriteOp → Result (List WriteOp)
  disconnect_blocks db state zero h batch = ok batch
  disconnect_blocks db state (suc n) h batch = abc.Errors.◌>>=◌ (load_block_from_db x db h) λ blk.
      abc.Errors.◌>>=◌ (build_block_ops db state blk h disconnect batch)
        λ batch'. disconnect_blocks db state n (h - 1) batch'

  -- From the journal to the write: the chain of `best_height` gives way to `block` at `height`.
  unfoldable pub reorganize : Disk → Bytes → Block → ℕ → ℕ → Method (Chain x) (Unit {0})
  reorganize disk journal_id block prev_height height = do
    c ← read
    change (λ d. record d {
      db =
          start_reorg_journal journal_id
            (record {
              journal_id = journal_id;
              old_tip_height = c.best_height;
              old_tip_hash = c.best_tip;
              disconnect_depth = wrapping_sub64 c.best_height prev_height;
              new_block = block;
            })
            d.db;
    })
    d ← read
    disconnected ←
        call (disconnect_blocks d.db d.state (c.best_height - prev_height) c.best_height [])
    batch ← call (build_block_ops d.db d.state block height connect disconnected)
    fail_if (not disk.accepts) (rocks_db "write")
    change (λ e. record e { db = commit_reorg_batch e.db batch journal_id; best_height = height })
