-- ===== src/Utxo/Write.antt =====
-- What is read after a batch is written, entry by entry.
use mathlib.Core.List.{foldl, foldl-append}
use abc.Prelude.{◌≡◌, ◌&&◌, Option, none, some, List, [], ◌∷◌, ◌++◌, ap, ◌∙◌, if◌then◌else◌}
use abc.Bytes.{Bytes, eq_bytes}
use abc.External.{Cf, eq_cf, WriteOp, put_cf, delete_cf, IsRocks, External}

-- What an entry makes of the value that a key had.
abbrev pub overlay : WriteOp → Cf → Bytes → Option Bytes → Option Bytes
overlay (put_cf c k v) d j old = if eq_cf c d && eq_bytes k j then some v else old
overlay (delete_cf c k) d j old = if eq_cf c d && eq_bytes k j then none else old

module _ (x : External) where
  open x use {Db, get_cf}

  -- The entries of a batch, in order.
  abbrev pub write : Db → List WriteOp → Db
  write = foldl x.apply

  get_cf-apply :
      IsRocks x.rocks
      → (db : Db) (op : WriteOp) (d : Cf) (j : Bytes)
      → get_cf (x.apply db op) d j ≡ overlay op d j (get_cf db d j)
  get_cf-apply laws db (put_cf c k v) d j = laws.get-put db c d k j v
  get_cf-apply laws db (delete_cf c k) d j = laws.get-delete db c d k j

  pub get_cf-write :
      IsRocks x.rocks
      → (db : Db) (ops : List WriteOp) (op : WriteOp) (d : Cf) (j : Bytes)
      → get_cf (write db (ops ++ (op ∷ []))) d j ≡ overlay op d j (get_cf (write db ops) d j)
  get_cf-write laws db ops op d j =
      ap (λ s. get_cf s d j) (foldl-append x.apply db ops (op ∷ []))
      ∙ get_cf-apply laws (write db ops) op d j
