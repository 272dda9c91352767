-- ===== src/WalletDb/Tests.antt =====
-- Concrete wallet databases, and the theorems at those inputs.
use Prim.Native.Nat.{compare}
use lexe_public.Base.{
  ℕ, true, false, Option, none, some, List, [], ◌∷◌, ◌≡◌, ◌↔◌, refl, zero, suc, ok, arith,
  get_elem?,
}
use lexe_public.Base.BTree.{Order, insert, remove}
use lexe_public.WalletDb.Library.{Bdk, KeychainKind, external, internal, TransactionDetails}
use lexe_public.WalletDb.KeyPath.{
  KeyPath, path_order, cmp_path, display_path, path_from_str, decimal,
}
use lexe_public.WalletDb.KeyPath.Text.{path_from_str-display}
use lexe_public.WalletDb.Data.{
  DbData, new, meta_from, iter_txs, get_tx, iter_script_pubkeys, get_path_from_script_pubkey,
  filter_keychain,
}
use lexe_public.WalletDb.Operations.{
  set_script_pubkey, set_raw_tx, set_tx, set_last_index, del_tx, del_script_pubkey_from_path,
}
use lexe_public.WalletDb.Batch.{
  DbOp, do_op, do_ops, data_operations, set_path_script, set_raw_tx_op, set_tx_op, del_tx_op,
  set_last_index_op, batch_operations, begin_batch,
}
use lexe_public.WalletDb.Handle.{Sender, WalletDb, wallet_operations, commit_batch, new_wallet_db}
use lexe_public.WalletDb.Handle.Batching.{commit_batch_direct}
use lexe_public.WalletDb.Invariant.{IsWellFormed, do_ops-IsWellFormed}
use lexe_public.WalletDb.View.{view, meanings}
use lexe_public.WalletDb.View.Refinement.{do_ops-meanings}
use lexe_public.WalletDb.Iteration.{iter_txs_iff}
use lexe_public.WalletDb.Scripts.{del_script_pubkey_from_path_stale}

abbrev nat_order : Order ℕ
nat_order = record {
  cmp = compare;
  reflexive = λ a. ground arith;
  antisymmetric = λ a b h. ground arith;
  below = λ a b h. ground arith;
  above = λ a b h. ground arith;
  transitive = λ a b c h k. ground arith;
}

-- Scripts, outpoints, transactions and times are numbers, and a transaction is its own id.
abbrev a_bdk : Bdk
a_bdk = record {
  Script = ℕ;
  OutPoint = ℕ;
  TxOut = ℕ;
  Txid = ℕ;
  Transaction = ℕ;
  BlockTime = ℕ;
  SyncTime = ℕ;
  txid_of = λ t. t;
  script_order = nat_order;
  outpoint_order = nat_order;
  txid_order = nat_order;
}

abbrev a_tx : ℕ → Option ℕ → TransactionDetails a_bdk
a_tx txid raw = record {
  transaction = raw;
  txid = txid;
  received = 5;
  sent = 0;
  fee = none;
  confirmation_time = none;
}

abbrev a_path : KeychainKind → ℕ → KeyPath
a_path keychain child = record { keychain = keychain; child = child }

abbrev some_ops : List (DbOp a_bdk)
some_ops =
    set_path_script (a_path internal 0) 20
    ∷ set_path_script (a_path external 1) 10
    ∷ set_tx_op (a_tx 9 (some 9))
    ∷ set_tx_op (a_tx 4 none)
    ∷ set_raw_tx_op 4
    ∷ set_last_index_op (a_path external 1)
    ∷ del_tx_op 9 false
    ∷ []

abbrev empty : DbData a_bdk
empty = new a_bdk

empty-IsWellFormed : IsWellFormed a_bdk empty
empty-IsWellFormed = record {
  paths = tt;
  scripts = tt;
  utxos = record { ascends = tt; keys = tt };
  raw_txs = record { ascends = tt; keys = tt };
  tx_metas = record { ascends = tt; keys = tt };
}

abbrev a_db : DbData a_bdk
a_db = record empty {
  path_to_script = (a_path external 1, 10) ∷ (a_path internal 0, 20) ∷ [];
  script_to_path = (10, a_path external 1) ∷ (20, a_path internal 0) ∷ [];
  raw_txs = (4, 4) ∷ (9, 9) ∷ [];
  tx_metas = (4, meta_from a_bdk (a_tx 4 none)) ∷ [];
  last_external_index = some 1;
}

some_run : do_ops (data_operations a_bdk) some_ops empty ≡ a_db
unfolding do_ops do_op data_operations set_script_pubkey set_tx set_raw_tx set_last_index del_tx
    insert remove path_order cmp_path
some_run = refl

do_ops-IsWellFormed_example : IsWellFormed a_bdk (do_ops (data_operations a_bdk) some_ops empty)
do_ops-IsWellFormed_example =
    do_ops-IsWellFormed a_bdk some_ops empty (tt, (tt, (refl, (tt, (tt, (tt, (tt, tt)))))))
      empty-IsWellFormed

a_db-IsWellFormed : IsWellFormed a_bdk a_db
unfolding path_order cmp_path meta_from
a_db-IsWellFormed = record {
  paths = ((refl, tt), (tt, tt));
  scripts = ((refl, tt), (tt, tt));
  utxos = record { ascends = tt; keys = tt };
  raw_txs = record { ascends = ((refl, tt), (tt, tt)); keys = (refl, (refl, tt)) };
  tx_metas = record { ascends = (tt, tt); keys = (refl, tt) };
}

do_ops-meanings_example :
    view a_bdk (do_ops (data_operations a_bdk) some_ops a_db)
    ≡ meanings a_bdk some_ops (view a_bdk a_db)
do_ops-meanings_example =
    do_ops-meanings a_bdk some_ops a_db (tt, (tt, (refl, (tt, (tt, (tt, (tt, tt)))))))
      a_db-IsWellFormed

iter_txs_iff_example :
    ((i : ℕ) × (get_elem? (iter_txs a_bdk a_db true) i ≡ some (a_tx 4 (some 4))))
    ↔ (get_tx a_bdk a_db 4 true ≡ some (a_tx 4 (some 4)))
iter_txs_iff_example = iter_txs_iff a_bdk a_db true (a_tx 4 (some 4)) a_db-IsWellFormed

external_scripts : iter_script_pubkeys a_bdk a_db (some external) ≡ 10 ∷ []
unfolding iter_script_pubkeys filter_keychain
external_scripts = refl

del_script_pubkey_from_path_stale_example :
    ((del_script_pubkey_from_path a_bdk (set_script_pubkey a_bdk a_db 30 internal 7) internal 7).1
      ≡ some 30)
    × (get_path_from_script_pubkey a_bdk
          (del_script_pubkey_from_path a_bdk
            (set_script_pubkey a_bdk a_db 30 internal 7)
            internal
            7).0
          30
        ≡ some (internal, 7))
del_script_pubkey_from_path_stale_example =
    del_script_pubkey_from_path_stale a_bdk a_db 30 internal 7

-- A channel with room for a number of messages.
abbrev a_channel : Sender ℕ
a_channel = record { try_send = λ room. elim room [ zero ↦ (0, false) | suc n ↦ (n, true) ] }

-- A wallet database that can notify once.
abbrev a_wallet : WalletDb a_bdk ℕ
a_wallet = new_wallet_db a_bdk 1

commit_batch_direct_example :
    ((commit_batch a_bdk a_channel a_wallet
        (do_ops (batch_operations a_bdk) some_ops (begin_batch a_bdk))).0.inner
      ≡ (do_ops (wallet_operations a_bdk) some_ops a_wallet).inner)
    × ((commit_batch a_bdk a_channel a_wallet
          (do_ops (batch_operations a_bdk) some_ops (begin_batch a_bdk))).1
        ≡ ok tt)
commit_batch_direct_example = commit_batch_direct a_bdk a_channel a_wallet some_ops

path_from_str-display_example :
    path_from_str (display_path (a_path internal 207)) ≡ ok (a_path internal 207)
path_from_str-display_example = path_from_str-display (a_path internal 207) (omega arith)

path_text : display_path (a_path external 207) ≡ b'e' ∷ b'x' ∷ b't' ∷ 64 ∷ b'2' ∷ b'0' ∷ b'7' ∷ []
unfolding display_path decimal
path_text = refl
