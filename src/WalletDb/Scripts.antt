-- ===== src/WalletDb/Scripts.antt =====
-- The scripts of the wallet database (lexe-ln/src/wallet/db/mod.rs): their listing by keychain, and their
-- deletion by path.
use Prim.Native.Nat.Ordering.{lt}
use lexe_public.Base.{ℕ, none, some, List, [], ◌∷◌, ◌++◌, ◌≡◌, refl, ap, All, arith}
use lexe_public.Base.BTree.{Ascends, get-insert}
use lexe_public.WalletDb.Library.{Bdk, KeychainKind, external, internal}
use lexe_public.WalletDb.KeyPath.{KeyPath, cmp_path, path_order}
use lexe_public.WalletDb.Data.{
  DbData, values, filter_keychain, iter_script_pubkeys, get_path_from_script_pubkey,
}
use lexe_public.WalletDb.Operations.{set_script_pubkey, del_script_pubkey_from_path}
use lexe_public.WalletDb.Invariant.{IsWellFormed}

module _ {V : Type 0} where
  all_internal :
      (c : ℕ) (m : List (KeyPath × V))
      → All
          (λ (e : KeyPath × V). path_order.cmp (record { keychain = internal; child = c }) e.0 ≡ lt)
          m
      → (filter_keychain external m ≡ []) × (filter_keychain internal m ≡ m)
  unfolding filter_keychain path_order cmp_path
  all_internal c [] h = (refl, refl)
  all_internal c ((p, s) ∷ m) h = ground (arith, all_internal c m h.1, h.0)

  by_keychain :
      (keychain : KeychainKind) (child : ℕ) (s : V) (m : List (KeyPath × V))
      → Ascends path_order ((record { keychain = keychain; child = child }, s) ∷ m)
      → values m ≡ values (filter_keychain external m) ++ values (filter_keychain internal m)
      → values ((record { keychain = keychain; child = child }, s) ∷ m)
        ≡ values (filter_keychain external ((record { keychain = keychain; child = child }, s) ∷ m))
          ++ values
              (filter_keychain internal ((record { keychain = keychain; child = child }, s) ∷ m))
  unfolding filter_keychain
  by_keychain external child s m h rest = ap (λ l. s ∷ l) rest
  by_keychain internal child s m h rest =
      let (no_external, all) = all_internal child m h.0 in rw (no_external, all) refl

  values_by_keychain :
      (m : List (KeyPath × V))
      → Ascends path_order m
      → values m ≡ values (filter_keychain external m) ++ values (filter_keychain internal m)
  unfolding filter_keychain
  values_by_keychain [] h = refl
  values_by_keychain ((p, s) ∷ m) h =
      by_keychain p.keychain p.child s m h (values_by_keychain m h.1)

module _ (bdk : Bdk) (db : DbData bdk) where
  -- In a well-formed `DbData`, `iter_script_pubkeys` with no filter lists the scripts of the
  -- external keychain and then those of the internal one, each as the filter lists them.
  pub iter_script_pubkeys_split :
      IsWellFormed bdk db
      → iter_script_pubkeys bdk db none
        ≡ iter_script_pubkeys bdk db (some external) ++ iter_script_pubkeys bdk db (some internal)
  unfolding iter_script_pubkeys
  iter_script_pubkeys_split s = values_by_keychain db.path_to_script s.paths

  -- In any state, after a script has been set at a path, deleting it by the path returns the
  -- script, and the script still finds the path.
  pub del_script_pubkey_from_path_stale :
      (script : bdk.Script) (keychain : KeychainKind) (child : ℕ)
      → ((del_script_pubkey_from_path bdk
            (set_script_pubkey bdk db script keychain child)
            keychain
            child).1
          ≡ some script)
        × (get_path_from_script_pubkey bdk
              (del_script_pubkey_from_path bdk
                (set_script_pubkey bdk db script keychain child)
                keychain
                child).0
              script
            ≡ some (keychain, child))
  unfolding del_script_pubkey_from_path set_script_pubkey get_path_from_script_pubkey
  del_script_pubkey_from_path_stale script keychain child =
      let path : KeyPath = record { keychain = keychain; child = child } in
      (
        get-insert path_order path script db.path_to_script,
        rw (get-insert bdk.script_order script path db.script_to_path) refl,
      )
