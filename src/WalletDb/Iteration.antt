-- ===== src/WalletDb/Iteration.antt =====
-- `iter_txs` against `get_tx` of the wallet database (lexe-ln/src/wallet/db/mod.rs).
use mathlib.Core.List.{map-map}
use mathlib.Core.Path.{subst}
use lexe_public.Base.{
  ℕ, zero, suc, Bool, true, false, Option, none, some, List, [], ◌∷◌, map, ◌≡◌, ◌↔◌, inl, inr, refl,
  ap, ◌∙◌, get_elem?, All, some_inj, map_option, if◌then◌else◌,
}
use lexe_public.Base.BTree.{Order, Ordering-cases, get, get_entries}
use lexe_public.WalletDb.Library.{Bdk, TransactionDetails}
use lexe_public.WalletDb.Data.{DbData, TransactionMetadata, values, into_tx, iter_txs, get_tx}
use lexe_public.WalletDb.Invariant.{IsFiled, IsWellFormed}

-- An entry that is listed, with what holds of all entries.
entry_at :
    {K V A : Type 0} (P : K × V → Type 0) (f : V → A) (m : List (K × V)) (i : ℕ) (a : A)
    → All P m
    → get_elem? (map f (values m)) i ≡ some a
    → (k : K) × (v : V) × P (k, v) × (f v ≡ a)
entry_at P f [] i a h e = cc
entry_at P f ((k, v) ∷ m) zero a h e = (k, v, h.0, some_inj e)
entry_at P f ((k, v) ∷ m) (suc i) a h e = entry_at P f m i a h.1 e

place_of :
    {K V A : Type 0} (o : Order K) (f : V → A) (m : List (K × V)) (k : K) (v : V)
    → get o k m ≡ some v
    → (i : ℕ) × (get_elem? (map f (values m)) i ≡ some (f v))
unfolding get
place_of o f [] k v e = cc
place_of o f ((j, w) ∷ m) k v e = elim (Ordering-cases (o.cmp k j)) [
  | inl h ↦ cc (rw (h, get) at e)
  | inr (inl h) ↦ (0, ap (λ u. some (f u)) (some_inj (rw (h, get) at e)))
  | inr (inr h) ↦ let (i, found) = place_of o f m k v (rw (h, get) at e) in (suc i, found)
]

All-both :
    {A : Type 0} (P Q : A → Type 0) (xs : List A) → All P xs → All Q xs → All (λ a. P a × Q a) xs
All-both P Q [] h k = tt
All-both P Q (x ∷ xs) h k = ((h.0, k.0), All-both P Q xs h.1 k.1)

map_option_inv :
    {A B : Type 0} (f : A → B) (o : Option A) (b : B)
    → map_option f o ≡ some b
    → (a : A) × (o ≡ some a) × (f a ≡ b)
map_option_inv f none b h = cc
map_option_inv f (some a) b h = (a, refl, some_inj h)

-- What holds of an entry's key and of its lookup.
both :
    {K V : Type 0} (o : Order K) (key : V → K) (m : List (K × V))
    → IsFiled o key m
    → All (λ (e : K × V). (get o e.0 m ≡ some e.1) × (key e.1 ≡ e.0)) m
both o key m f =
    All-both (λ e. get o e.0 m ≡ some e.1) (λ e. key e.1 ≡ e.0) m (get_entries o m f.ascends) f.keys

module _ (bdk : Bdk) (db : DbData bdk) (include_raw : Bool) where
  raw_of : bdk.Txid → Option bdk.Transaction
  raw_of txid = if include_raw then get bdk.txid_order txid db.raw_txs else none

  details : TransactionMetadata bdk → TransactionDetails bdk
  unfolding raw_of into_tx
  details meta = into_tx bdk meta (raw_of meta.txid)

module _ (bdk : Bdk) (db : DbData bdk) where
  iter_txs_details :
      (include_raw : Bool)
      → iter_txs bdk db include_raw ≡ map (details bdk db include_raw) (values db.tx_metas)
  unfolding iter_txs details
  iter_txs_details true = map-map _ _ (values db.tx_metas)
  iter_txs_details false = refl

  get_tx_details :
      (include_raw : Bool) (meta : TransactionMetadata bdk)
      → get bdk.txid_order meta.txid db.tx_metas ≡ some meta
      → get_tx bdk db meta.txid include_raw ≡ some (details bdk db include_raw meta)
  unfolding get_tx details
  get_tx_details true meta h = rw h refl
  get_tx_details false meta h = rw h refl

  get_tx_inv :
      (include_raw : Bool) (tx : TransactionDetails bdk)
      → get_tx bdk db tx.txid include_raw ≡ some tx
      → (meta : TransactionMetadata bdk) × (get bdk.txid_order tx.txid db.tx_metas ≡ some meta)
        × (details bdk db include_raw meta ≡ tx)
  unfolding get_tx details
  get_tx_inv include_raw tx h =
      let (meta, found, same) =
        map_option_inv (λ m. into_tx bdk m (raw_of bdk db include_raw tx.txid))
          (get bdk.txid_order tx.txid db.tx_metas) tx h in
      let key : meta.txid ≡ tx.txid = ap (λ (t : TransactionDetails bdk). t.txid) same in
      (meta, found, ap (λ t. into_tx bdk meta (raw_of bdk db include_raw t)) key ∙ same)

  -- In a well-formed `DbData`, with and without raw transactions, `iter_txs` lists just the
  -- details that `get_tx` finds under their txid.
  pub iter_txs_iff :
      (include_raw : Bool) (tx : TransactionDetails bdk)
      → IsWellFormed bdk db
      → ((i : ℕ) × (get_elem? (iter_txs bdk db include_raw) i ≡ some tx))
        ↔ (get_tx bdk db tx.txid include_raw ≡ some tx)
  iter_txs_iff include_raw tx s = (
    λ (i, listed).
        let (k, v, found, same) =
          entry_at (λ e. (get bdk.txid_order e.0 db.tx_metas ≡ some e.1) × (e.1.txid ≡ e.0))
            (details bdk db include_raw) db.tx_metas i tx
            (both bdk.txid_order (λ (t : TransactionMetadata bdk). t.txid) db.tx_metas s.tx_metas)
            (rw (iter_txs_details include_raw) at listed) in
        let own : get bdk.txid_order v.txid db.tx_metas ≡ some v = rw found.1 found.0 in
        let result : get_tx bdk db (details bdk db include_raw v).txid include_raw
            ≡ some (details bdk db include_raw v) =
          unfold details in get_tx_details include_raw v own in
        subst (λ (t : TransactionDetails bdk). get_tx bdk db t.txid include_raw ≡ some t) same
          result,
    λ found.
        let (meta, there, same) = get_tx_inv include_raw tx found in
        let (i, listed) =
          place_of bdk.txid_order (details bdk db include_raw) db.tx_metas tx.txid meta there in
        (i, rw (iter_txs_details include_raw) (listed ∙ ap (λ t. some t) same)),
  )
