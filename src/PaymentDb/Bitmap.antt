-- ===== src/PaymentDb/Bitmap.antt =====
-- `RoaringBitmap` of the roaring crate, as a parameter: the operations that the database calls, and
-- what the crate documents of them, by the ascending list of the bitmap's values.
use lexe_public.Base.{
  ℕ, suc, ◌+◌, ◌≤◌, Bool, false, not, Option, some, List, [], ◌∷◌, ◌≡◌, length, get_elem?, leb, ltb,
  ◌==◌, ◌||◌, if◌then◌else◌,
}

pub record Bitmap (B : Type 0) : Type 0 where
  pub new : B
  pub insert : B → ℕ → B × Bool
  pub remove : B → ℕ → B × Bool
  pub len : B → ℕ
  pub rank : B → ℕ → ℕ
  pub select : B → ℕ → Option ℕ
  pub iter : B → List ℕ
  pub from_sorted_iter : List ℕ → Option B

abbrev pub member : ℕ → List ℕ → Bool
member x [] = false
member x (y ∷ l) = y == x || member x l

-- An ascending list with a value put in, or taken out.
unfoldable pub put : ℕ → List ℕ → List ℕ
put x [] = x ∷ []
put x (y ∷ l) = if ltb x y then x ∷ y ∷ l else if y == x then y ∷ l else y ∷ put x l

unfoldable pub drop_value : ℕ → List ℕ → List ℕ
drop_value x [] = []
drop_value x (y ∷ l) = let rest = drop_value x l in if y == x then rest else y ∷ rest

unfoldable pub count_le : ℕ → List ℕ → ℕ
count_le x [] = 0
count_le x (y ∷ l) = (if leb y x then 1 else 0) + count_le x l

-- All values lie from `low` on, and ascend.
abbrev pub AscendsFrom : ℕ → List ℕ → Type 0
AscendsFrom low [] = Unit
AscendsFrom low (y ∷ l) = (low ≤ y) × AscendsFrom (suc y) l

pub record BitmapLaws {B : Type 0} (bm : Bitmap B) : Type 0 where
  pub iter_new : bm.iter bm.new ≡ []
  pub iter_insert : (b : B) (x : ℕ) → bm.iter (bm.insert b x).0 ≡ put x (bm.iter b)
  pub insert_new : (b : B) (x : ℕ) → (bm.insert b x).1 ≡ not (member x (bm.iter b))
  pub iter_remove : (b : B) (x : ℕ) → bm.iter (bm.remove b x).0 ≡ drop_value x (bm.iter b)
  pub remove_old : (b : B) (x : ℕ) → (bm.remove b x).1 ≡ member x (bm.iter b)
  pub len_iter : (b : B) → bm.len b ≡ length (bm.iter b)
  pub rank_iter : (b : B) (x : ℕ) → bm.rank b x ≡ count_le x (bm.iter b)
  pub select_iter : (b : B) (n : ℕ) → bm.select b n ≡ get_elem? (bm.iter b) n
  pub from_sorted :
      (l : List ℕ) → AscendsFrom 0 l → (b : B) × (bm.from_sorted_iter l ≡ some b) × (bm.iter b ≡ l)
