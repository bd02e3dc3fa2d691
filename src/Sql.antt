-- ===== src/Sql.antt =====
-- What the SQL statements of the source do to a table, which is the list of its rows in the order
-- of insertion. Every statement is one of these, with the `WHERE` clause as a test of a row.
pub mod Laws
pub mod Keys
pub mod Upsert
use voxply_server.Common.{
  String, ◌==◌, ℕ, suc, Bool, false, ◌||◌, Option, none, some, List, [], ◌∷◌, ◌++◌, if◌then◌else◌,
}
use voxply_server.Common.Int.{ℤ, ltb_ℤ}

module _ {R : Type 0} where
  -- `SELECT COUNT(*) ... WHERE p`
  unfoldable pub count_where : (R → Bool) → List R → ℕ
  count_where p [] = 0
  count_where p (r ∷ rs) = if p r then suc (count_where p rs) else count_where p rs

  -- `SELECT COUNT(*) > 0 ... WHERE p`
  unfoldable pub exists_where : (R → Bool) → List R → Bool
  exists_where p [] = false
  exists_where p (r ∷ rs) = p r || exists_where p rs

  -- `fetch_optional`: the first row that meets the test
  unfoldable pub fetch_optional : (R → Bool) → List R → Option R
  fetch_optional p [] = none
  fetch_optional p (r ∷ rs) = if p r then some r else fetch_optional p rs

  -- `fetch_all`
  unfoldable pub fetch_all : (R → Bool) → List R → List R
  fetch_all p [] = []
  fetch_all p (r ∷ rs) = let rest = fetch_all p rs in if p r then r ∷ rest else rest

  -- `DELETE FROM ... WHERE p`
  unfoldable pub delete_where : (R → Bool) → List R → List R
  delete_where p [] = []
  delete_where p (r ∷ rs) = let rest = delete_where p rs in if p r then rest else r ∷ rest

  -- `UPDATE ... SET f WHERE p`
  unfoldable pub update_where : (R → Bool) → (R → R) → List R → List R
  update_where p f [] = []
  update_where p f (r ∷ rs) = (if p r then f r else r) ∷ update_where p f rs

  -- `INSERT INTO`
  abbrev pub insert_row : R → List R → List R
  insert_row r rs = rs ++ r ∷ []

-- `INSERT ... ON CONFLICT(key) DO UPDATE SET` of every other column
unfoldable pub upsert_row : {R : Type 0} → (R → String) → (String → R → R) → R → List R → List R
upsert_row key set_key row rs =
    if exists_where (λ r. key r == key row) rs
    then update_where (λ r. key r == key row) (λ r. set_key (key r) row) rs
    else insert_row row rs

-- `ORDER BY key DESC`: insertion sort, which keeps the order of insertion among equal keys
module _ {R : Type 0} (key : R → ℤ) where
  insert_desc : R → List R → List R
  insert_desc r [] = r ∷ []
  insert_desc r (x ∷ xs) = if ltb_ℤ (key r) (key x) then x ∷ insert_desc r xs else r ∷ x ∷ xs

  unfoldable pub order_by_desc : List R → List R
  unfolding insert_desc
  order_by_desc [] = []
  order_by_desc (r ∷ rs) = insert_desc r (order_by_desc rs)

  -- `ORDER BY key`
  insert_asc : R → List R → List R
  insert_asc r [] = r ∷ []
  insert_asc r (x ∷ xs) = if ltb_ℤ (key x) (key r) then x ∷ insert_asc r xs else r ∷ x ∷ xs

  unfoldable pub order_by : List R → List R
  unfolding insert_asc
  order_by [] = []
  order_by (r ∷ rs) = insert_asc r (order_by rs)
