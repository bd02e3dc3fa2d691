-- ===== src/Sql/Keys.antt =====
-- A `PRIMARY KEY` or `UNIQUE` column: no two rows of the table have one value in it.
use voxply_server.Common.{
  not, ◌&&◌, ◌≡◌, refl, subst, ap, inl, inr, Bool, true, false, some, List, [], ◌∷◌, String, arith,
  ◌==◌, eq_iff, All, Bool-cases, or_else, if◌then◌else◌, map_option, none,
}
use voxply_server.Sql.{exists_where, fetch_optional, delete_where, update_where, insert_row}
use voxply_server.Sql.Laws.{exists-insert, exists-update}

module _ {R : Type 0} (key : R → String) where
  abbrev pub Distinct : List R → Type 0
  Distinct [] = Unit {0}
  Distinct (r ∷ rs) = (exists_where (λ s. key s == key r) rs ≡ false) × Distinct rs

  pub insert-Distinct :
      (r : R) (rs : List R)
      → exists_where (λ s. key s == key r) rs ≡ false
      → Distinct rs
      → Distinct (insert_row r rs)
  unfolding exists_where
  insert-Distinct r [] h d = (refl, tt)
  insert-Distinct r (x ∷ rs) h d = (
    ground (
      arith,
      exists-insert (λ s. key s == key x) r rs,
      eq_iff (key x) (key r),
      eq_iff (key r) (key x),
    ),
    insert-Distinct r rs (ground arith) d.1,
  )

  exists_of_delete :
      (p q : R → Bool) (rs : List R)
      → exists_where p rs ≡ false
      → exists_where p (delete_where q rs) ≡ false
  unfolding exists_where delete_where
  exists_of_delete p q [] h = refl
  exists_of_delete p q (r ∷ rs) h = ground (arith, exists_of_delete p q rs)

  pub delete-Distinct : (q : R → Bool) (rs : List R) → Distinct rs → Distinct (delete_where q rs)
  unfolding delete_where
  delete-Distinct q [] d = tt
  delete-Distinct q (r ∷ rs) d =
      ground (arith, exists_of_delete (λ s. key s == key r) q rs, delete-Distinct q rs d.1)

  pub update-Distinct :
      (q : R → Bool) (f : R → R) (rs : List R)
      → ((r : R) → key (f r) ≡ key r)
      → Distinct rs
      → Distinct (update_where q f rs)
  unfolding update_where
  update-Distinct q f [] same d = tt
  update-Distinct q f (r ∷ rs) same d = (
    ground (
      arith,
      same r,
      exists-update (λ s. key s == key r) q f (λ s. ap (λ k. k == key r) (same s)) rs,
    ),
    update-Distinct q f rs same d.1,
  )

  -- no row with the key
  pub none_with_key :
      (id : String) (rs : List R) (P : R → Type 0)
      → exists_where (λ s. key s == id) rs ≡ false
      → All (λ s. (key s == id) ≡ true → P s) rs
  unfolding exists_where
  none_with_key id [] P h = tt
  none_with_key id (x ∷ rs) P h = (λ t. absurd (ground arith), none_with_key id rs P (ground arith))

  -- the row that a look-up by key finds is the only one with its key
  pub fetch_only :
      (id : String) (rs : List R) (P : R → Type 0) {r : R}
      → Distinct rs
      → fetch_optional (λ s. key s == id) rs ≡ some r
      → P r
      → All (λ s. (key s == id) ≡ true → P s) rs
  unfolding fetch_optional
  fetch_only id [] P d e p = tt
  fetch_only id (x ∷ rs) P {r = r} d e p = elim (Bool-cases (key x == id)) [
    | inl t ↦ (
      λ _. let same : r ≡ x = ground arith in subst P same p,
      none_with_key id rs P
          (subst (λ k. exists_where (λ s. key s == k) rs ≡ false) ((eq_iff (key x) id).0 t) d.0),
    )
    | inr t ↦ (λ h. absurd (ground arith), fetch_only id rs P d.1 (ground arith) p)
  ]

  -- after the rows of one key are gone, the others are still found
  pub exists-delete_key :
      (q : R → Bool) (t k : String) (rs : List R)
      → exists_where (λ r. key r == k && q r) (delete_where (λ r. key r == t) rs)
        ≡ (not (t == k) && exists_where (λ r. key r == k && q r) rs)
  unfolding exists_where delete_where
  exists-delete_key q t k [] = ground arith
  exists-delete_key q t k (r ∷ rs) =
      ground (arith, exists-delete_key q t k rs, eq_iff (key r) k, eq_iff (key r) t, eq_iff t k)

  pub present-delete_key :
      (t k : String) (rs : List R)
      → exists_where (λ r. key r == k) (delete_where (λ r. key r == t) rs)
        ≡ (not (t == k) && exists_where (λ r. key r == k) rs)
  unfolding exists_where delete_where
  present-delete_key t k [] = ground arith
  present-delete_key t k (r ∷ rs) =
      ground (arith, present-delete_key t k rs, eq_iff (key r) k, eq_iff (key r) t, eq_iff t k)

  -- an update of the rows with one key, which it keeps, seen by a look-up
  pub fetch-update :
      (f : R → R)
      → ((r : R) → key (f r) ≡ key r)
      → (x k : String) (rs : List R)
      → fetch_optional (λ r. key r == k) (update_where (λ r. key r == x) f rs) ≡ (
          if k == x
          then map_option f (fetch_optional (λ r. key r == k) rs)
          else fetch_optional (λ r. key r == k) rs)
  unfolding fetch_optional update_where
  fetch-update f same x k [] = ground arith
  fetch-update f same x k (r ∷ rs) =
      ground
        (arith, same r, fetch-update f same x k rs, eq_iff (key r) k, eq_iff (key r) x, eq_iff k x)

  pub fetch-insert :
      (k : String) (r : R) (rs : List R)
      → fetch_optional (λ s. key s == k) (insert_row r rs)
        ≡ or_else (fetch_optional (λ s. key s == k) rs) (if key r == k then some r else none)
  unfolding fetch_optional
  fetch-insert k r [] = ground arith
  fetch-insert k r (x ∷ rs) = ground (arith, fetch-insert k r rs)

  pub fetch-delete_key :
      (t k : String) (rs : List R)
      → fetch_optional (λ r. key r == k) (delete_where (λ r. key r == t) rs)
        ≡ (if t == k then none else fetch_optional (λ r. key r == k) rs)
  unfolding fetch_optional delete_where
  fetch-delete_key t k [] = ground arith
  fetch-delete_key t k (r ∷ rs) =
      ground (arith, fetch-delete_key t k rs, eq_iff (key r) k, eq_iff (key r) t, eq_iff t k)
