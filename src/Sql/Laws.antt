-- ===== src/Sql/Laws.antt =====
-- Laws of the statements of Sql.antt, which the proofs about the tables use.
use mathlib.Core.Path.{fun_ext}
use voxply_server.Common.{
  ◌+◌, if◌then◌else◌, ◌≤◌, ◌≡◌, refl, ap, subst, Bool, true, false, not, ◌&&◌, ◌||◌, some, List, [],
  ◌∷◌, inl, inr, arith, All, Bool-cases,
}
use voxply_server.Sql.{
  count_where, exists_where, fetch_optional, fetch_all, delete_where, update_where, insert_row,
}

module _ {R : Type 0} where
  pub exists-delete :
      (p q : R → Bool) (rs : List R)
      → exists_where p (delete_where q rs) ≡ exists_where (λ r. p r && not (q r)) rs
  unfolding exists_where delete_where
  exists-delete p q [] = refl
  exists-delete p q (r ∷ rs) = ground (arith, exists-delete p q rs)

  pub exists-insert :
      (p : R → Bool) (r : R) (rs : List R)
      → exists_where p (insert_row r rs) ≡ (exists_where p rs || p r)
  unfolding exists_where
  exists-insert p r [] = ground arith
  exists-insert p r (x ∷ rs) = ground (arith, exists-insert p r rs)

  pub exists_congr :
      (p q : R → Bool)
      → ((r : R) → p r ≡ q r)
      → (rs : List R) → exists_where p rs ≡ exists_where q rs
  exists_congr p q h rs = ap (λ t. exists_where t rs) (fun_ext h)

  pub exists_mono :
      (p q : R → Bool)
      → ((r : R) → p r ≡ true → q r ≡ true)
      → (rs : List R) → exists_where p rs ≡ true
      → exists_where q rs ≡ true
  unfolding exists_where
  exists_mono p q h [] e = e
  exists_mono p q h (r ∷ rs) e = ground (arith, h r, exists_mono p q h rs)

  pub exists_where_of_delete :
      (p q : R → Bool) (rs : List R)
      → exists_where p (delete_where q rs) ≡ true
      → exists_where p rs ≡ true
  unfolding exists_where delete_where
  exists_where_of_delete p q [] e = e
  exists_where_of_delete p q (r ∷ rs) e = ground (arith, exists_where_of_delete p q rs)

  pub exists_mono_false :
      (p q : R → Bool)
      → ((r : R) → q r ≡ false → p r ≡ false)
      → (rs : List R) → exists_where q rs ≡ false
      → exists_where p rs ≡ false
  unfolding exists_where
  exists_mono_false p q h [] e = refl
  exists_mono_false p q h (r ∷ rs) e = ground (arith, h r, exists_mono_false p q h rs)

  -- an update that does not change the test changes no answer
  pub exists-update :
      (p q : R → Bool) (f : R → R)
      → ((r : R) → p (f r) ≡ p r)
      → (rs : List R) → exists_where p (update_where q f rs) ≡ exists_where p rs
  unfolding exists_where update_where
  exists-update p q f h [] = refl
  exists-update p q f h (r ∷ rs) = ground (arith, h r, exists-update p q f h rs)

module _ {R : Type 0} (P : R → Type 0) where
  pub All-insert : (rs : List R) {r : R} → All P rs → P r → All P (insert_row r rs)
  All-insert [] h p = (p, tt)
  All-insert (x ∷ rs) h p = (h.0, All-insert rs h.1 p)

  pub All-delete : (q : R → Bool) (rs : List R) → All P rs → All P (delete_where q rs)
  unfolding delete_where
  All-delete q [] h = tt
  All-delete q (r ∷ rs) h = ground (arith, All-delete q rs h.1)

  -- what is kept has also failed the test
  pub All-delete_kept :
      (q : R → Bool) (rs : List R) → All (λ r. q r ≡ false → P r) rs → All P (delete_where q rs)
  unfolding delete_where
  All-delete_kept q [] h = tt
  All-delete_kept q (r ∷ rs) h = ground (arith, All-delete_kept q rs h.1)

  pub All-update :
      (q : R → Bool) (f : R → R) (rs : List R)
      → ((r : R) → P r → q r ≡ true → P (f r))
      → All P rs
      → All P (update_where q f rs)
  unfolding update_where
  All-update q f [] keep h = tt
  All-update q f (r ∷ rs) keep h = ground (arith, keep r h.0, All-update q f rs keep h.1)

  pub All-update_by :
      (q : R → Bool) (f : R → R) (rs : List R)
      → All P rs
      → All (λ r. q r ≡ true → P (f r)) rs
      → All P (update_where q f rs)
  unfolding update_where
  All-update_by q f [] h k = tt
  All-update_by q f (r ∷ rs) h k = ground (arith, All-update_by q f rs h.1 k.1)

  pub All-update_cases :
      (q : R → Bool) (f : R → R) (rs : List R)
      → All (λ r. (q r ≡ false → P r) × (q r ≡ true → P (f r))) rs
      → All P (update_where q f rs)
  unfolding update_where
  All-update_cases q f [] k = tt
  All-update_cases q f (r ∷ rs) k = ground (arith, All-update_cases q f rs k.1)

  pub All-fetch :
      (q : R → Bool) (rs : List R) → All (λ r. q r ≡ true → P r) rs → All P (fetch_all q rs)
  unfolding fetch_all
  All-fetch q [] h = tt
  All-fetch q (r ∷ rs) h = ground (arith, All-fetch q rs h.1)

  pub All-of_fetch :
      (q : R → Bool) (rs : List R) → All P (fetch_all q rs) → All (λ r. q r ≡ true → P r) rs
  unfolding fetch_all
  All-of_fetch q [] h = tt
  All-of_fetch q (r ∷ rs) h = elim (Bool-cases (q r)) [
    | inl e ↦
        let h' : All P (r ∷ fetch_all q rs) = rw (e, fetch_all) at h in
        (λ _. h'.0, All-of_fetch q rs h'.1)
    | inr e ↦
        let h' : All P (fetch_all q rs) = rw (e, fetch_all) at h in
        (λ t. absurd (ground arith), All-of_fetch q rs h')
  ]

  pub fetch_optional_All :
      (q : R → Bool) (rs : List R) {r : R} → All P rs → fetch_optional q rs ≡ some r → P r
  unfolding fetch_optional
  fetch_optional_All q [] h e = absurd (ground arith)
  fetch_optional_All q (x ∷ rs) h e = elim (Bool-cases (q x)) [
    | inl t ↦ subst P (ground arith) h.0
    | inr t ↦ fetch_optional_All q rs h.1 (ground arith)
  ]

module _ {R : Type 0} where
  pub fetch_optional-test :
      (q : R → Bool) (rs : List R) {r : R} → fetch_optional q rs ≡ some r → q r ≡ true
  unfolding fetch_optional
  fetch_optional-test q [] e = absurd (ground arith)
  fetch_optional-test q (x ∷ rs) e = elim (Bool-cases (q x)) [
    | inl t ↦ ground arith
    | inr t ↦ fetch_optional-test q rs (ground arith)
  ]

  pub fetch_optional-exists :
      (q : R → Bool) (rs : List R) (r : R) → fetch_optional q rs ≡ some r → exists_where q rs ≡ true
  unfolding fetch_optional exists_where
  fetch_optional-exists q [] r e = absurd (ground arith)
  fetch_optional-exists q (x ∷ rs) r e = elim (Bool-cases (q x)) [
    | inl t ↦ rw t
    | inr t ↦ rw t (fetch_optional-exists q rs r (ground arith))
  ]

  pub count-delete-le :
      (p q : R → Bool) (rs : List R) → count_where p (delete_where q rs) ≤ count_where p rs
  unfolding count_where delete_where
  count-delete-le p q [] = omega arith
  count-delete-le p q (r ∷ rs) = ground (arith, count-delete-le p q rs)

  -- deleting rows that the test does not select leaves the count
  pub count-delete_other :
      (p q : R → Bool)
      → ((r : R) → q r ≡ true → p r ≡ false)
      → (rs : List R) → count_where p (delete_where q rs) ≡ count_where p rs
  unfolding count_where delete_where
  count-delete_other p q h [] = refl
  count-delete_other p q h (r ∷ rs) = ground (arith, h r, count-delete_other p q h rs)

  pub count-insert-le :
      (p : R → Bool) (r : R) (rs : List R) → count_where p rs ≤ count_where p (insert_row r rs)
  unfolding count_where
  count-insert-le p r [] = ground arith
  count-insert-le p r (x ∷ rs) = ground (arith, count-insert-le p r rs)

  pub exists_of_count :
      (p : R → Bool) (rs : List R) → 1 ≤ count_where p rs → exists_where p rs ≡ true
  unfolding count_where exists_where
  exists_of_count p [] h = absurd (omega arith)
  exists_of_count p (r ∷ rs) h = ground (arith, exists_of_count p rs)

  -- the rows that are deleted, among those that the test selects
  pub count-delete_sub :
      (p q : R → Bool)
      → ((r : R) → q r ≡ true → p r ≡ true)
      → (rs : List R) → count_where p (delete_where q rs) + count_where q rs ≡ count_where p rs
  unfolding count_where delete_where
  count-delete_sub p q h [] = omega arith
  count-delete_sub p q h (r ∷ rs) = ground (arith, h r, count-delete_sub p q h rs)

  pub count-insert :
      (p : R → Bool) (r : R) (rs : List R)
      → count_where p (insert_row r rs) ≡ count_where p rs + (if p r then 1 else 0)
  unfolding count_where
  count-insert p r [] = ground arith
  count-insert p r (x ∷ rs) = ground (arith, count-insert p r rs)

  pub count_of_none :
      (p : R → Bool) (rs : List R) → exists_where p rs ≡ false → count_where p rs ≡ 0
  unfolding count_where exists_where
  count_of_none p [] h = refl
  count_of_none p (r ∷ rs) h = ground (arith, count_of_none p rs)

  pub count_of_exists :
      (p : R → Bool) (rs : List R) → exists_where p rs ≡ true → 1 ≤ count_where p rs
  unfolding count_where exists_where
  count_of_exists p [] h = absurd (ground arith)
  count_of_exists p (r ∷ rs) h = ground (arith, count_of_exists p rs)
