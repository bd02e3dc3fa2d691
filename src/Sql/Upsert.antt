-- ===== src/Sql/Upsert.antt =====
-- Look-ups by key, in tables with and without a row, and after `INSERT ... ON CONFLICT DO UPDATE`.
use voxply_server.Common.{subst, Option-cases}
use voxply_server.Common.{
  ◌≡◌, refl, ◌∙◌, ap, inl, inr, Bool, true, false, none, some, List, [], ◌∷◌, String, arith, ◌==◌,
  eq_iff, eq_refl, Bool-cases, if◌then◌else◌, map_option,
}
use voxply_server.Sql.{exists_where, fetch_optional, upsert_row}
use voxply_server.Sql.Laws.{fetch_optional-test}
use voxply_server.Sql.Keys.{fetch-update, fetch-insert}

pub fetch_of_none :
    {R : Type 0} (q : R → Bool) (rs : List R)
    → exists_where q rs ≡ false
    → fetch_optional q rs ≡ none
unfolding exists_where fetch_optional
fetch_of_none q [] h = refl
fetch_of_none q (r ∷ rs) h = ground (arith, fetch_of_none q rs)

pub fetch_of_exists :
    {R : Type 0} (q : R → Bool) (rs : List R)
    → exists_where q rs ≡ true
    → (r : R) × (fetch_optional q rs ≡ some r)
unfolding exists_where fetch_optional
fetch_of_exists q [] h = absurd (ground arith)
fetch_of_exists q (r ∷ rs) h = elim (Bool-cases (q r)) [
  | inl e ↦ (r, ground arith)
  | inr e ↦ let (x, found) = fetch_of_exists q rs (ground arith) in (x, ground arith)
]

module _ {R : Type 0} (key : R → String) (set_key : String → R → R)
    (keyed : (k : String) (r : R) → key (set_key k r) ≡ k)
    (own : (r : R) → set_key (key r) r ≡ r) where
  -- the row that the update leaves under the key
  replaced :
      (row : R) (rs : List R)
      → exists_where (λ r. key r == key row) rs ≡ true
      → map_option (λ r. set_key (key r) row) (fetch_optional (λ r. key r == key row) rs) ≡ some row
  replaced row rs h =
      let (r, found) = fetch_of_exists (λ r. key r == key row) rs h in
      let at : key r ≡ key row =
        (eq_iff (key r) (key row)).0 (fetch_optional-test (λ r. key r == key row) rs found) in
      ap (map_option (λ r. set_key (key r) row)) found
      ∙ ap (λ k. some (set_key k row)) at
      ∙ ap some (own row)

  fetch_own :
      (row : R) (rs : List R)
      → fetch_optional (λ r. key r == key row) (upsert_row key set_key row rs) ≡ some row
  unfolding upsert_row
  fetch_own row rs = elim (Bool-cases (exists_where (λ r. key r == key row) rs)) [
    | inl e ↦ rw e (
        ground (
          arith,
          fetch-update key (λ r. set_key (key r) row) (λ r. keyed (key r) row) (key row) (key row)
              rs,
          replaced row rs,
          eq_refl (key row),
        ))
    | inr e ↦ rw e (
        ground (
          arith,
          fetch-insert key (key row) row rs,
          fetch_of_none (λ r. key r == key row) rs,
          eq_refl (key row),
        ))
  ]

  fetch_other :
      (row : R) (k : String) (rs : List R)
      → (key row == k) ≡ false
      → fetch_optional (λ r. key r == k) (upsert_row key set_key row rs)
        ≡ fetch_optional (λ r. key r == k) rs
  unfolding upsert_row
  fetch_other row k rs t = elim (Bool-cases (exists_where (λ r. key r == key row) rs)) [
    | inl e ↦ rw e (
        ground (
          arith,
          fetch-update key (λ r. set_key (key r) row) (λ r. keyed (key r) row) (key row) k rs,
          eq_iff (key row) k,
          eq_iff k (key row),
        ))
    | inr e ↦ rw e (
        ground
          (arith, fetch-insert key k row rs, Option-cases (fetch_optional (λ r. key r == k) rs)))
  ]

  -- after an upsert, its row is found under its key, and every other key has the row it had
  pub fetch-upsert :
      (row : R) (k : String) (rs : List R)
      → fetch_optional (λ r. key r == k) (upsert_row key set_key row rs)
        ≡ (if key row == k then some row else fetch_optional (λ r. key r == k) rs)
  fetch-upsert row k rs = elim (Bool-cases (key row == k)) [
    | inl t ↦ rw t (
        subst (λ x. fetch_optional (λ r. key r == x) (upsert_row key set_key row rs) ≡ some row)
          ((eq_iff (key row) k).0 t) (fetch_own row rs))
    | inr t ↦ rw t (fetch_other row k rs t)
  ]
