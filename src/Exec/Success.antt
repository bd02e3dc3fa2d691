-- ===== src/Exec/Success.antt =====
-- Sequences that succeed: what they leave behind, by the parts that have succeeded on the way.
use voxply_server.Common.{◌≡◌, ◌∙◌, sym, ap, subst, Bool, false, arith, Bool-cases, inl, inr}
use voxply_server.Exec.{Exec, ok, constrained, ◌>>=◌}
use voxply_server.Exec.Rules.{Preserves, bind_ok}

module _ {S A B : Type 0} (P : S → Type 0) where
  -- the first part has succeeded, and the rest goes on from there
  pub ok_then :
      (m : Exec S A) (f : A → Exec S B) (s : S) (b : B)
      → ((m >>= f) s).0 ≡ ok b
      → ((a : A) → (m s).0 ≡ ok a → (f a (m s).1).0 ≡ ok b → P (f a (m s).1).1)
      → P ((m >>= f) s).1
  ok_then m f s b h k =
      let (a, e, next) = bind_ok m f s b h in
      subst (λ r. P r.1) (sym next) (k a e (ap (λ r. r.0) (sym next) ∙ h))

  -- what the first part has brought about, the rest keeps
  pub ok_kept :
      (m : Exec S A) (f : A → Exec S B) (s : S) (b : B)
      → ((m >>= f) s).0 ≡ ok b
      → ((a : A) → (m s).0 ≡ ok a → P (m s).1)
      → ((a : A) → Preserves P (f a))
      → P ((m >>= f) s).1
  ok_kept m f s b h k keeps = ok_then m f s b h (λ a e _. (keeps a).at _ (k a e))

-- a statement that the database did not refuse
pub constrained-ok :
    {S : Type 0} (broken : S → Bool) (f : S → S) (s : S) (a : Unit {0})
    → (constrained broken f s).0 ≡ ok a
    → (broken s ≡ false) × ((constrained broken f s).1 ≡ f s)
unfolding ◌>>=◌
constrained-ok broken f s a h = elim (Bool-cases (broken s)) [
  | inl e ↦ absurd (ground arith)
  | inr e ↦ (e, ground arith)
]
