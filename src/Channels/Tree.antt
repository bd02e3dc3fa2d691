-- ===== src/Channels/Tree.antt =====
-- The tree that the `parent_id`s make, and what the two loops of channels.rs compute about it.
use voxply_server.Common.{
  ℕ, zero, suc, ◌+◌, ◌≤◌, ◌≡◌, inl, inr, none, some, String, arith, Option-cases, ◌↔◌, true, eq_iff,
  Bool-cases, ◌∙◌, ap, sym, ◌==◌,
}
use voxply_server.Db.{Db}
use voxply_server.Channels.{parent_of, climb, depth_under, is_ancestor, ancestor_within}

-- The channel lies `n` levels below a root: its ancestors are `n`, and the last has no parent.
pub data Depth (db : Db) : String → ℕ → Type 0 where
  root : {id : String} → parent_of db id ≡ none → Depth db id zero
  under : {id p : String} {n : ℕ} → parent_of db id ≡ some p → Depth db p n → Depth db id (suc n)

-- the `n`-th ancestor, the parent being the first
pub data Ancestor (db : Db) : ℕ → String → String → Type 0 where
  parent : {id p : String} → parent_of db id ≡ some p → Ancestor db 1 id p
  above :
      {id p a : String} {n : ℕ}
      → parent_of db id ≡ some p
      → Ancestor db n p a
      → Ancestor db (suc n) id a

module _ (db : Db) where
  climb_sound :
      (left depth d : ℕ) (id : String)
      → climb left depth db id ≡ some d
      → (n : ℕ) × Depth db id n × (d ≡ depth + n) × (n ≤ left)
  unfolding climb
  climb_sound zero depth d id h = elim (Option-cases (parent_of db id)) [
    | inl e ↦ (0, root e, ground arith, omega arith)
    | inr (p, e) ↦ absurd (ground arith)
  ]
  climb_sound (suc left) depth d id h = elim (Option-cases (parent_of db id)) [
    | inl e ↦ (0, root e, ground arith, omega arith)
    | inr (p, e) ↦
        let (n, below, sum, few) = climb_sound left (depth + 1) d p (ground arith) in
        (suc n, under e below, omega arith, omega arith)
  ]

  climb_complete :
      (left depth n : ℕ) (id : String)
      → Depth db id n
      → n ≤ left
      → climb left depth db id ≡ some (depth + n)
  unfolding climb
  climb_complete zero depth zero id (root e) h = ground arith
  climb_complete zero depth (suc n) id (under e b) h = absurd (omega arith)
  climb_complete (suc left) depth zero id (root e) h = ground arith
  climb_complete (suc left) depth (suc n) id (under {p = p} e b) h =
      ground (arith, climb_complete left (depth + 1) n p b)

  -- `node_depth` gives the level below `pid`, if `pid` lies at most 49 levels below its root, and
  -- fails otherwise.
  pub depth_under_iff :
      (pid : String) (d : ℕ)
      → (depth_under db (some pid) ≡ some d) ↔ ((n : ℕ) × Depth db pid n × (d ≡ 1 + n) × (n ≤ 49))
  depth_under_iff pid d = (
    climb_sound 49 1 d pid,
    λ (n, below, e, few). climb_complete 49 1 n pid below few ∙ ap some (sym e),
  )

  within_sound :
      (k : ℕ) (c id : String)
      → ancestor_within k db c id ≡ true
      → (n : ℕ) × (n ≤ k) × Ancestor db n id c
  unfolding ancestor_within
  within_sound zero c id h = absurd (ground arith)
  within_sound (suc k) c id h = elim (Option-cases (parent_of db id)) [
    | inl e ↦ absurd (ground arith)
    | inr (p, e) ↦ elim (Bool-cases (p == c)) [
      | inl t ↦ (1, omega arith, parent (e ∙ ap some ((eq_iff p c).0 t)))
      | inr t ↦
          let (n, few, a) = within_sound k c p (ground arith) in (suc n, omega arith, above e a)
    ]
  ]

  within_complete :
      (k n : ℕ) (c id : String) → n ≤ k → Ancestor db n id c → ancestor_within k db c id ≡ true
  unfolding ancestor_within
  within_complete zero n c id h (parent e) = absurd (omega arith)
  within_complete zero n c id h (above e a) = absurd (omega arith)
  within_complete (suc k) n c id h (parent e) = ground (arith, eq_iff c c)
  within_complete (suc k) (suc n) c id h (above {p = p} e a) =
      ground (arith, within_complete k n c p (omega arith) a)

  -- `is_ancestor` says whether the candidate is among the first 50 ancestors.
  pub is_ancestor_iff :
      (c id : String) → (is_ancestor db c id ≡ true) ↔ ((n : ℕ) × (n ≤ 50) × Ancestor db n id c)
  unfolding is_ancestor
  is_ancestor_iff c id = (within_sound 50 c id, λ (n, few, a). within_complete 50 n c id few a)
