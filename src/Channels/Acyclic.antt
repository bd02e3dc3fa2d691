-- ===== src/Channels/Acyclic.antt =====
-- A move of a channel makes no cycle.
use voxply_server.Common.{
  ℕ, zero, suc, ◌≤◌, ◌≡◌, refl, sym, ◌∙◌, subst, inl, inr, true, false, Option, none, some, String,
  arith, ◌==◌, eq_iff, Bool-cases, if◌then◌else◌, map_option, Option-cases,
}
use voxply_server.Common.Text.{trim}
use voxply_server.Exec.{◌>>◌, if_some, when, ok, ◌>>=◌}
use voxply_server.Exec.Rules.{
  Preserves, PreservesAt, Preserves-at, preserves_rules, gets_then, ok_or_then, modify_then,
  when_then, reads_then, Preserves-if_some,
}
use voxply_server.Sql.{update_where}
use voxply_server.Sql.Keys.{fetch-update}
use voxply_server.Db.{Db, ChannelRow}
use voxply_server.Channels.{
  find_channel, parent_of, parent_id_of, is_ancestor, require_category, node_depth, enforce_depth,
  if_some, when,
}
use voxply_server.Channels.Tree.{Depth, root, under, Ancestor, parent, above, is_ancestor_iff}
use voxply_server.Channels.Update.{
  UpdateChannelRequest, update_channel, check_move, check_parent, write_patch, patch,
  rename_channel, require_for, enforce_moved_depth, needs_update,
}

Ancestor-le-Depth : (db : Db) (k n : ℕ) (i a : String) → Depth db i n → Ancestor db k i a → k ≤ n
Ancestor-le-Depth db k zero i a (root e) (parent e') = absurd (ground arith)
Ancestor-le-Depth db k zero i a (root e) (above e' b) = absurd (ground arith)
Ancestor-le-Depth db k (suc n) i a (under e d) (parent e') = omega arith
Ancestor-le-Depth db (suc k) (suc n) i a (under {p = p} e d) (above {p = q} e' b) =
    let same : p ≡ q = ground arith in
    omega (arith, Ancestor-le-Depth db k n q a (subst (λ t. Depth db t n) same d) b)

-- Every channel hangs below a root.
pub record IsRooted (db : Db) : Type 0 where
  pub depth : (id : String) → (n : ℕ) × Depth db id n

module _ (db db' : Db) (x : String)
    (others : (i : String) → (i == x) ≡ false → parent_of db' i ≡ parent_of db i) where
  Depth-away :
      (i : String) (n : ℕ)
      → (i == x) ≡ false
      → ((k : ℕ) → ¬ Ancestor db k i x)
      → Depth db i n
      → Depth db' i n
  Depth-away i zero ne away (root e) = root (others i ne ∙ e)
  Depth-away i (suc n) ne away (under {p = q} e d) = elim (Bool-cases (q == x)) [
    | inl t ↦ absurd (away 1 (parent (subst (λ t. parent_of db i ≡ some t) ((eq_iff q x).0 t) e)))
    | inr t ↦ under (others i ne ∙ e) (Depth-away q n t (λ k a. away (suc k) (above e a)) d)
  ]

  Depth-moved :
      (m : ℕ) → Depth db' x m → (i : String) (n : ℕ) → Depth db i n → (k : ℕ) × Depth db' i k
  Depth-moved m dx i zero (root e) = elim (Bool-cases (i == x)) [
    | inl t ↦ (m, subst (λ t. Depth db' t m) (sym ((eq_iff i x).0 t)) dx)
    | inr t ↦ (0, root (others i t ∙ e))
  ]
  Depth-moved m dx i (suc n) (under {p = q} e d) =
      let (k, dq) = Depth-moved m dx q n d in
      elim (Bool-cases (i == x)) [
        | inl t ↦ (m, subst (λ t. Depth db' t m) (sym ((eq_iff i x).0 t)) dx)
        | inr t ↦ (suc k, under (others i t ∙ e) dq)
      ]

-- a change of one row that keeps ids, and what it does to the parents
parent-update :
    (f : ChannelRow → ChannelRow)
    → ((c : ChannelRow) → (f c).id ≡ c.id)
    → (x : String) (db : Db) (i : String)
    → parent_of (record db { channels = update_where (λ c. c.id == x) f db.channels }) i
      ≡ (if i == x then parent_id_of (map_option f (find_channel x db)) else parent_of db i)
unfolding parent_of find_channel
parent-update f same x db i =
    ground (arith, fetch-update (λ (c : ChannelRow). c.id) f same x i db.channels, eq_iff i x)

-- what `check_move` has found where it succeeds
check_move-ok :
    (x p : String) (db : Db) (a : Unit {0})
    → (check_move x p db).0 ≡ ok a
    → ((p == x) ≡ false) × (is_ancestor db x p ≡ false)
unfolding check_move require_category ◌>>=◌
check_move-ok x p db a h = ground arith

check_parent-reads :
    (x : String) (s : Db) (target : Option String) → Preserves (λ t. t ≡ s) (check_parent x target)
unfolding check_parent check_move require_category enforce_moved_depth node_depth enforce_depth
check_parent-reads x s target = search preserves_rules depth 14

-- No channel lies more than 50 levels below its root.
pub record IsShallow (db : Db) : Type 0 where
  pub at_most : (id : String) (n : ℕ) → Depth db id n → n ≤ 50

-- what the checks of `update_channel` have found about the new parent
abbrev Checked : Db → String → Option (Option String) → Type 0
Checked db x (some (some p)) = ((p == x) ≡ false) × (is_ancestor db x p ≡ false)
Checked db x other = Unit {0}

module _ (db : Db) (x : String) (rooted : IsRooted db) where
  same-IsRooted : (db' : Db) → ((i : String) → parent_of db' i ≡ parent_of db i) → IsRooted db'
  same-IsRooted db' same = record {
    depth = λ i.
        let (n, d) = rooted.depth i in
        let (m, dx) = rooted.depth x in Depth-moved db db' x (λ j _. same j) m (keep x m dx) i n d;
  }
    where
      keep : (i : String) (n : ℕ) → Depth db i n → Depth db' i n
      keep i zero (root e) = root (same i ∙ e)
      keep i (suc n) (under {p = q} e d) = under (same i ∙ e) (keep q n d)

  top-IsRooted :
      (db' : Db)
      → ((i : String) → (i == x) ≡ false → parent_of db' i ≡ parent_of db i)
      → parent_of db' x ≡ none
      → IsRooted db'
  top-IsRooted db' others top = record {
    depth = λ i. let (n, d) = rooted.depth i in Depth-moved db db' x others 0 (root top) i n d;
  }

  under-IsRooted :
      (db' : Db) (p : String)
      → ((i : String) → (i == x) ≡ false → parent_of db' i ≡ parent_of db i)
      → parent_of db' x ≡ some p
      → IsShallow db
      → (p == x) ≡ false
      → is_ancestor db x p ≡ false
      → IsRooted db'
  under-IsRooted db' p others moved shallow ne apart = record {
    depth = λ i.
        let (n, d) = rooted.depth i in
        let (m, dp) = rooted.depth p in
        Depth-moved db db' x others (suc m)
          (under moved (Depth-away db db' x others p m ne (away m dp) dp)) i n d;
  }
    where
      away : (m : ℕ) → Depth db p m → (k : ℕ) → ¬ Ancestor db k p x
      away m dp k a =
          let near : k ≤ 50 =
            omega (arith, Ancestor-le-Depth db k m p x dp a, shallow.at_most p m dp) in
          let hit : is_ancestor db x p ≡ true = (is_ancestor_iff db x p).1 (k, near, a) in
          absurd (ground arith)

  patch-IsRooted :
      (req : UpdateChannelRequest) (target : Option (Option String))
      → req.parent_id ≡ target
      → IsShallow db
      → Checked db x target
      → IsRooted (record db { channels = update_where (λ c. c.id == x) (patch req) db.channels })
  unfolding patch parent_of
  patch-IsRooted req none e shallow found =
      same-IsRooted _ λ i. ground (arith, parent-update (patch req) (λ c. refl) x db i, eq_iff i x)
  patch-IsRooted req (some none) e shallow found =
      top-IsRooted _ (λ i ne. ground (arith, parent-update (patch req) (λ c. refl) x db i))
        (ground (arith, parent-update (patch req) (λ c. refl) x db x, eq_iff x x))
  patch-IsRooted req (some (some p)) e shallow found = elim (Option-cases (find_channel x db)) [
    | inl absent ↦
        top-IsRooted _ (λ i ne. ground (arith, parent-update (patch req) (λ c. refl) x db i))
          (ground (arith, parent-update (patch req) (λ c. refl) x db x, eq_iff x x))
    | inr (c, there) ↦
        under-IsRooted _ p (λ i ne. ground (arith, parent-update (patch req) (λ c. refl) x db i))
          (ground (arith, parent-update (patch req) (λ c. refl) x db x, eq_iff x x)) shallow found.0
          found.1
  ]

rename-IsRooted : (x name : String) → Preserves IsRooted (rename_channel x name)
unfolding rename_channel parent_of
rename-IsRooted x name =
    let renamed : (s : Db)
        → IsRooted s
        → IsRooted (record s {
          channels = update_where (λ c. c.id == x) (λ c. record c { name = trim name }) s.channels;
        }) =
      λ s h. same-IsRooted s x h _ (λ i. ground (
        arith,
        parent-update (λ c. record c { name = trim name }) (λ c. refl) x s i,
        eq_iff i x,
      )) in
    search (preserves_rules, renamed) depth 12

-- a state that the checks have passed
checked :
    (x : String) (db : Db) (req : UpdateChannelRequest) (t : Option (Option String)) (a : Unit {0})
    → (if_some t (check_parent x) db).0 ≡ ok a
    → Checked db x t
unfolding check_parent ◌>>=◌
checked x db req none a h = tt
checked x db req (some none) a h = tt
checked x db req (some (some p)) a h = check_move-ok x p db a h

module _ (user x : String) (req : UpdateChannelRequest) where
  update_tail :
      (s : Db)
      → IsShallow s
      → Checked s x req.parent_id
      → PreservesAt IsRooted
          (when (needs_update req) (write_patch x req) >> if_some req.name (rename_channel x))
          s
  unfolding write_patch
  update_tail s shallow found =
      when_then _ _ _ s
        (λ _.
          modify_then _ _ s (λ h. patch-IsRooted s x h req req.parent_id refl shallow found)
            (Preserves-at (search (preserves_rules, rename-IsRooted))))
        (λ _. Preserves-at (search (preserves_rules, rename-IsRooted)))

  -- In a tree that is at most 50 levels deep, an update of a channel, refused or not, leaves a tree:
  -- every channel still hangs below a root, so no move has made a cycle.
  pub update_channel-IsRooted :
      (db : Db) → IsShallow db → IsRooted db → IsRooted (update_channel user x req db).1
  unfolding update_channel require_for
  update_channel-IsRooted db shallow rooted =
      (gets_then _ _ db (
          gets_then _ _ db (
            ok_or_then _ _ _ _ db λ c there.
              reads_then _ _ db (search preserves_rules depth 12) λ _ _.
                reads_then _ _ db (Preserves-if_some _ _ (λ t _. check_parent-reads x db t))
                  λ a passed. update_tail db shallow (checked x db req req.parent_id a passed)))).at
        rooted
