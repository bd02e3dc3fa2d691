-- ===== src/Identity/Versions.antt =====
-- What follows from the register: an older list does not come back, and what was put is what is got.
use voxply_server.Common.{ap₂, refl}
use voxply_server.Common.{
  ◌≡◌, refl, ◌∙◌, sym, ap, subst, ℕ, ◌^◌, ◌<◌, Bool, true, ◌&&◌, some, List, [], ◌∷◌, String, ◌==◌,
  eq_iff, arith, inl, inr, Bool-cases, ◌⊎◌,
}
use voxply_server.Common.Int.{ℤ, ◌<ℤ◌, pos, negsuc, as_u64, as_u64-as_i64}
use voxply_server.Exec.{ok, succeeded, ◌>>=◌}
use voxply_server.Crypto.{Crypto}
use voxply_server.Db.{Db, DesignationRow}
use voxply_server.Identity.Messages.{HomeHubList}
use voxply_server.Identity.Register.{
  Register, is_taken, put_latest, designations, valid_designation, put_designation-refines,
}
use voxply_server.Identity.{
  find_designation, put_designation, designation_row, get_designation, home_hubs_of,
}

-- a number that counts as larger than one that is not negative is larger
served : (n : ℕ) (b : ℤ) → pos n <ℤ b → n < as_u64 b
served n (pos m) l = omega (arith, l)
served n (negsuc m) l = absurd (omega (arith, l))

-- a put of home hubs: when, under which path, and what
abbrev pub HubsPut : Type 0
HubsPut = ℕ × String × HomeHubList

unfoldable pub put_designations : Crypto → List HubsPut → Db → Db
put_designations crypto [] db = db
put_designations crypto ((now, master, body) ∷ puts) db =
    put_designations crypto puts (put_designation crypto now master body db).1

module _ {V : Type 0} (key : V → String) (version : V → ℤ) where
  -- the same, or of a later version
  abbrev pub Grown : V → V → Type 0
  Grown old new = (new ≡ old) ⊎ (version old <ℤ version new)

  Grown-trans : (a b c : V) → Grown a b → Grown b c → Grown a c
  Grown-trans a b c (inl e) h = subst (λ x. Grown x c) e h
  Grown-trans a b c (inr l) (inl e) = inr (subst (λ x. version a <ℤ version x) (sym e) l)
  Grown-trans a b c (inr l) (inr l') = inr (omega (arith, l, l'))

  put_latest-Grown :
      (valid : Bool) (v : V) (reg : Register V) (k : String) (old : V)
      → reg k ≡ some old
      → (new : V) × (put_latest key version valid v reg k ≡ some new) × Grown old new
  unfolding put_latest
  put_latest-Grown valid v reg k old held =
      elim (Bool-cases (is_taken key version valid v reg && key v == k)) [
        | inl t ↦
            let same : key v ≡ k = (eq_iff (key v) k).0 (ground arith) in
            let there : reg (key v) ≡ some old = ap reg same ∙ held in
            (v, ground arith, inr (ground arith))
        | inr t ↦ (old, ground arith, inl refl)
      ]

-- the numbers are compared as `i64`
puts_grow :
    (crypto : Crypto) (puts : List HubsPut) (db : Db) (k : String) (old : DesignationRow)
    → find_designation k db ≡ some old
    → (new : DesignationRow) × (find_designation k (put_designations crypto puts db) ≡ some new)
      × Grown (λ r. r.master_pubkey) (λ r. r.sequence) old new
unfolding put_designations
puts_grow crypto [] db k old held = (old, held, inl refl)
puts_grow crypto ((now, master, body) ∷ puts) db k old held =
    let (new, put, grown) =
      put_latest-Grown (λ r. r.master_pubkey) (λ r. r.sequence)
        (valid_designation crypto master body) (designation_row now body) (designations db) k old
        held in
    let (last, found, later) =
      puts_grow crypto puts (put_designation crypto now master body db).1 k new
        ((put_designation-refines crypto now body db master).1 k ∙ put) in
    (last, found, Grown-trans (λ r. r.master_pubkey) (λ r. r.sequence) old new last grown later)

-- Whatever is put, valid or not, under any path and with any number, a master key that holds a list with
-- a sequence number below 2^63, which is one that its `i64` column has as it is, keeps that list or has
-- one that is served with a larger number: no older list takes its place.
pub put_designations-home_hubs_of :
    (crypto : Crypto) (puts : List HubsPut) (db : Db) (k : String) (old : DesignationRow) (n : ℕ)
    → find_designation k db ≡ some old
    → old.sequence ≡ pos n
    → (new : DesignationRow) × (find_designation k (put_designations crypto puts db) ≡ some new)
      × ((new ≡ old) ⊎ (n < (home_hubs_of new).sequence))
put_designations-home_hubs_of crypto puts db k old n held number =
    let (new, found, grown) = puts_grow crypto puts db k old held in
    (
      new,
      found,
      elim grown [
        | inl e ↦ inl e
        | inr l ↦ inr (served n new.sequence (subst (λ x. x <ℤ new.sequence) number l))
      ],
    )

-- what a put that is taken leaves under its key
taken_own :
    (crypto : Crypto) (now : ℕ) (master : String) (body : HomeHubList) (db : Db)
    → is_taken
        (λ r. r.master_pubkey)
        (λ r. r.sequence)
        (valid_designation crypto master body)
        (designation_row now body)
        (designations db)
      ≡ true
    → put_latest
        (λ r. r.master_pubkey)
        (λ r. r.sequence)
        (valid_designation crypto master body)
        (designation_row now body)
        (designations db)
        master
      ≡ some (designation_row now body)
unfolding put_latest designation_row
taken_own crypto now master body db t = ground arith

read_back :
    (now : ℕ) (body : HomeHubList)
    → body.issued_at < 2 ^ 64
    → body.sequence < 2 ^ 64
    → home_hubs_of (designation_row now body) ≡ body
unfolding designation_row
read_back now body small small' =
    ap₂ (λ i s. record body { issued_at = i; sequence = s }) (as_u64-as_i64 body.issued_at small)
      (as_u64-as_i64 body.sequence small')

-- The home hubs that a put has stored are those that are got: the signed list comes back as it was.
pub put_designation-get_designation :
    (crypto : Crypto) (now : ℕ) (master : String) (body : HomeHubList) (db : Db)
    → body.issued_at < 2 ^ 64
    → body.sequence < 2 ^ 64
    → (put_designation crypto now master body db).0 ≡ ok tt
    → (get_designation master (put_designation crypto now master body db).1).0 ≡ ok body
unfolding get_designation ◌>>=◌
put_designation-get_designation crypto now master body db small small' h =
    let (reply, state) = put_designation-refines crypto now body db master in
    let stored : find_designation master (put_designation crypto now master body db).1
        ≡ some (designation_row now body) =
      state master ∙ taken_own crypto now master body db (sym reply ∙ ap succeeded h) in
    ground (arith, stored, read_back now body small small')
