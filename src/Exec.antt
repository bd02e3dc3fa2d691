-- ===== src/Exec.antt =====
-- Request handlers. A handler of the source is `Result<T, (StatusCode, String)>` over a shared
-- database. What it has written before an early return stays written, so the state comes back
-- beside an error too. The actions are shut: proofs go by the rules of Exec/Rules.antt, and a test
-- opens all of them by `unfolding ◌>>=◌`.
pub mod Rules
pub mod Success
use voxply_server.Common.{Bool, true, false, Option, none, some, List, [], ◌∷◌, String}

pub data Status : Type 0 where
  bad_request unauthorized forbidden not_found conflict gone internal_server_error : Status

pub data Reply (A : Type 0) : Type 0 where
  ok : A → Reply A
  err : Status → String → Reply A

abbrev pub Exec : Type 0 → Type 0 → Type 0
Exec S A = S → Reply A × S

module _ {S A : Type 0} where
  unfoldable pub pure : A → Exec S A
  pure a s = (ok a, s)

  unfoldable pub fail : Status → String → Exec S A
  fail c m s = (err c m, s)

  -- a query that only reads
  unfoldable pub gets : (S → A) → Exec S A
  gets f s = (ok (f s), s)

  -- `.ok_or((status, message))?`
  unfoldable pub ok_or : Status → String → Option A → Exec S A
  ok_or c m none s = (err c m, s)
  ok_or c m (some a) s = (ok a, s)

module _ {S : Type 0} where
  -- a statement that only writes
  unfoldable pub modify : (S → S) → Exec S (Unit {0})
  modify f s = (ok tt, f s)

  -- `if test { return Err((status, message)) }`
  unfoldable pub refuse_if : Bool → Status → String → Exec S (Unit {0})
  refuse_if true c m s = (err c m, s)
  refuse_if false c m s = (ok tt, s)

  -- `if test { action }`
  unfoldable pub when : Bool → Exec S (Unit {0}) → Exec S (Unit {0})
  when true m s = m s
  when false m s = (ok tt, s)

  -- `if let Some(a) = o { action(a) }`
  unfoldable pub if_some : {A : Type 0} → Option A → (A → Exec S (Unit {0})) → Exec S (Unit {0})
  if_some none f s = (ok tt, s)
  if_some (some a) f s = f a s

module _ {S A B : Type 0} where
  abbrev pub after : Reply A → (A → Exec S B) → Exec S B
  after (ok a) f s = f a s
  after (err c m) f s = (err c m, s)

  infixl 10 ◌>>=◌ ◌>>◌
  unfoldable pub ◌>>=◌ : Exec S A → (A → Exec S B) → Exec S B
  unfolding pure fail gets ok_or modify refuse_if when if_some
  ◌>>=◌ m f s = after (m s).0 f (m s).1

  abbrev pub ◌>>◌ : Exec S A → Exec S B → Exec S B
  m >> n = m >>= λ _. n

-- `for x in xs { action(x) }`
unfoldable pub for_each : {S A : Type 0} → (A → Exec S (Unit {0})) → List A → Exec S (Unit {0})
unfolding ◌>>=◌
for_each f [] = pure tt
for_each f (x ∷ xs) = f x >> for_each f xs

-- a failed statement; the driver's own text is left out
abbrev pub db_error : {S A : Type 0} → Exec S A
db_error = fail internal_server_error "DB error"

-- a statement that the database refuses where `broken` holds
abbrev pub constrained : {S : Type 0} → (S → Bool) → (S → S) → Exec S (Unit {0})
constrained broken f = do
  violated ← gets broken
  refuse_if violated internal_server_error "DB error"
  modify f

abbrev pub succeeded : {A : Type 0} → Reply A → Bool
succeeded (ok a) = true
succeeded (err c m) = false
