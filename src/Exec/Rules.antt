-- ===== src/Exec/Rules.antt =====
-- Invariants of handlers, one rule for each way to build a handler. `Preserves P m`: the invariant
-- holds of what `m` leaves behind, whether it succeeds or stops at an error. `PreservesAt P m s` says
-- it of one state, where the outcome of a guard is known to what follows it.
use voxply_server.Common.{
  All, ◌≡◌, refl, Bool, true, false, Option, none, some, List, [], ◌∷◌, String, subst, sym, arith,
}
use voxply_server.Exec.{
  Status, Reply, ok, err, Exec, pure, fail, gets, ok_or, modify, refuse_if, when, if_some, after,
  ◌>>=◌, ◌>>◌, for_each,
}

pub record PreservesAt {S A : Type 0} (P : S → Type 0) (m : Exec S A) (s : S) : Type 0 where
  pub at : P s → P (m s).1

pub record Preserves {S A : Type 0} (P : S → Type 0) (m : Exec S A) : Type 0 where
  pub at : (s : S) → P s → P (m s).1

pub Preserves-at :
    {S A : Type 0} {P : S → Type 0} {m : Exec S A} {s : S} → Preserves P m → PreservesAt P m s
Preserves-at {s} k = record { at = k.at s }

pub Preserves-of_at :
    {S A : Type 0} {P : S → Type 0} {m : Exec S A} → ((s : S) → PreservesAt P m s) → Preserves P m
Preserves-of_at k = record { at = λ s. (k s).at }

module _ {S A : Type 0} {P : S → Type 0} where
  pub Preserves-pure : (a : A) → Preserves P (pure a)
  unfolding pure
  Preserves-pure a = record { at = λ _ inv. inv }

  pub Preserves-fail : (c : Status) (m : String) → Preserves P (fail {A = A} c m)
  unfolding fail
  Preserves-fail c m = record { at = λ _ inv. inv }

  pub Preserves-gets : (f : S → A) → Preserves P (gets f)
  unfolding gets
  Preserves-gets f = record { at = λ _ inv. inv }

  pub Preserves-ok_or : (c : Status) (m : String) (o : Option A) → Preserves P (ok_or c m o)
  unfolding ok_or
  Preserves-ok_or c m none = record { at = λ _ inv. inv }
  Preserves-ok_or c m (some a) = record { at = λ _ inv. inv }

module _ {S : Type 0} {P : S → Type 0} where
  pub Preserves-modify : (f : S → S) → ((s : S) → P s → P (f s)) → Preserves P (modify f)
  unfolding modify
  Preserves-modify f k = record { at = k }

  pub Preserves-refuse_if : (b : Bool) (c : Status) (m : String) → Preserves P (refuse_if b c m)
  unfolding refuse_if
  Preserves-refuse_if true c m = record { at = λ _ inv. inv }
  Preserves-refuse_if false c m = record { at = λ _ inv. inv }

  pub Preserves-when :
      (b : Bool) (m : Exec S (Unit {0})) → (b ≡ true → Preserves P m) → Preserves P (when b m)
  unfolding when
  Preserves-when true m k = record { at = (k refl).at }
  Preserves-when false m k = record { at = λ _ inv. inv }

  pub Preserves-if_some :
      {A : Type 0} (o : Option A) (f : A → Exec S (Unit {0}))
      → ((a : A) → o ≡ some a → Preserves P (f a))
      → Preserves P (if_some o f)
  unfolding if_some
  Preserves-if_some none f k = record { at = λ _ inv. inv }
  Preserves-if_some (some a) f k = record { at = (k a refl).at }

after_at :
    {S A B : Type 0} (P : S → Type 0) (r : Reply A) (f : A → Exec S B) (s : S)
    → P s
    → ((a : A) → r ≡ ok a → P (f a s).1)
    → P (after r f s).1
after_at P (ok a) f s h k = k a refl
after_at P (err c m) f s h k = h

module _ {S A B : Type 0} {P : S → Type 0} where
  pub Preserves-bind :
      (m : Exec S A) (f : A → Exec S B)
      → Preserves P m
      → ((a : A) → Preserves P (f a))
      → Preserves P (m >>= f)
  unfolding ◌>>=◌
  Preserves-bind m f km kf = record {
    at = λ s h. after_at P (m s).0 f (m s).1 (km.at s h) (λ a _. (kf a).at _ (km.at s h));
  }

  -- the rules at a state: what follows a read or a guard may use what it found
  pub gets_then :
      (g : S → A) (f : A → Exec S B) (s : S)
      → PreservesAt P (f (g s)) s
      → PreservesAt P (gets g >>= f) s
  unfolding ◌>>=◌
  gets_then g f s k = record { at = k.at }

  pub ok_or_then :
      (c : Status) (m : String) (o : Option A) (f : A → Exec S B) (s : S)
      → ((a : A) → o ≡ some a → PreservesAt P (f a) s)
      → PreservesAt P (ok_or c m o >>= f) s
  unfolding ◌>>=◌
  ok_or_then c m none f s k = record { at = λ h. h }
  ok_or_then c m (some a) f s k = record { at = (k a refl).at }

module _ {S B : Type 0} {P : S → Type 0} where
  pub refuse_then :
      (b : Bool) (c : Status) (m : String) (n : Exec S B) (s : S)
      → (b ≡ false → PreservesAt P n s)
      → PreservesAt P (refuse_if b c m >> n) s
  unfolding ◌>>=◌
  refuse_then true c m n s k = record { at = λ h. h }
  refuse_then false c m n s k = record { at = (k refl).at }

  pub modify_then :
      (g : S → S) (n : Exec S B) (s : S)
      → (P s → P (g s))
      → PreservesAt P n (g s)
      → PreservesAt P (modify g >> n) s
  unfolding ◌>>=◌
  modify_then g n s kg kn = record { at = λ h. kn.at (kg h) }

pub Preserves-for_each :
    {S A : Type 0} {P : S → Type 0} (f : A → Exec S (Unit {0})) (xs : List A)
    → ((a : A) → Preserves P (f a))
    → Preserves P (for_each f xs)
unfolding for_each
Preserves-for_each f [] k = Preserves-pure tt
Preserves-for_each f (x ∷ xs) k =
    Preserves-bind (f x) (λ _. for_each f xs) (k x) (λ _. Preserves-for_each f xs k)

-- the same over elements that meet a condition
pub Preserves-for_each-All :
    {S A : Type 0} {P : S → Type 0} (Q : A → Type 0) (f : A → Exec S (Unit {0})) (xs : List A)
    → All Q xs
    → ((a : A) → Q a → Preserves P (f a))
    → Preserves P (for_each f xs)
unfolding for_each
Preserves-for_each-All Q f [] h k = Preserves-pure tt
Preserves-for_each-All Q f (x ∷ xs) h k =
    Preserves-bind (f x) (λ _. for_each f xs) (k x h.0) (λ _. Preserves-for_each-All Q f xs h.1 k)

pub ruleset preserves_rules = (
  Preserves-pure, Preserves-fail, Preserves-gets, Preserves-ok_or, Preserves-modify,
  Preserves-refuse_if, Preserves-when, Preserves-if_some, Preserves-bind, Preserves-for_each,
)

pub modify_at :
    {S : Type 0} {P : S → Type 0} (g : S → S) (s : S) → (P s → P (g s)) → PreservesAt P (modify g) s
unfolding modify
modify_at g s k = record { at = k }

pub when_at :
    {S : Type 0} {P : S → Type 0} (b : Bool) (m : Exec S (Unit {0})) (s : S)
    → (b ≡ true → PreservesAt P m s)
    → PreservesAt P (when b m) s
unfolding when
when_at true m s k = record { at = (k refl).at }
when_at false m s k = record { at = λ h. h }

pub when_then :
    {S B : Type 0} {P : S → Type 0} (b : Bool) (m : Exec S (Unit {0})) (n : Exec S B) (s : S)
    → (b ≡ true → PreservesAt P (m >> n) s)
    → (b ≡ false → PreservesAt P n s)
    → PreservesAt P (when b m >> n) s
unfolding ◌>>=◌
when_then true m n s kt kf = record { at = (kt refl).at }
when_then false m n s kt kf = record { at = (kf refl).at }

assoc :
    {S A B C : Type 0} (P : S → Type 0) (r : Reply A) (f : A → Exec S B) (g : B → Exec S C) (s : S)
    → P (after r (λ a. f a >>= g) s).1
    → P (after (after r f s).0 g (after r f s).1).1
unfolding ◌>>=◌
assoc P (ok a) f g s h = h
assoc P (err c m) f g s h = h

pub assoc_then :
    {S A B C : Type 0} {P : S → Type 0} (m : Exec S A) (f : A → Exec S B) (g : B → Exec S C) (s : S)
    → PreservesAt P (m >>= λ a. f a >>= g) s
    → PreservesAt P (m >>= f >>= g) s
unfolding ◌>>=◌
assoc_then {P = P} m f g s k = record { at = λ h. assoc P (m s).0 f g (m s).1 (k.at h) }

-- a part that leaves the state alone; what follows knows that it succeeded
pub reads_then :
    {S A B : Type 0} {P : S → Type 0} (m : Exec S A) (f : A → Exec S B) (s : S)
    → Preserves (λ t. t ≡ s) m
    → ((a : A) → (m s).0 ≡ ok a → PreservesAt P (f a) s)
    → PreservesAt P (m >>= f) s
unfolding ◌>>=◌
reads_then {P = P} m f s still k = record {
  at = λ h.
      let same : (m s).1 ≡ s = still.at s refl in
      after_at P (m s).0 f (m s).1 (subst P (sym same) h)
        (λ a e. subst (λ t. P (f a t).1) (sym same) ((k a e).at h));
}

-- what a sequence that succeeds has been through
pub bind_ok :
    {S A B : Type 0} (m : Exec S A) (f : A → Exec S B) (s : S) (b : B)
    → ((m >>= f) s).0 ≡ ok b
    → (a : A) × ((m s).0 ≡ ok a) × ((m >>= f) s ≡ f a (m s).1)
unfolding ◌>>=◌
bind_ok {S = S} {A = A} m f s b h = from (m s).0 (m s).1 h
  where
    from :
        (r : Reply A) (t : S)
        → (after r f t).0 ≡ ok b
        → (a : A) × (r ≡ ok a) × (after r f t ≡ f a t)
    from (ok a) t h = (a, refl, refl)
    from (err c m) t h = absurd (ground arith)

-- what the first part brings about stays, where the rest preserves it
pub bind_after :
    {S A B : Type 0} {P : S → Type 0} (m : Exec S A) (f : A → Exec S B) (s : S)
    → P (m s).1
    → ((a : A) → Preserves P (f a))
    → P ((m >>= f) s).1
unfolding ◌>>=◌
bind_after {P = P} m f s h k = after_at P (m s).0 f (m s).1 h (λ a _. (k a).at _ h)

-- two writes that together keep what the first alone may not
pub modify_twice :
    {S A : Type 0} {P : S → Type 0} (f g : S → S) (a : A) (s : S)
    → (P s → P (g (f s)))
    → PreservesAt P (modify f >> (modify g >> pure a)) s
unfolding ◌>>=◌
modify_twice f g a s k = record { at = k }
