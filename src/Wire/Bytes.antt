-- ===== src/Wire/Bytes.antt =====
-- Each written value can be read back off the front of what follows it.
use mathlib.Core.List.{append_assoc}
use native.Mathlib.Nat.{pow-suc}
use voxply_server.Common.{
  ℕ, zero, suc, ◌*◌, ◌/◌, ◌%◌, ◌^◌, ◌<◌, ◌≡◌, refl, ap, ap₂, Option, none, some, List, [], ◌∷◌,
  ◌++◌, length, arith, All,
}
use voxply_server.Wire.{
  le_bytes, write_u32_le, write_u64_le, write_str, write_each, write_str_vec, write_optional,
  write_entries, PublicHubEntry,
}

-- `write` is prefix-free on the values that `Fits` admits
abbrev pub Reads : {A : Type 0} → (A → List ℕ) → (A → Type 0) → Type 0
Reads {A} write Fits =
    (a b : A) (r s : List ℕ) → Fits a → Fits b → write a ++ r ≡ write b ++ s → (a ≡ b) × (r ≡ s)

heads : {x y : ℕ} {r s : List ℕ} → x ∷ r ≡ y ∷ s → (x ≡ y) × (r ≡ s)
heads h = (cc, cc)

pub le_bytes-Reads : (k : ℕ) → Reads (le_bytes k) (λ n. n < 256 ^ k)
unfolding le_bytes
le_bytes-Reads zero a b r s fa fb h = (omega arith, h)
le_bytes-Reads (suc k) a b r s fa fb h =
    let (low, rest) = heads h in
    let (high, tails) =
      le_bytes-Reads k (a / 256) (b / 256) r s
        (let fa' : a < 256 ^ k * 256 = rw pow-suc at fa in omega arith)
        (let fb' : b < 256 ^ k * 256 = rw pow-suc at fb in omega arith) rest in
    (omega arith, tails)

pub write_u64-Reads : Reads write_u64_le (λ n. n < 2 ^ 64)
unfolding write_u64_le
write_u64-Reads = le_bytes-Reads 8

pub write_u32-Reads : Reads write_u32_le (λ n. n < 2 ^ 32)
unfolding write_u32_le
write_u32-Reads = le_bytes-Reads 4

pub same_length : (a b r s : List ℕ) → length a ≡ length b → a ++ r ≡ b ++ s → (a ≡ b) × (r ≡ s)
same_length [] [] r s l h = (refl, h)
same_length [] (y ∷ b) r s l h = absurd (omega arith)
same_length (x ∷ a) [] r s l h = absurd (omega arith)
same_length (x ∷ a) (y ∷ b) r s l h =
    let (first, rest) = heads h in
    let (eq, tails) = same_length a b r s (omega arith) rest in (ap₂ ◌∷◌ first eq, tails)

abbrev pub Short : {A : Type 0} → List A → Type 0
Short v = length v < 2 ^ 32

pub write_str-Reads : Reads write_str (λ s. Short s)
unfolding write_str
write_str-Reads a b r s fa fb h =
    let (len, rest) =
      write_u32-Reads (length a % 2 ^ 32) (length b % 2 ^ 32) (a ++ r) (b ++ s) (omega arith)
        (omega arith) (rw (append_assoc, append_assoc) at h) in
    same_length a b r s (omega arith) rest

write_each-reads :
    (v w : List (List ℕ)) (r s : List ℕ)
    → length v ≡ length w
    → All (λ x. Short x) v
    → All (λ x. Short x) w
    → write_each v ++ r ≡ write_each w ++ s
    → (v ≡ w) × (r ≡ s)
unfolding write_each
write_each-reads [] [] r s l fv fw h = (refl, h)
write_each-reads [] (y ∷ w) r s l fv fw h = absurd (omega arith)
write_each-reads (x ∷ v) [] r s l fv fw h = absurd (omega arith)
write_each-reads (x ∷ v) (y ∷ w) r s l fv fw h =
    let (first, rest) =
      write_str-Reads x y (write_each v ++ r) (write_each w ++ s) fv.0 fw.0
        (rw (append_assoc, append_assoc) at h) in
    let (eq, tails) = write_each-reads v w r s (omega arith) fv.1 fw.1 rest in
    (ap₂ ◌∷◌ first eq, tails)

abbrev pub ShortTexts : List (List ℕ) → Type 0
ShortTexts v = Short v × All (λ x. Short x) v

pub write_str_vec-Reads : Reads write_str_vec ShortTexts
unfolding write_str_vec
write_str_vec-Reads a b r s fa fb h =
    let (len, rest) =
      write_u32-Reads (length a % 2 ^ 32) (length b % 2 ^ 32) (write_each a ++ r)
        (write_each b ++ s) (omega arith) (omega arith) (rw (append_assoc, append_assoc) at h) in
    write_each-reads a b r s (omega (arith, fa.0, fb.0)) fa.1 fb.1 rest

abbrev pub SmallOption : Option ℕ → Type 0
SmallOption none = Unit {0}
SmallOption (some t) = t < 2 ^ 64

pub write_optional-Reads : Reads write_optional SmallOption
unfolding write_optional
write_optional-Reads none none r s fa fb h = (refl, (heads h).1)
write_optional-Reads none (some u) r s fa fb h = absurd (omega (arith, (heads h).0))
write_optional-Reads (some t) none r s fa fb h = absurd (omega (arith, (heads h).0))
write_optional-Reads (some t) (some u) r s fa fb h =
    let (eq, tails) = write_u64-Reads t u r s fa fb (heads h).1 in (ap some eq, tails)

abbrev pub FitsEntry : PublicHubEntry → Type 0
FitsEntry e = Short e.hub_url × Short e.hub_name × (e.joined_at < 2 ^ 64)

pub write_entries-reads :
    (v w : List PublicHubEntry)
    → length v ≡ length w
    → All FitsEntry v
    → All FitsEntry w
    → write_entries v ≡ write_entries w
    → v ≡ w
unfolding write_entries
write_entries-reads [] [] l fv fw h = refl
write_entries-reads [] (y ∷ w) l fv fw h = absurd (omega arith)
write_entries-reads (x ∷ v) [] l fv fw h = absurd (omega arith)
write_entries-reads (x ∷ v) (y ∷ w) l fv fw h =
    let (url, h₁) = write_str-Reads x.hub_url y.hub_url _ _ fv.0.0 fw.0.0 h in
    let (name, h₂) = write_str-Reads x.hub_name y.hub_name _ _ fv.0.1 fw.0.1 h₁ in
    let (joined, h₃) = write_u64-Reads x.joined_at y.joined_at _ _ fv.0.2 fw.0.2 h₂ in
    let same : x ≡ y = ground arith in
    ap₂ ◌∷◌ same (write_entries-reads v w (omega arith) fv.1 fw.1 h₃)

-- the same at the end of the bytes
pub read_last :
    {A : Type 0} (write : A → List ℕ) {Fits : A → Type 0} (a b : A)
    → Reads write Fits
    → Fits a
    → Fits b
    → write a ≡ write b
    → a ≡ b
read_last write a b reads fa fb h = (reads a b [] [] fa fb (ap (λ t. t ++ []) h)).0
