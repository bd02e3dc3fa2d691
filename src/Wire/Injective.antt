-- ===== src/Wire/Injective.antt =====
-- Two messages that a signature covers alike are one message.
use voxply_server.Common.{
  ℕ, suc, ◌+◌, ◌<◌, ◌^◌, ◌≡◌, refl, ap, List, [], ◌∷◌, ◌++◌, length, arith, All, zero, ◌%◌, sym,
  ◌∙◌,
}
use voxply_server.Common.Text.{codes}
use voxply_server.Wire.{
  Signed, home_hub_list, subkey_cert, revocation, prefs_blob, pairing_offer, pairing_claim, dh_key,
  public_profile, tag, body, signing_bytes, write_u64_le, write_str, write_str_vec,
}
use voxply_server.Wire.Bytes.{
  Short, ShortTexts, SmallOption, FitsEntry, write_str-Reads, write_str_vec-Reads, write_u64-Reads,
  write_u32-Reads, write_optional-Reads, write_entries-reads, read_last, same_length,
}

-- Lengths fit in 32 bits and numbers in 64.
abbrev pub Fits : Signed → Type 0
Fits (home_hub_list m hs i s) = Short m × ShortTexts hs × (i < 2 ^ 64) × (s < 2 ^ 64)
Fits (subkey_cert m s l i n f) =
    Short m × Short s × Short l × (i < 2 ^ 64) × SmallOption n × ShortTexts f
Fits (revocation m s r) = Short m × Short s × (r < 2 ^ 64)
Fits (prefs_blob m v d) = Short m × (v < 2 ^ 64)
Fits (pairing_offer m hs t i e) = Short m × ShortTexts hs × Short t × (i < 2 ^ 64) × (e < 2 ^ 64)
Fits (pairing_claim t s l) = Short t × Short s × Short l
Fits (dh_key p d) = Short p × Short d
Fits (public_profile p hs i) = Short p × (i < 2 ^ 64) × (length hs < 2 ^ 32) × All FitsEntry hs

-- the sum of the bytes before the first 0
abbrev tag_sum : List ℕ → ℕ
tag_sum [] = 0
tag_sum (zero ∷ r) = 0
tag_sum (suc x ∷ r) = suc x + tag_sum r

-- which kind of message it is, by that sum
abbrev kind : Signed → ℕ
kind (home_hub_list m hs i s) = 2229
kind (subkey_cert m s l i n f) = 2085
kind (revocation m s r) = 2033
kind (prefs_blob m v d) = 1955
kind (pairing_offer m hs t i e) = 2272
kind (pairing_claim t s l) = 2260
kind (dh_key p d) = 1529
kind (public_profile p hs i) = 2752

tag_sum-signing_bytes : (m : Signed) → tag_sum (signing_bytes m) ≡ kind m
unfolding signing_bytes tag body codes
tag_sum-signing_bytes (home_hub_list m hs i s) = refl
tag_sum-signing_bytes (subkey_cert m s l i n f) = refl
tag_sum-signing_bytes (revocation m s r) = refl
tag_sum-signing_bytes (prefs_blob m v d) = refl
tag_sum-signing_bytes (pairing_offer m hs t i e) = refl
tag_sum-signing_bytes (pairing_claim t s l) = refl
tag_sum-signing_bytes (dh_key p d) = refl
tag_sum-signing_bytes (public_profile p hs i) = refl

kind_eq : (a b : Signed) → signing_bytes a ≡ signing_bytes b → kind a ≡ kind b
kind_eq a b e = sym (tag_sum-signing_bytes a) ∙ ap tag_sum e ∙ tag_sum-signing_bytes b

cancel : (m : Signed) (r s : List ℕ) → tag m ++ r ≡ tag m ++ s → r ≡ s
cancel m r s e = (same_length (tag m) (tag m) r s refl e).1

-- Two messages with lengths below 2^32 and numbers below 2^64 whose signed bytes are equal are of the
-- same kind and agree in every field that `signing_bytes` takes: the bytes are divided into such fields
-- in one way only. A prefs blob counts by its owner, its version and the hash of its ciphertext. The
-- fields that `signing_bytes` does not take are free: the signature itself, the `display_name` and
-- `avatar` of a public hub profile, and the `published_at` of a DH key.
pub signing_bytes-injective :
    (a b : Signed) → Fits a → Fits b → signing_bytes a ≡ signing_bytes b → a ≡ b
unfolding signing_bytes tag body
signing_bytes-injective (home_hub_list m hs i s) (home_hub_list m' hs' i' s') f g e =
    let (e₁, h₁) = write_str-Reads m m' _ _ f.0 g.0 (cancel (home_hub_list m hs i s) _ _ e) in
    let (e₂, h₂) = write_str_vec-Reads hs hs' _ _ f.1 g.1 h₁ in
    let (e₃, h₃) = write_u64-Reads i i' _ _ f.2 g.2 h₂ in
    let e₄ = read_last write_u64_le s s' write_u64-Reads f.3 g.3 h₃ in cc
signing_bytes-injective (subkey_cert m s l i n f₀) (subkey_cert m' s' l' i' n' f₀') f g e =
    let (e₁, h₁) = write_str-Reads m m' _ _ f.0 g.0 (cancel (subkey_cert m s l i n f₀) _ _ e) in
    let (e₂, h₂) = write_str-Reads s s' _ _ f.1 g.1 h₁ in
    let (e₃, h₃) = write_str-Reads l l' _ _ f.2 g.2 h₂ in
    let (e₄, h₄) = write_u64-Reads i i' _ _ f.3 g.3 h₃ in
    let (e₅, h₅) = write_optional-Reads n n' _ _ f.4 g.4 h₄ in
    let e₆ = read_last write_str_vec f₀ f₀' write_str_vec-Reads f.5 g.5 h₅ in cc
signing_bytes-injective (revocation m s r) (revocation m' s' r') f g e =
    let (e₁, h₁) = write_str-Reads m m' _ _ f.0 g.0 (cancel (revocation m s r) _ _ e) in
    let (e₂, h₂) = write_str-Reads s s' _ _ f.1 g.1 h₁ in
    let e₃ = read_last write_u64_le r r' write_u64-Reads f.2 g.2 h₂ in cc
signing_bytes-injective (prefs_blob m v d) (prefs_blob m' v' d') f g e =
    let (e₁, h₁) = write_str-Reads m m' _ _ f.0 g.0 (cancel (prefs_blob m v d) _ _ e) in
    let (e₂, h₂) = write_u64-Reads v v' _ _ f.1 g.1 h₁ in let e₃ = h₂ in cc
signing_bytes-injective (pairing_offer m hs t i e₀) (pairing_offer m' hs' t' i' e₀') f g e =
    let (e₁, h₁) = write_str-Reads m m' _ _ f.0 g.0 (cancel (pairing_offer m hs t i e₀) _ _ e) in
    let (e₂, h₂) = write_str_vec-Reads hs hs' _ _ f.1 g.1 h₁ in
    let (e₃, h₃) = write_str-Reads t t' _ _ f.2 g.2 h₂ in
    let (e₄, h₄) = write_u64-Reads i i' _ _ f.3 g.3 h₃ in
    let e₅ = read_last write_u64_le e₀ e₀' write_u64-Reads f.4 g.4 h₄ in cc
signing_bytes-injective (pairing_claim t s l) (pairing_claim t' s' l') f g e =
    let (e₁, h₁) = write_str-Reads t t' _ _ f.0 g.0 (cancel (pairing_claim t s l) _ _ e) in
    let (e₂, h₂) = write_str-Reads s s' _ _ f.1 g.1 h₁ in
    let e₃ = read_last write_str l l' write_str-Reads f.2 g.2 h₂ in cc
signing_bytes-injective (dh_key p d) (dh_key p' d') f g e =
    let (e₁, h₁) = write_str-Reads p p' _ _ f.0 g.0 (cancel (dh_key p d) _ _ e) in
    let e₂ = read_last write_str d d' write_str-Reads f.1 g.1 h₁ in cc
signing_bytes-injective (public_profile p hs i) (public_profile p' hs' i') f g e =
    let (e₁, h₁) = write_str-Reads p p' _ _ f.0 g.0 (cancel (public_profile p hs i) _ _ e) in
    let (e₂, h₂) = write_u64-Reads i i' _ _ f.1 g.1 h₁ in
    let (l, h₃) =
      write_u32-Reads (length hs % 2 ^ 32) (length hs' % 2 ^ 32) _ _ (omega arith) (omega arith)
        h₂ in
    let e₃ = write_entries-reads hs hs' (omega (arith, f.2, g.2)) f.3 g.3 h₃ in cc
signing_bytes-injective a b f g e = absurd (omega (arith, kind_eq a b e))
