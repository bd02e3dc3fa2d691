-- ===== src/Pow/Level.antt =====
-- The level is the number of zero bits before the first one bit of the hash.
use voxply_server.Common.{
  ℕ, suc, ◌+◌, ◌%◌, ◌<◌, ◌≡◌, refl, Bool, true, false, List, [], ◌∷◌, All, leb, arith,
}
use voxply_server.Pow.{leading_zeros, leading_zero_bits}

-- the bit of weight `w`
abbrev bit : ℕ → ℕ → Bool
bit w byte = leb w (byte % (w + w))

-- the bits of a hash, the highest of each byte first
abbrev pub bits : List ℕ → List Bool
bits [] = []
bits (b ∷ hash) =
    bit 128 b ∷ bit 64 b ∷ bit 32 b ∷ bit 16 b ∷ bit 8 b ∷ bit 4 b ∷ bit 2 b ∷ bit 1 b ∷ bits hash

-- how many are zero before the first that is one
abbrev pub zeros : List Bool → ℕ
zeros [] = 0
zeros (true ∷ bs) = 0
zeros (false ∷ bs) = suc (zeros bs)

-- On bytes, `leading_zero_bits` counts the zero bits before the first one bit.
pub leading_zero_bits-zeros :
    (hash : List ℕ) → All (λ b. b < 256) hash → leading_zero_bits hash ≡ zeros (bits hash)
unfolding leading_zero_bits leading_zeros
leading_zero_bits-zeros [] h = refl
leading_zero_bits-zeros (b ∷ hash) h = ground (arith, leading_zero_bits-zeros hash h.1)
