-- ===== src/Tests/WireTests.antt =====
-- The signed bytes of two messages.
use voxply_server.Common.{◌≡◌, refl, arith, [], ◌∷◌}
use voxply_server.Wire.{Signed, revocation, write_u64_le, le_bytes}
use voxply_server.Wire.Injective.{Fits, signing_bytes-injective}

abbrev message : Signed
message = revocation (1 ∷ 2 ∷ []) (3 ∷ []) 1700000000

message-Fits : Fits message
message-Fits = (omega arith, omega arith, omega arith)

signing_bytes-injective_example : message ≡ message
signing_bytes-injective_example =
    signing_bytes-injective message message message-Fits message-Fits refl

-- the lowest byte comes first
time_bytes : write_u64_le 258 ≡ 2 ∷ 1 ∷ 0 ∷ 0 ∷ 0 ∷ 0 ∷ 0 ∷ 0 ∷ []
unfolding write_u64_le le_bytes
time_bytes = refl
