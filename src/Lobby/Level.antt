-- ===== src/Lobby/Level.antt =====
-- The level of a user only rises, and only by work.
use voxply_server.Common.{refl, Option-cases, inl, inr, eq_refl}
use voxply_server.Sql.Keys.{fetch-update}
use voxply_server.Common.Text.{split_at_colon, parse_bits}
use voxply_server.Common.{refl, eq_refl, inl, inr, Option-cases}
use voxply_server.Common.Text.{split_at_colon, parse_bits}
use voxply_server.Sql.Keys.{fetch-update}
use voxply_server.Crypto.{Crypto}
use voxply_server.Db.{Db}
