-- ===== src/Tests/BotCheckTests.antt =====
-- The question of a hub that asks who signs in, its token, and a proof of work in the lobby.
use voxply_server.Common.{◌≡◌, refl, true, false, some, none, [], ◌∷◌, String}
use voxply_server.Common.Int.{ℤ, pos, ◌+ℤ◌, ltb_ℤ}
use voxply_server.Exec.{ok, err, forbidden, ◌>>=◌}
use voxply_server.Sql.{fetch_optional, exists_where, update_where}
use voxply_server.Db.{Db}
use voxply_server.Auth.Gates.{setting}
use voxply_server.Auth.Entry.{challenge_mode, spend_token}
use voxply_server.BotCheck.{
  Draw, VerifyChallengeRequest, ChallengeVerifyResponse, verify_challenge, verify_kind,
  verify_click, accept, issue_challenge_token, deadline, consume, find_question,
}
use voxply_server.BotCheck.Once.{verify_challenge-spend_token}
use voxply_server.Tests.Sample.{hub, user}
use voxply_server.Tests.PairingTests.{crypto}

abbrev draw : Draw
draw = record {
  crypto = crypto;
  gen_range = λ low high. (low, high);
  now = pos 200;
  id = "q2";
  token = "fresh";
}

abbrev asked : Db
asked = record hub {
  bot_challenges =
      record {
        id = "q1";
        pubkey = "carol";
        kind = "click";
        expected_answer = none;
        created_at = pos 100;
        expires_at = pos 400;
        consumed_at = none;
      }
      ∷ [];
}

abbrev answer : VerifyChallengeRequest
answer = record { id = "q1"; pubkey = "carol"; answer = none }

abbrev accepted : ChallengeVerifyResponse
accepted = record {
  accepted = true;
  token = some "fresh";
  expires_at = some (pos 500);
  next_challenge = none;
  attempts_remaining = none;
}

answered : (verify_challenge draw answer asked).0 ≡ ok accepted
unfolding verify_challenge verify_kind verify_click accept issue_challenge_token deadline consume
    find_question challenge_mode setting fetch_optional exists_where update_where ◌>>=◌ ◌+ℤ◌
answered = refl

in_time : ltb_ℤ (deadline (pos 200)) (pos 450) ≡ false
unfolding deadline ◌+ℤ◌
in_time = refl

verify_challenge-spend_token_example :
    ((spend_token (pos 450) "carol" "fresh" (verify_challenge draw answer asked).1).0 ≡ ok tt)
    × ((now' : ℤ) (key' : String)
        → (spend_token now' key' "fresh"
            (spend_token (pos 450) "carol" "fresh" (verify_challenge draw answer asked).1).1).0
          ≡ err forbidden "Challenge token already used")
verify_challenge-spend_token_example =
    verify_challenge-spend_token draw answer asked accepted "fresh" (pos 450) answered refl in_time

abbrev level_hub : Db
level_hub = record hub {
  users = user "carol" ∷ [];
  hub_settings = record { key = "min_security_level"; value = "8" } ∷ [];
}
