-- ===== src/BotCheck.antt =====
-- hub/src/routes/challenge.rs: the question that tells a person from a script, and the token for its
-- answer, which sign-in spends (Auth/Entry.antt). Fresh identifiers, the clock and the two random
-- numbers of a sum are arguments: `gen_range low high` is what the generator draws. The picture of a
-- sum is stood for by the two numbers that it shows.
pub mod Once
use voxply_server.Common.{
  ℕ, ◌+◌, Bool, not, ◌||◌, Option, none, some, String, ◌==◌, is_some, if◌then◌else◌, unwrap_or,
}
use voxply_server.Common.Int.{ℤ, pos, ◌+ℤ◌, ltb_ℤ}
use voxply_server.Common.Text.{trim, to_decimal}
use voxply_server.Exec.{
  Exec, pure, fail, gets, ok_or, modify, refuse_if, not_found, gone, forbidden, bad_request,
  internal_server_error, constrained, ◌>>=◌, ◌>>◌,
}
use voxply_server.Sql.{exists_where, fetch_optional, update_where, insert_row, upsert_row}
use voxply_server.Crypto.{Crypto}
use voxply_server.Db.{Db, BotChallenge}
use voxply_server.Permissions.{user_permissions, require, admin}
use voxply_server.Auth.Gates.{setting}
use voxply_server.Auth.Entry.{challenge_mode}

pub record ChallengePrompt : Type 0 where
  pub id : String
  pub mode : String
  pub prompt : Option (ℕ × ℕ)
  pub expires_at : ℤ

pub record ChallengeVerifyResponse : Type 0 where
  pub accepted : Bool
  pub token : Option String
  pub expires_at : Option ℤ
  pub next_challenge : Option ChallengePrompt
  pub attempts_remaining : Option ℕ

pub record VerifyChallengeRequest : Type 0 where
  pub id : String
  pub pubkey : String
  pub answer : Option String

-- what a request takes from outside; a token and the id of a second question are fresh
pub record Draw : Type 0 where
  pub crypto : Crypto
  pub gen_range : ℕ → ℕ → ℕ × ℕ
  pub now : ℤ
  pub id : String
  pub token : String

-- `INSERT INTO hub_settings ... ON CONFLICT(key) DO UPDATE`
unfoldable pub upsert_setting : String → String → Exec Db (Unit {0})
upsert_setting key value = modify (λ db. record db {
  hub_settings =
      upsert_row (λ s. s.key) (λ k s. record s { key = k }) (record { key = key; value = value })
        db.hub_settings;
})

unfoldable pub sha256_hex : Crypto → String → String
sha256_hex crypto input = crypto.hex_encode (crypto.sha256 (crypto.utf8 input))

-- the two numbers, and their sum as a text; it has three digits at most
unfoldable pub make_puzzle : Draw → String → (ℕ × ℕ) × String
make_puzzle draw difficulty =
    let ab = if difficulty == "medium" then draw.gen_range 10 50 else draw.gen_range 1 9 in
    (ab, to_decimal 3 (ab.0 + ab.1))

abbrev pub token_lifetime : ℕ
token_lifetime = 300

-- five minutes from now
unfoldable pub deadline : ℤ → ℤ
unfolding ◌+ℤ◌
deadline now = now +ℤ pos token_lifetime

-- `token` is the primary key
unfoldable pub issue_challenge_token : Draw → String → Exec Db (String × ℤ)
issue_challenge_token draw pubkey = do
  constrained (λ db. exists_where (λ t. t.token == draw.token) db.challenge_tokens)
      (λ db. record db {
        challenge_tokens =
            insert_row
              (record {
                token = draw.token;
                pubkey = pubkey;
                issued_at = draw.now;
                expires_at = deadline draw.now;
                consumed_at = none;
              })
              db.challenge_tokens;
      })
  pure (draw.token, deadline draw.now)

-- `id` is the primary key
unfoldable pub insert_question : BotChallenge → Exec Db (Unit {0})
insert_question row =
    constrained (λ db. exists_where (λ c. c.id == row.id) db.bot_challenges)
      (λ db. record db { bot_challenges = insert_row row db.bot_challenges })

unfoldable pub question : Draw → String → String → Option String → BotChallenge
question draw pubkey kind expected = record {
  id = draw.id;
  pubkey = pubkey;
  kind = kind;
  expected_answer = expected;
  created_at = draw.now;
  expires_at = deadline draw.now;
  consumed_at = none;
}

unfoldable pub challenge_difficulty : Db → String
challenge_difficulty db = unwrap_or (setting "challenge_difficulty" db) "easy"

unfoldable pub new_challenge : Draw → String → Exec Db ChallengePrompt
new_challenge draw pubkey = do
  mode ← gets challenge_mode
  refuse_if (mode == "off") not_found "Challenges are disabled"
  difficulty ← gets challenge_difficulty
  let puzzle : (ℕ × ℕ) × String = make_puzzle draw difficulty
  let is_puzzle : Bool = mode == "puzzle"
  insert_question (
      question draw pubkey (if is_puzzle then "puzzle" else "click")
        (if is_puzzle then some (sha256_hex draw.crypto puzzle.1) else none))
  pure (record {
    id = draw.id;
    mode = mode;
    prompt = if is_puzzle then some puzzle.0 else none;
    expires_at = deadline draw.now;
  })

unfoldable pub find_question : String → Db → Option BotChallenge
find_question id db = fetch_optional (λ c. c.id == id) db.bot_challenges

unfoldable pub consume : ℤ → String → Db → Db
consume now id db = record db {
  bot_challenges =
      update_where (λ c. c.id == id) (λ c. record c { consumed_at = some now }) db.bot_challenges;
}

abbrev pub wrong_answer : ChallengeVerifyResponse
wrong_answer = record {
  accepted = Bool.false;
  token = none;
  expires_at = none;
  next_challenge = none;
  attempts_remaining = some 2;
}

unfoldable pub accept : Draw → VerifyChallengeRequest → Exec Db ChallengeVerifyResponse
accept draw req = do
  issued ← issue_challenge_token draw req.pubkey
  pure (record {
    accepted = Bool.true;
    token = some issued.0;
    expires_at = some issued.1;
    next_challenge = none;
    attempts_remaining = none;
  })

-- the second step of the mode `both`
unfoldable pub ask_puzzle : Draw → VerifyChallengeRequest → Exec Db ChallengeVerifyResponse
ask_puzzle draw req = do
  difficulty ← gets challenge_difficulty
  let puzzle : (ℕ × ℕ) × String = make_puzzle draw difficulty
  insert_question (question draw req.pubkey "puzzle" (some (sha256_hex draw.crypto puzzle.1)))
  pure (record {
    accepted = Bool.true;
    token = none;
    expires_at = none;
    next_challenge = some (record {
      id = draw.id;
      mode = "both";
      prompt = some puzzle.0;
      expires_at = deadline draw.now;
    });
    attempts_remaining = none;
  })

unfoldable pub verify_click : Draw → VerifyChallengeRequest → Exec Db ChallengeVerifyResponse
verify_click draw req = do
  mode ← gets challenge_mode
  modify (consume draw.now req.id)
  if mode == "both" then ask_puzzle draw req else accept draw req

unfoldable pub verify_puzzle :
    Draw → VerifyChallengeRequest → Option String → Option String → Exec Db ChallengeVerifyResponse
verify_puzzle draw req none expected_answer = pure wrong_answer
verify_puzzle draw req (some answer) none = fail internal_server_error "Missing expected answer"
verify_puzzle draw req (some answer) (some expected) =
    if sha256_hex draw.crypto (trim answer) == expected
    then modify (consume draw.now req.id) >> accept draw req
    else pure wrong_answer

unfoldable pub verify_kind :
    Draw → VerifyChallengeRequest → BotChallenge → Exec Db ChallengeVerifyResponse
verify_kind draw req row =
    if row.kind == "click"
    then verify_click draw req
    else if row.kind == "puzzle"
    then verify_puzzle draw req req.answer row.expected_answer
    else fail internal_server_error "Unknown challenge kind"

unfoldable pub verify_challenge : Draw → VerifyChallengeRequest → Exec Db ChallengeVerifyResponse
verify_challenge draw req = do
  found ← gets (find_question req.id)
  row ← ok_or not_found "Challenge not found" found
  refuse_if (is_some row.consumed_at) gone "Challenge already consumed"
  refuse_if (ltb_ℤ row.expires_at draw.now) gone "Challenge expired"
  refuse_if (not (row.pubkey == req.pubkey)) forbidden "Pubkey mismatch"
  verify_kind draw req row

unfoldable pub is_mode : String → Bool
is_mode m = m == "off" || m == "click" || m == "puzzle" || m == "both"

unfoldable pub is_difficulty : String → Bool
is_difficulty d = d == "easy" || d == "medium"

unfoldable pub update_challenge_settings : String → String → String → Exec Db (Unit {0})
update_challenge_settings user mode difficulty = do
  perms ← user_permissions user
  require perms admin
  refuse_if (not (is_mode mode)) bad_request "Invalid challenge_mode"
  refuse_if (not (is_difficulty difficulty)) bad_request "Invalid challenge_difficulty"
  upsert_setting "challenge_mode" mode
  upsert_setting "challenge_difficulty" difficulty
