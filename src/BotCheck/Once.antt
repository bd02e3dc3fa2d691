-- ===== src/BotCheck/Once.antt =====
-- A question answered is worth one token, and a token one sign-in.
use voxply_server.Common.{subst, false}
use voxply_server.Exec.{forbidden}
use voxply_server.Auth.Entry.{spend_token}
use voxply_server.Common.Int.{ltb_ℤ}
use voxply_server.Exec.{Reply}
use voxply_server.Common.{refl}
use voxply_server.Common.Text.{trim}
use voxply_server.BotCheck.{sha256_hex, insert_question}
use voxply_server.Auth.Entry.{challenge_mode}
use voxply_server.Common.{
  ◌≡◌, refl, ◌∙◌, sym, ap, true, Option, none, some, String, ◌==◌, eq_refl, is_some, arith, inl,
  inr, Bool-cases, Option-cases,
}
use voxply_server.Common.Int.{ℤ}
use voxply_server.Exec.{ok, err, gone, ◌>>=◌}
use voxply_server.Sql.Keys.{fetch-update, fetch-insert}
use voxply_server.Sql.Upsert.{fetch_of_none}
use voxply_server.Db.{Db, BotChallenge, ChallengeToken}
use voxply_server.Auth.Entry.{find_challenge_token}
use voxply_server.BotCheck.{
  Draw, VerifyChallengeRequest, ChallengeVerifyResponse, verify_challenge, verify_kind,
  verify_click, verify_puzzle, accept, ask_puzzle, issue_challenge_token, consume, find_question,
  insert_question, deadline,
}

-- the token is stored, fresh, for the key
abbrev Issued : Draw → String → Db → Type 0
Issued draw pubkey db =
    find_challenge_token draw.token db
    ≡ some (record {
      token = draw.token;
      pubkey = pubkey;
      issued_at = draw.now;
      expires_at = deadline draw.now;
      consumed_at = none;
    })

accept-Issued :
    (draw : Draw) (req : VerifyChallengeRequest) (db : Db) (resp : ChallengeVerifyResponse)
    → (accept draw req db).0 ≡ ok resp
    → Issued draw req.pubkey (accept draw req db).1
unfolding accept issue_challenge_token find_challenge_token ◌>>=◌
accept-Issued draw req db resp h = ground (
  arith,
  fetch-insert (λ (t : ChallengeToken). t.token) draw.token
      (record {
        token = draw.token;
        pubkey = req.pubkey;
        issued_at = draw.now;
        expires_at = deadline draw.now;
        consumed_at = none;
      })
      db.challenge_tokens,
  fetch_of_none (λ t. t.token == draw.token) db.challenge_tokens,
  eq_refl draw.token,
)

-- the question is answered
abbrev Consumed : String → Db → Type 0
Consumed id db =
    (c : BotChallenge) × (find_question id db ≡ some c) × (is_some c.consumed_at ≡ true)

accept-keeps :
    (draw : Draw) (req : VerifyChallengeRequest) (db : Db) (id : String)
    → find_question id (accept draw req db).1 ≡ find_question id db
unfolding accept issue_challenge_token find_question ◌>>=◌
accept-keeps draw req db id = ground arith

consume-Consumed :
    (now : ℤ) (id : String) (db : Db) (row : BotChallenge)
    → find_question id db ≡ some row
    → find_question id (consume now id db) ≡ some (record row { consumed_at = some now })
unfolding consume find_question
consume-Consumed now id db row e = ground (
  arith,
  fetch-update (λ (c : BotChallenge). c.id) (λ c. record c { consumed_at = some now }) (λ r. refl)
      id id db.bot_challenges,
  eq_refl id,
)

-- who got a token has answered, and this is what it came from
abbrev Answers : Draw → VerifyChallengeRequest → Db → Reply ChallengeVerifyResponse × Db → Type 0
Answers draw req db run =
    (resp : ChallengeVerifyResponse) (t : String)
    → run.0 ≡ ok resp
    → resp.token ≡ some t
    → run ≡ accept draw req (consume draw.now req.id db)

module _ (draw : Draw) (req : VerifyChallengeRequest) (db : Db) where
  ask_puzzle-no_token :
      (db' : Db) (resp : ChallengeVerifyResponse)
      → (ask_puzzle draw req db').0 ≡ ok resp
      → resp.token ≡ none
  unfolding ask_puzzle insert_question ◌>>=◌
  ask_puzzle-no_token db' resp h = ground arith

  verify_click-Answers : Answers draw req db (verify_click draw req db)
  unfolding verify_click ◌>>=◌
  verify_click-Answers resp t h given = elim (Bool-cases (challenge_mode db == "both")) [
    | inl e ↦
        let asked : resp.token ≡ none =
          ask_puzzle-no_token (consume draw.now req.id db) resp (ground arith) in
        absurd (ground arith)
    | inr e ↦ rw e refl
  ]

  verify_puzzle-Answers :
      (answer expected : Option String)
      → Answers draw req db (verify_puzzle draw req answer expected db)
  unfolding verify_puzzle ◌>>=◌
  verify_puzzle-Answers none expected resp t h given = absurd (ground arith)
  verify_puzzle-Answers (some answer) none resp t h given = absurd (ground arith)
  verify_puzzle-Answers (some answer) (some expected) resp t h given =
      elim (Bool-cases (sha256_hex draw.crypto (trim answer) == expected)) [
        | inl e ↦ rw e refl
        | inr e ↦ absurd (ground arith)
      ]

  verify_kind-Answers : (row : BotChallenge) → Answers draw req db (verify_kind draw req row db)
  unfolding verify_kind ◌>>=◌
  verify_kind-Answers row resp t h given = elim (Bool-cases (row.kind == "click")) [
    | inl e ↦ rw e (verify_click-Answers resp t (rw e at h) given)
    | inr e ↦ elim (Bool-cases (row.kind == "puzzle")) [
      | inl p ↦
          rw (e, p)
            (verify_puzzle-Answers req.answer row.expected_answer resp t (rw (e, p) at h) given)
      | inr p ↦ absurd (ground arith)
    ]
  ]

-- what a request that gets a token has met
verify_challenge-Answers :
    (draw : Draw) (req : VerifyChallengeRequest) (db : Db) (resp : ChallengeVerifyResponse)
    (t : String)
    → (verify_challenge draw req db).0 ≡ ok resp
    → resp.token ≡ some t
    → (row : BotChallenge) × (find_question req.id db ≡ some row)
      × (verify_challenge draw req db ≡ accept draw req (consume draw.now req.id db))
unfolding verify_challenge ◌>>=◌
verify_challenge-Answers draw req db resp t h given =
    elim (Option-cases (find_question req.id db)) [
      | inl e ↦ absurd (ground arith)
      | inr (row, e) ↦
          let kind : verify_challenge draw req db ≡ verify_kind draw req row db = ground arith in
          (
            row,
            e,
            kind ∙ verify_kind-Answers draw req db row resp t (ap (λ r. r.0) (sym kind) ∙ h) given,
          )
    ]

-- An answer that was worth a token is worth no second one: afterwards its question counts as consumed,
-- whoever asks and whatever the answer.
verify_challenge-verify_challenge :
    (draw draw' : Draw) (req req' : VerifyChallengeRequest) (db : Db)
    (resp : ChallengeVerifyResponse) (t : String)
    → (verify_challenge draw req db).0 ≡ ok resp
    → resp.token ≡ some t
    → req'.id ≡ req.id
    → (verify_challenge draw' req' (verify_challenge draw req db).1).0
      ≡ err gone "Challenge already consumed"
unfolding verify_challenge ◌>>=◌
verify_challenge-verify_challenge draw draw' req req' db resp t h given same =
    let (row, found, run) = verify_challenge-Answers draw req db resp t h given in
    let gone_by : find_question req'.id (verify_challenge draw req db).1
        ≡ some (record row { consumed_at = some draw.now }) =
      ap (λ k. find_question k (verify_challenge draw req db).1) same
      ∙ ap (λ r. find_question req.id r.1) run
      ∙ accept-keeps draw req (consume draw.now req.id db) req.id
      ∙ consume-Consumed draw.now req.id db row found in
    ground (arith, gone_by)

some_same : {a b : String} → some a ≡ some b → a ≡ b
some_same e = cc

-- the token `t` lets its key pass, and nobody afterwards
abbrev Spent : String → ℤ → Db → String → Type 0
Spent key now db t =
    ((spend_token now key t db).0 ≡ ok tt)
    × ((now' : ℤ) (key' : String)
        → (spend_token now' key' t (spend_token now key t db).1).0
          ≡ err forbidden "Challenge token already used")

spend-Issued :
    (draw : Draw) (key : String) (now : ℤ) (db : Db)
    → Issued draw key db
    → ltb_ℤ (deadline draw.now) now ≡ false
    → Spent key now db draw.token
unfolding spend_token find_challenge_token ◌>>=◌
spend-Issued draw key now db issued soon = (
  ground (arith, issued, eq_refl key),
  λ now' key'. ground (
    arith,
    issued,
    eq_refl key,
    eq_refl draw.token,
    fetch-update (λ (t : ChallengeToken). t.token) (λ t. record t { consumed_at = some now })
        (λ r. refl) draw.token draw.token db.challenge_tokens,
  ),
)

accept-token :
    (draw : Draw) (req : VerifyChallengeRequest) (db : Db) (resp : ChallengeVerifyResponse)
    → (accept draw req db).0 ≡ ok resp
    → resp.token ≡ some draw.token
unfolding accept issue_challenge_token ◌>>=◌
accept-token draw req db resp h = ground arith

-- The token in the reply to an answer lets the key of the request pass the challenge gate of a sign-in
-- once, within five minutes, and is refused from then on, whatever the key.
pub verify_challenge-spend_token :
    (draw : Draw) (req : VerifyChallengeRequest) (db : Db) (resp : ChallengeVerifyResponse)
    (t : String) (now : ℤ)
    → (verify_challenge draw req db).0 ≡ ok resp
    → resp.token ≡ some t
    → ltb_ℤ (deadline draw.now) now ≡ false
    → ((spend_token now req.pubkey t (verify_challenge draw req db).1).0 ≡ ok tt)
      × ((now' : ℤ) (key' : String)
          → (spend_token now' key' t
              (spend_token now req.pubkey t (verify_challenge draw req db).1).1).0
            ≡ err forbidden "Challenge token already used")
verify_challenge-spend_token draw req db resp t now h given soon =
    let (row, found, run) = verify_challenge-Answers draw req db resp t h given in
    let accepted : (accept draw req (consume draw.now req.id db)).0 ≡ ok resp =
      ap (λ r. r.0) (sym run) ∙ h in
    let issued : Issued draw req.pubkey (verify_challenge draw req db).1 =
      subst (λ r. Issued draw req.pubkey r.1) (sym run)
        (accept-Issued draw req (consume draw.now req.id db) resp accepted) in
    let same : draw.token ≡ t =
      some_same (sym (accept-token draw req (consume draw.now req.id db) resp accepted) ∙ given) in
    subst (Spent req.pubkey now (verify_challenge draw req db).1) same
      (spend-Issued draw req.pubkey now (verify_challenge draw req db).1 issued soon)
