-- ===== src/Outbox/Due.antt =====
-- A pass of the worker leaves nothing due.
use voxply_server.Common.{
  ℕ, suc, zero, ◌+◌, ◌^◌, ◌<◌, ◌≡◌, none, some, ◌≤◌, All, arith, Option-cases, inl, inr, List, ◌∷◌,
  true, false, All-map, String, Option, length, [], ap, refl, eq_refl, subst, sym, Bool-cases,
}
use voxply_server.Exec.Rules.{Preserves, preserves_rules, bind_ok}
use voxply_server.Sql.{fetch_all, exists_where}
use voxply_server.Outbox.{
  take, load_if, load_envelope, load_found, attempt_loaded, tick, attempt, Outside, is_due,
  same_row, drop_row, record_failure, settle, failed_row, backoff_secs, FederatedDmRequest,
  fetch_all,
}
use voxply_server.Common.Int.{pos, add_i64}
use voxply_server.Sql.Laws.{All-delete_kept, All-update_cases}
use voxply_server.Exec.{◌>>=◌, for_each, ok}
use voxply_server.Db.{Db, OutboxRow, DmMessage}

-- the rows that are due are among those that remain to be tried
abbrev Remaining : ℕ → List OutboxRow → Db → Type 0
Remaining now rest db =
    All (λ r. is_due (pos now) r ≡ true → exists_where (λ x. same_row x r) rest ≡ true) db.dm_outbox

backoff_positive : (n secs : ℕ) → backoff_secs n ≡ some secs → (0 < secs) × (secs ≤ 86400)
unfolding backoff_secs
backoff_positive zero secs e = ground arith
backoff_positive (suc zero) secs e = ground arith
backoff_positive (suc (suc zero)) secs e = ground arith
backoff_positive (suc (suc (suc zero))) secs e = ground arith
backoff_positive (suc (suc (suc (suc zero)))) secs e = ground arith
backoff_positive (suc (suc (suc (suc (suc zero))))) secs e = ground arith
backoff_positive (suc (suc (suc (suc (suc (suc zero)))))) secs e = ground arith
backoff_positive (suc (suc (suc (suc (suc (suc (suc n))))))) secs e = absurd (ground arith)

-- a row that has failed is not due at that time
failed_row-due :
    (now : ℕ) (row : OutboxRow) (error : String) (r : OutboxRow)
    → now + 86400 < 2 ^ 63
    → is_due (pos now) (failed_row (pos now) row error r) ≡ false
unfolding failed_row is_due add_i64
failed_row-due now row error r small = elim (Option-cases (backoff_secs row.attempts)) [
  | inl e ↦ ground arith
  | inr (secs, e) ↦ let (some_time, most) = backoff_positive row.attempts secs e in ground arith
]

module _ {Attachment Envelope : Type 0} (outside : Outside Attachment Envelope) (now : ℕ)
    (small : now + 86400 < 2 ^ 63) where
  settle-Remaining :
      (row : OutboxRow) (rest : List OutboxRow) (o : Option String) (db : Db)
      → Remaining now (row ∷ rest) db
      → Remaining now rest (settle outside (pos now) row o db).1
  unfolding drop_row record_failure exists_where ◌>>=◌
  settle-Remaining row rest none db h =
      All-delete_kept _ (same_row row) db.dm_outbox
        (All-map _ _ (λ r k other due. ground (arith, k due)) db.dm_outbox h)
  settle-Remaining row rest (some error) db h =
      All-update_cases _ (same_row row) (failed_row (pos now) row error) db.dm_outbox (
        All-map _ _
          (λ r k. (
            λ other due. ground (arith, k due),
            λ _ due. absurd (ground (arith, failed_row-due now row error r small)),
          ))
          db.dm_outbox h)

  load_if-still : (db : Db) (o : Option DmMessage) → Preserves (λ t. t ≡ db) (load_if outside o)
  unfolding load_found
  load_if-still db none = search preserves_rules
  load_if-still db (some msg) = search preserves_rules depth 12

  load_envelope-still : (db : Db) (id : String) → (load_envelope outside id db).1 ≡ db
  unfolding load_envelope
  load_envelope-still db id =
      let still : Preserves (λ t. t ≡ db) (load_envelope outside id) =
        search (preserves_rules, load_if-still) in
      still.at db refl

  loaded-Remaining :
      (row : OutboxRow) (rest : List OutboxRow)
      (o : Option (FederatedDmRequest Attachment Envelope)) (db : Db)
      → Remaining now (row ∷ rest) db
      → Remaining now rest (attempt_loaded outside (pos now) row o db).1
  loaded-Remaining row rest none db h = settle-Remaining row rest none db h
  loaded-Remaining row rest (some e) db h =
      settle-Remaining row rest (outside.deliver row.recipient_hub_url e) db h

  attempt-Remaining :
      (row : OutboxRow) (rest : List OutboxRow) (db : Db)
      → (attempt outside (pos now) row db).0 ≡ ok tt
      → Remaining now (row ∷ rest) db
      → Remaining now rest (attempt outside (pos now) row db).1
  unfolding attempt
  attempt-Remaining row rest db success h =
      let (o, e, run) =
        bind_ok (load_envelope outside row.message_id) (attempt_loaded outside (pos now) row) db tt
          success in
      let after : Remaining now rest
          (attempt_loaded outside (pos now) row o (load_envelope outside row.message_id db).1).1 =
        loaded-Remaining row rest o _
          (subst (Remaining now (row ∷ rest)) (sym (load_envelope-still db row.message_id)) h) in
      subst (λ t. Remaining now rest t.1) (sym run) after

  all_attempts :
      (rows : List OutboxRow) (db : Db)
      → (for_each (attempt outside (pos now)) rows db).0 ≡ ok tt
      → Remaining now rows db
      → Remaining now [] (for_each (attempt outside (pos now)) rows db).1
  unfolding for_each
  all_attempts [] db success h = h
  all_attempts (row ∷ rows) db success h =
      let (o, e, run) =
        bind_ok (attempt outside (pos now) row) (λ _. for_each (attempt outside (pos now)) rows) db
          tt success in
      subst (λ t. Remaining now [] t.1) (sym run)
        (all_attempts rows _ (subst (λ t. t.0 ≡ ok tt) run success)
          (attempt-Remaining row rows db e h))

take_all : (n : ℕ) (rows : List OutboxRow) → length rows ≤ n → take n rows ≡ rows
unfolding take
take_all zero [] h = refl
take_all zero (r ∷ rows) h = absurd (omega arith)
take_all (suc n) [] h = refl
take_all (suc n) (r ∷ rows) h = ap (λ t. r ∷ t) (take_all n rows (omega arith))

due_among :
    (now : ℕ) (rows : List OutboxRow)
    → All
        (λ r.
          is_due (pos now) r ≡ true
          → exists_where (λ x. same_row x r) (fetch_all (is_due (pos now)) rows) ≡ true)
        rows
unfolding exists_where fetch_all
due_among now [] = tt
due_among now (r ∷ rows) = (
  λ due. ground (arith, eq_refl r.message_id, eq_refl r.recipient_hub_url),
  All-map _ _ (λ x k due. ground (arith, k due)) rows (due_among now rows),
)

-- Where at most 100 rows are due and no database error stops the pass, none is due after it, at the
-- same time: each has been delivered, dropped, put off or bounced. A day after `now` is below 2^63.
pub tick-is_due :
    {Attachment Envelope : Type 0} (outside : Outside Attachment Envelope) (now : ℕ) (db : Db)
    → now + 86400 < 2 ^ 63
    → length (fetch_all (is_due (pos now)) db.dm_outbox) ≤ 100
    → (tick outside (pos now) db).0 ≡ ok tt
    → All (λ r. is_due (pos now) r ≡ false) (tick outside (pos now) db).1.dm_outbox
unfolding tick exists_where ◌>>=◌
tick-is_due outside now db small few success =
    let rows = fetch_all (is_due (pos now)) db.dm_outbox in
    let all = take_all 100 rows few in
    let done =
      all_attempts outside now small rows db
        (subst (λ l. (for_each (attempt outside (pos now)) l db).0 ≡ ok tt) all success)
        (due_among now db.dm_outbox) in
    subst
      (λ l.
        All (λ r. is_due (pos now) r ≡ false)
          (for_each (attempt outside (pos now)) l db).1.dm_outbox)
      (sym all)
      (All-map _ _
        (λ r k. elim (Bool-cases (is_due (pos now) r)) [
          | inl t ↦ absurd (ground (arith, k t))
          | inr t ↦ t
        ])
        _ done)
