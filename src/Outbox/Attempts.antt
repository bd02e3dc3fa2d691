-- ===== src/Outbox/Attempts.antt =====
-- No delivery is tried more often than the schedule says.
use voxply_server.Common.{
  ℕ, suc, zero, ◌≡◌, none, ◌≤◌, All, arith, Option-cases, inl, inr, List, [], ◌∷◌, true, Option,
  some, String, All-map,
}
use voxply_server.Exec.Rules.{
  Preserves, preserves_rules, gets_then, Preserves-at, Preserves-modify, Preserves-for_each-All,
}
use voxply_server.Sql.Laws.{All-delete, All-update, All-fetch}
use voxply_server.Db.{Db, OutboxRow, DmMessage}
use voxply_server.Outbox.{
  Outside, FederatedDmRequest, attempt, tick, take, is_due, ℤ, failed_row, load_envelope, drop_row,
  load_found, backoff_secs, record_failure, settle, attempt_loaded, load_if,
}

-- at most eight attempts, and only a bounced row has had all
pub record Scheduled (r : OutboxRow) : Type 0 where
  pub attempts : r.attempts ≤ 8
  pub left : r.bounced_at ≡ none → r.attempts ≤ 7

pub record IsScheduled (db : Db) : Type 0 where
  pub rows : All Scheduled db.dm_outbox

backoff_end : (n : ℕ) → n ≤ 7 → backoff_secs n ≡ none → n ≡ 7
unfolding backoff_secs
backoff_end zero h e = absurd (ground arith)
backoff_end (suc zero) h e = absurd (ground arith)
backoff_end (suc (suc zero)) h e = absurd (ground arith)
backoff_end (suc (suc (suc zero))) h e = absurd (ground arith)
backoff_end (suc (suc (suc (suc zero)))) h e = absurd (ground arith)
backoff_end (suc (suc (suc (suc (suc zero))))) h e = absurd (ground arith)
backoff_end (suc (suc (suc (suc (suc (suc zero)))))) h e = absurd (ground arith)
backoff_end (suc (suc (suc (suc (suc (suc (suc n))))))) h e = omega arith

backoff_within : (n secs : ℕ) → n ≤ 7 → backoff_secs n ≡ some secs → n ≤ 6
unfolding backoff_secs
backoff_within (suc (suc (suc (suc (suc (suc (suc n))))))) secs h e = absurd (ground arith)
backoff_within n secs h e = omega arith

failed_row-Scheduled :
    (now : ℤ) (row : OutboxRow) (error : String) (r : OutboxRow)
    → row.attempts ≤ 7
    → Scheduled (failed_row now row error r)
unfolding failed_row
failed_row-Scheduled now row error r h = elim (Option-cases (backoff_secs row.attempts)) [
  | inl e ↦
      rw (failed_row, e) (record { attempts = omega arith; left = λ b. absurd (ground arith) })
  | inr (secs, e) ↦
      let few = backoff_within row.attempts secs h e in
      rw (failed_row, e) (record { attempts = omega arith; left = λ b. omega arith })
]

module _ {Attachment Envelope : Type 0} (outside : Outside Attachment Envelope) where
  settle-IsScheduled :
      (now : ℤ) (row : OutboxRow) (o : Option String)
      → row.attempts ≤ 7
      → Preserves IsScheduled (settle outside now row o)
  unfolding drop_row record_failure
  settle-IsScheduled now row none h =
      Preserves-modify _ λ s k. record { rows = All-delete Scheduled _ s.dm_outbox k.rows }
  settle-IsScheduled now row (some error) h = Preserves-modify _ λ s k. record {
    rows =
        All-update Scheduled _ _ s.dm_outbox (λ r _ _. failed_row-Scheduled now row error r h)
          k.rows;
  }

  loaded-IsScheduled :
      (now : ℤ) (row : OutboxRow) (o : Option (FederatedDmRequest Attachment Envelope))
      → row.attempts ≤ 7
      → Preserves IsScheduled (attempt_loaded outside now row o)
  loaded-IsScheduled now row none h = settle-IsScheduled now row none h
  loaded-IsScheduled now row (some e) h = settle-IsScheduled now row _ h

  load-IsScheduled : (o : Option DmMessage) → Preserves IsScheduled (load_if outside o)
  unfolding load_found
  load-IsScheduled none = search preserves_rules
  load-IsScheduled (some msg) = search preserves_rules

  attempt-IsScheduled :
      (now : ℤ) (row : OutboxRow)
      → row.attempts ≤ 7
      → Preserves IsScheduled (attempt outside now row)
  unfolding attempt load_envelope
  attempt-IsScheduled now row h =
      search (preserves_rules, load-IsScheduled, loaded-IsScheduled) depth 12

  take-All : (n : ℕ) (rs : List OutboxRow) (P : OutboxRow → Type 0) → All P rs → All P (take n rs)
  unfolding take
  take-All zero rs P h = tt
  take-All (suc n) [] P h = tt
  take-All (suc n) (r ∷ rs) P h = (h.0, take-All n rs P h.1)

  due_attempts : (now : ℤ) (r : OutboxRow) → Scheduled r → is_due now r ≡ true → r.attempts ≤ 7
  unfolding is_due
  due_attempts now r h e = h.left (ground arith)

  -- A pass of the worker, whatever the deliveries do and also if it stops early, keeps every row at
  -- eight attempts at most, and one that has not bounced at seven at most.
  pub tick-IsScheduled : (now : ℤ) (db : Db) → IsScheduled db → IsScheduled (tick outside now db).1
  unfolding tick
  tick-IsScheduled now db h =
      (gets_then _ _ db (
          Preserves-at (
            Preserves-for_each-All (λ r. r.attempts ≤ 7) _ _
              (take-All 100 _ _ (
                All-fetch _ (is_due now) db.dm_outbox
                  (All-map _ _ (due_attempts now) db.dm_outbox h.rows)))
              (attempt-IsScheduled now)))).at
        h
