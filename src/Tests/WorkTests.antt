-- ===== src/Tests/WorkTests.antt =====
-- Invite codes, proofs of work and the outbox, on small data.
use voxply_server.Common.{
  ◌≡◌, refl, true, false, some, none, List, [], ◌∷◌, if◌then◌else◌, ℕ, ◌≤◌, All, arith, ltb, length,
  suc, ◌+◌,
}
use voxply_server.Common.Int.{ℤ, pos}
use voxply_server.Exec.{ok, ◌>>=◌, for_each}
use voxply_server.Sql.{fetch_optional, fetch_all}
use voxply_server.Db.{Db, InviteRow, OutboxRow, DmMessage}
use voxply_server.Invites.{find_invite}
use voxply_server.Invites.Uses.{redeem, redeem-max_uses}
use voxply_server.Pow.{
  leading_zero_bits, leading_zeros, hash_level, compute_security_level, verify_security_level,
  search_from, start_level, found,
}
use voxply_server.Pow.Level.{bits, zeros, leading_zero_bits-zeros}
use voxply_server.Pow.Search.{compute_security_level-verify, compute_security_level-finds}
use voxply_server.Outbox.{
  Outside, tick, is_due, take, attempt, load_envelope, load_found, record_failure,
}
use voxply_server.Outbox.Attempts.{IsScheduled, tick-IsScheduled}
use voxply_server.Outbox.Due.{tick-is_due}
use voxply_server.Tests.PairingTests.{crypto}
use voxply_server.Tests.Sample.{hub}

abbrev invite : InviteRow
invite = record {
  code = "c0de";
  created_by = "alice";
  max_uses = some (pos 2);
  uses = pos 0;
  expires_at = some (pos 50);
  created_at = pos 1;
}

abbrev inviting : Db
inviting = record hub { invites = invite ∷ [] }

abbrev times : List ℤ
times = pos 10 ∷ pos 20 ∷ pos 30 ∷ []

invite_found : find_invite "c0de" inviting ≡ some invite
unfolding find_invite fetch_optional
invite_found = refl

redeem-max_uses_example :
    (redeem times "c0de" inviting).0 ≡ (if ltb (length times) 2 then length times else 2)
redeem-max_uses_example =
    redeem-max_uses times "c0de" inviting invite 2 invite_found refl refl (refl, (refl, (refl, tt)))

abbrev hash : List ℕ
hash = 0 ∷ 31 ∷ []

leading_zero_bits-zeros_example : leading_zero_bits hash ≡ zeros (bits hash)
leading_zero_bits-zeros_example = leading_zero_bits-zeros hash (omega arith, (omega arith, tt))

level_found : compute_security_level crypto "key" 1 0 8 ≡ found 1 11
unfolding compute_security_level search_from start_level hash_level leading_zero_bits leading_zeros
level_found = refl

compute_security_level-verify_example :
    (11 ≡ hash_level crypto "key" 1) × (verify_security_level crypto "key" 1 8 ≡ true)
compute_security_level-verify_example =
    compute_security_level-verify crypto "key" 1 0 8 1 11 level_found

high_enough : 8 ≤ hash_level crypto "key" (0 + suc 0)
unfolding hash_level leading_zero_bits leading_zeros
high_enough = omega arith

compute_security_level-finds_example :
    (n : ℕ) × (l : ℕ) × (compute_security_level crypto "key" 1 0 8 ≡ found n l) × (n ≤ 0 + suc 0)
compute_security_level-finds_example =
    compute_security_level-finds crypto "key" 1 0 8 0 (omega arith) (omega arith) (omega arith)
      high_enough

-- a network on which every delivery fails
abbrev offline : Outside ℕ ℕ
offline = record {
  parse_attachments = λ text. none;
  parse_envelope = λ text. none;
  deliver = λ url request. some "unreachable";
}

abbrev waiting : OutboxRow
waiting = record {
  message_id = "message1";
  recipient_hub_url = "hub.example";
  attempts = 7;
  next_attempt_at = pos 90;
  last_error = none;
  bounced_at = none;
}

abbrev message : DmMessage
message = record {
  id = "message1";
  conversation_id = "talk";
  sender = "alice";
  content = some "hello";
  attachments = none;
  signature = none;
  created_at = pos 5;
  is_encrypted = false;
  ciphertext_json = none;
}

abbrev sending : Db
sending = record hub {
  dm_outbox = waiting ∷ [];
  dm_messages = message ∷ [];
  conversations = record { id = "talk"; conv_type = "dm" } ∷ [];
}

sending-IsScheduled : IsScheduled sending
sending-IsScheduled = record {
  rows = (record { attempts = omega arith; left = λ e. omega arith }, tt);
}

tick-IsScheduled_example : IsScheduled (tick offline (pos 100) sending).1
tick-IsScheduled_example = tick-IsScheduled offline (pos 100) sending sending-IsScheduled

few_due : length (fetch_all (is_due (pos 100)) sending.dm_outbox) ≤ 100
unfolding is_due fetch_all
few_due = omega arith

tick_succeeds : (tick offline (pos 100) sending).0 ≡ ok tt
unfolding tick take is_due attempt load_envelope load_found record_failure for_each fetch_all
    fetch_optional ◌>>=◌
tick_succeeds = refl

tick-is_due_example :
    All (λ r. is_due (pos 100) r ≡ false) (tick offline (pos 100) sending).1.dm_outbox
tick-is_due_example = tick-is_due offline 100 sending (omega arith) few_due tick_succeeds
