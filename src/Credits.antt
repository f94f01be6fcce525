-- ===== src/Credits.antt =====
-- internal/credits/credits.go: the one place where a balance is written, with its ledger row.
use kungfu.Base.{
  ℕ, ◌-◌, ◌^◌, Bool, true, false, ◌&&◌, ◌||◌, not, Option, none, some, ◌∷◌, ℤ, pos, negsuc, ◌+ℤ◌,
  ◌-ℤ◌, leb_ℤ, ltb_ℤ, if◌then◌else◌, lookup, put,
}
use kungfu.Tx.{
  Tx, ◌>>=◌, ◌>>◌, pure, fail, fail_if, or_fail, gets, modify, no_rows, credit_overflow,
  insufficient_credits, bad_amount,
}
use kungfu.Tables.{Db, LedgerType, Ref}

-- the int64 that a sum is after wrapping around; the operands are int64 themselves
abbrev pub wrap64 : ℤ → ℤ
wrap64 s =
    if ltb_ℤ s (negsuc (2 ^ 63 - 1))
    then s +ℤ pos (2 ^ 64)
    else if leb_ℤ (pos (2 ^ 63)) s
    then s -ℤ pos (2 ^ 64)
    else s

unfoldable pub check_add : ℤ → ℤ → Option ℤ
check_add a b =
    let s = wrap64 (a +ℤ b) in
    if ltb_ℤ (pos 0) b && ltb_ℤ s a || ltb_ℤ b (pos 0) && ltb_ℤ a s then none else some s

-- `record`: the row is locked, both writes are made, and the new balance is the result.
unfoldable pub record_entry : ℕ → LedgerType → ℤ → Option Ref → Bool → Tx Db ℤ
record_entry bot_id txn_type amount ref allow_negative = do
  db ← gets (λ (db : Db). db)
  bot ← or_fail (lookup bot_id db.bots) no_rows
  new_balance ← or_fail (check_add bot.balance amount) credit_overflow
  fail_if (ltb_ℤ new_balance (pos 0) && not allow_negative) insufficient_credits
  modify (λ (d : Db). record d {
    bots = put bot_id (record bot { balance = new_balance; updated_at = d.now }) d.bots;
    transactions =
        record {
          bot_id = bot_id;
          txn_type = txn_type;
          amount = amount;
          balance_after = new_balance;
          ref = ref;
          created_at = d.now;
        }
        ∷ d.transactions;
  })
  pure new_balance

-- `Record`
unfoldable pub record_credits : ℕ → LedgerType → ℤ → Option Ref → Tx Db ℤ
record_credits bot_id txn_type amount ref =
    if ltb_ℤ amount (pos 0)
    then record_entry bot_id txn_type amount ref false
    else record_entry bot_id txn_type amount ref true

-- `RecordAuthoritativeReversal`
unfoldable pub record_authoritative_reversal : ℕ → LedgerType → ℤ → Option Ref → Tx Db ℤ
record_authoritative_reversal bot_id txn_type amount ref =
    if leb_ℤ (pos 0) amount then fail bad_amount else record_entry bot_id txn_type amount ref true
