-- ===== src/Tests/Money.antt =====
-- The ledger on the concrete databases.
use kungfu.Base.{
  ℕ, ◌-◌, ◌^◌, ◌≡◌, refl, false, none, some, [], ◌∷◌, arith, lookup, put, ℤ, pos, negsuc, ◌+ℤ◌,
  if◌then◌else◌, ◌==◌, ◌≤ℤ◌,
}
use kungfu.Tx.{ok, Ensures_elim, running}
use kungfu.Tables.{Db, BotRow, other_type}
use kungfu.Credits.{check_add, record_entry, record_credits}
use kungfu.Ledger.{IsExplained, check_add_lem, record_credits-debit, record_entry-IsExplained}
use kungfu.Tests.Data.{db}

abbrev opening : ℕ → ℤ
opening id = if id == 1 then pos 1000 else pos 5

db-IsExplained : IsExplained opening db
unfolding lookup
db-IsExplained = record {
  in_range = λ id bot e. (ground arith, ground arith);
  chained = λ id bot e. ground arith;
}

check_add_lem_example : check_add (pos (2 ^ 63 - 1)) (pos 1) ≡ none
unfolding ◌+ℤ◌
check_add_lem_example =
    check_add_lem (pos (2 ^ 63 - 1)) (pos 1) (omega arith, omega arith) (omega arith, omega arith)

abbrev debited_db : Db
debited_db = record db {
  bots =
      (1, record { name = "publisher"; balance = pos 970; updated_at = 100 })
      ∷ (2, record { name = "agent"; balance = pos 5; updated_at = 0 })
      ∷ [];
  transactions =
      record {
        bot_id = 1;
        txn_type = other_type "spend";
        amount = negsuc 29;
        balance_after = pos 970;
        ref = none;
        created_at = 100;
      }
      ∷ [];
}

debits : record_credits 1 (other_type "spend") (negsuc 29) none db ≡ ok (pos 970, debited_db)
unfolding record_credits record_entry check_add lookup put ◌+ℤ◌ running
debits = refl

record_credits-debit_example :
    (pos 0 ≤ℤ pos 970)
    × ((bot : BotRow) × (lookup 1 debited_db.bots ≡ some bot) × (bot.balance ≡ pos 970))
record_credits-debit_example =
    Ensures_elim _ (record_credits-debit 1 (other_type "spend") (negsuc 29) none db (omega arith))
      debits

enters : record_entry 1 (other_type "spend") (negsuc 29) none false db ≡ ok (pos 970, debited_db)
unfolding record_entry check_add lookup put ◌+ℤ◌ running
enters = refl

record_entry-IsExplained_example : IsExplained opening debited_db
record_entry-IsExplained_example =
    Ensures_elim _
      (record_entry-IsExplained opening 1 (other_type "spend") (negsuc 29) none false db
        (omega arith, omega arith) db-IsExplained)
      enters
