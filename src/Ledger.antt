-- ===== src/Ledger.antt =====
-- internal/credits/credits.go: the ledger against the balances.
use kungfu.Base.{
  ℕ, ◌-◌, ◌^◌, ◌≡◌, refl, sym, Bool, true, false, ◌&&◌, Option, none, some, arith, List, [], ◌∷◌,
  lookup, put, lookup-put_self, put-cases, ◌==◌, if◌then◌else◌, ℤ, pos, negsuc, ltb_ℤ, leb_ℤ, ◌+ℤ◌,
  ◌≤ℤ◌, ◌<ℤ◌, +ℤ_parts, -ℤ_parts, Bool-cases, inl, inr, subst, eq_refl,
}
use kungfu.Tx.{Ensures, holds, Ensures-ok, Ensures-or_fail, Ensures-fail_if}
use kungfu.Tables.{Db, BotRow, TransactionRow, LedgerType, Ref}
use kungfu.Credits.{check_add, record_entry, record_credits}

abbrev pub IsInt64 : ℤ → Type 0
IsInt64 a = (negsuc (2 ^ 63 - 1) ≤ℤ a) × (a <ℤ pos (2 ^ 63))

abbrev pub is_int64 : ℤ → Bool
is_int64 a = leb_ℤ (negsuc (2 ^ 63 - 1)) a && ltb_ℤ a (pos (2 ^ 63))

-- Of two int64, the checked sum is their sum where that is an int64, and an error elsewhere.
pub check_add_lem :
    (a b : ℤ)
    → IsInt64 a
    → IsInt64 b
    → check_add a b ≡ (if is_int64 (a +ℤ b) then some (a +ℤ b) else none)
unfolding check_add
check_add_lem a b p q =
    ground (arith, +ℤ_parts a b, -ℤ_parts (a +ℤ b) (pos (2 ^ 64)), +ℤ_parts (a +ℤ b) (pos (2 ^ 64)))

is_int64_lem : (a : ℤ) → is_int64 a ≡ true → IsInt64 a
is_int64_lem a h = (ground arith, ground arith)

check_add_sum :
    (a b s : ℤ) → IsInt64 a → IsInt64 b → check_add a b ≡ some s → (s ≡ a +ℤ b) × IsInt64 s
check_add_sum a b s p q h = elim (Bool-cases (is_int64 (a +ℤ b))) [
  | inl y ↦
      let same : s ≡ a +ℤ b = ground (arith, check_add_lem a b p q) in
      (same, subst IsInt64 (sym same) (is_int64_lem _ y))
  | inr n ↦ absurd (ground (arith, check_add_lem a b p q))
]

-- The transactions of an account, the newest first, lead from `opening` to `balance`: each one's
-- balance_after is the balance before it and its amount.
abbrev pub IsChained : ℕ → ℤ → List TransactionRow → ℤ → Type 0
IsChained bot_id opening [] balance = balance ≡ opening
IsChained bot_id opening (t ∷ ts) balance =
    if t.bot_id == bot_id
    then ((before : ℤ) × (t.balance_after ≡ balance)
        × (balance ≡ before +ℤ t.amount)
        × IsChained bot_id opening ts before)
    else IsChained bot_id opening ts balance

-- Every account's balance is an int64, and its ledger explains it.
pub record IsExplained (opening : ℕ → ℤ) (db : Db) : Type 0 where
  pub in_range : (id : ℕ) (bot : BotRow) → lookup id db.bots ≡ some bot → IsInt64 bot.balance
  pub chained :
      (id : ℕ) (bot : BotRow)
      → lookup id db.bots ≡ some bot
      → IsChained id (opening id) db.transactions bot.balance

IsChained-entry :
    (j : ℕ) (opening before after_ : ℤ) (t : TransactionRow) (ts : List TransactionRow)
    → t.bot_id ≡ j
    → t.balance_after ≡ after_
    → after_ ≡ before +ℤ t.amount
    → IsChained j opening ts before
    → IsChained j opening (t ∷ ts) after_
IsChained-entry j opening before after_ t ts same e sum h = rw (same, eq_refl j) (before, e, sum, h)

IsChained-other :
    (k : ℕ) (opening balance : ℤ) (t : TransactionRow) (ts : List TransactionRow)
    → (t.bot_id == k) ≡ false
    → IsChained k opening ts balance
    → IsChained k opening (t ∷ ts) balance
IsChained-other k opening balance t ts other h = rw other h

abbrev entry_of : ℕ → LedgerType → ℤ → ℤ → Option Ref → Db → TransactionRow
entry_of bot_id ty amount v ref db = record {
  bot_id = bot_id;
  txn_type = ty;
  amount = amount;
  balance_after = v;
  ref = ref;
  created_at = db.now;
}

-- Where every account's balance is an int64 that its transactions lead to, each with the balance
-- after it, this still holds after an entry of an int64 amount that succeeds.
pub record_entry-IsExplained :
    (opening : ℕ → ℤ) (bot_id : ℕ) (ty : LedgerType) (amount : ℤ) (ref : Option Ref) (allow : Bool)
    (db : Db)
    → IsInt64 amount
    → IsExplained opening db
    → Ensures (λ _ db'. IsExplained opening db') (record_entry bot_id ty amount ref allow db)
unfolding record_entry
record_entry-IsExplained opening bot_id ty amount ref allow db r h = Ensures-ok _ _ _ (
    Ensures-or_fail _ _ _ _ λ bot e.
      Ensures-or_fail _ _ _ _
        λ v sum. Ensures-fail_if _ _ _ _ λ g. Ensures-ok _ _ _ (holds (explained bot v e sum)))
  where
    explained :
        (bot : BotRow) (v : ℤ)
        → lookup bot_id db.bots ≡ some bot
        → check_add bot.balance amount ≡ some v
        → IsExplained opening (record db {
          bots = put bot_id (record bot { balance = v; updated_at = db.now }) db.bots;
          transactions = entry_of bot_id ty amount v ref db ∷ db.transactions;
        })
    explained bot v e sum =
        let (total, range) = check_add_sum bot.balance amount v (h.in_range bot_id bot e) r sum in
        record {
          in_range = λ id b f.
              elim (put-cases bot_id id (record bot { balance = v; updated_at = db.now }) bot b
                db.bots e f) [
                  | inl (same, new) ↦ subst (λ x. IsInt64 x.balance) (sym new) range
                  | inr (other, old) ↦ h.in_range id b old
                ];
          chained = λ id b f.
              elim (put-cases bot_id id (record bot { balance = v; updated_at = db.now }) bot b
                db.bots e f) [
                  | inl (same, new) ↦
                      subst
                        (λ x.
                          IsChained id (opening id)
                            (entry_of bot_id ty amount v ref db ∷ db.transactions) x.balance)
                        (sym new)
                        (IsChained-entry id (opening id) bot.balance v
                          (entry_of bot_id ty amount v ref db) db.transactions (sym same) refl total
                          (subst (λ k. IsChained k (opening k) db.transactions bot.balance)
                            (sym same) (h.chained bot_id bot e)))
                  | inr (other, old) ↦
                      IsChained-other id (opening id) b.balance (entry_of bot_id ty amount v ref db)
                        db.transactions other (h.chained id b old)
                ];
        }

-- A debit that succeeds answers with the account's new balance, which is not negative.
pub record_credits-debit :
    (bot_id : ℕ) (ty : LedgerType) (amount : ℤ) (ref : Option Ref) (db : Db)
    → amount <ℤ pos 0
    → Ensures
        (λ v db'.
          (pos 0 ≤ℤ v) × ((bot : BotRow) × (lookup bot_id db'.bots ≡ some bot) × (bot.balance ≡ v)))
        (record_credits bot_id ty amount ref db)
unfolding record_credits record_entry
record_credits-debit bot_id ty amount ref db debit =
    let negative : ltb_ℤ amount (pos 0) ≡ true = ground arith in
    rw negative (
      Ensures-ok _ _ _ (
        Ensures-or_fail _ _ _ _ λ bot e. Ensures-or_fail _ _ _ _ λ v sum.
          Ensures-fail_if _ _ _ _ λ g.
            Ensures-ok _ _ _
              (holds (ground arith, (_, lookup-put_self bot_id _ bot db.bots e, refl)))))
