-- ===== src/Tests/Sweep.antt =====
-- A pass of the reclaimer over a concrete database.
use kungfu.Base.{ℕ, ◌≡◌, true, false, some, lookup, arith}
use kungfu.Tables.{Db, ClaimRow}
use kungfu.Repository.{is_expired_active}
use kungfu.Service.Claim.{expire_claims}
use kungfu.Audit.Sweep.{IsSound, expire_claims_complete}
use kungfu.Tests.Data.{db, db-IsBalanced}

db-IsSound : IsSound db
unfolding lookup
db-IsSound = record {
  balanced = db-IsBalanced;
  claims_checked = λ id c e. (ground arith, ground arith);
}

expire_claims_complete_example :
    (m : ℕ) × (db' : Db) × (expire_claims 700 100 db ≡ (m, true, db'))
    × IsSound db'
    × ((j : ℕ) (c : ClaimRow) → lookup j db'.claims ≡ some c → is_expired_active 700 c ≡ false)
expire_claims_complete_example =
    expire_claims_complete 700 100 db db-IsSound (omega arith) (omega arith)
