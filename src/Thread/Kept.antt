-- ===== src/Thread/Kept.antt =====
-- Who governs the rooms is a lawful invariant, and the end of an account's memberships keeps it.
use kungfu.Base.{ℕ, refl, Bool, true, false}
use kungfu.Tx.{holds, Ensures-or_fail, Ensures-after, after}
use kungfu.Thread.{Rooms}
use kungfu.Thread.Obligations.{withdraw_receipts, void_assigns, forfeit_judgments_for_creator}
use kungfu.Thread.Cascade.{terminate_account_thread_memberships, admin_set_bot_status}
use kungfu.Thread.Entries.{advanced}
use kungfu.Thread.Laws.{Laws, Keeps}
use kungfu.Thread.Founding.{IsGoverned-close_orphans}
use kungfu.Thread.Governed.{IsGoverned-row}
use kungfu.Thread.Writes.{Governed}

pub Governed-Laws : Laws Governed
Governed-Laws = record {
  requests = λ db rows v. v;
  queue = λ db rows v. v;
  stores = λ db rows v. v;
  writes = λ db rows v. v;
  delivers = λ db rows v. v;
  waits = λ db now v. v;
  advances = λ db id t l v.
      IsGoverned-row id t (advanced t db.now) db.threads db.members l refl (λ c. v.keyless id t l c)
        v;
  asks = λ db r n v. v;
  ends = λ db p f w v. v;
  offers = λ db a v. v;
  moves = λ db id a b l w v. v;
}

terminate-Governed :
    (bot_id : ℕ) (db : Rooms)
    → Governed db
    → Keeps Governed (terminate_account_thread_memberships bot_id db)
unfolding terminate_account_thread_memberships withdraw_receipts void_assigns
    forfeit_judgments_for_creator after
terminate-Governed bot_id db v =
    holds (IsGoverned-close_orphans bot_id db.members db.now db.threads v)

pub admin_set_bot_status-Governed :
    (bot_id : ℕ) (enabled : Bool) (db : Rooms)
    → Governed db
    → Keeps Governed (admin_set_bot_status bot_id enabled db)
unfolding admin_set_bot_status after
admin_set_bot_status-Governed bot_id true db v = Ensures-or_fail _ _ _ _ λ a e. holds v
admin_set_bot_status-Governed bot_id false db v =
    Ensures-or_fail _ _ _ _
      λ a e. Ensures-after _ _ (terminate-Governed bot_id _ v) λ codes s k. holds k
