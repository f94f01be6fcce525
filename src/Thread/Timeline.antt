-- ===== src/Thread/Timeline.antt =====
-- What the calls of the thread and assignment tools do to assignments and receipts over time.
use kungfu.Base.{List}
use kungfu.Thread.{Rooms}
use kungfu.Thread.Replay.{Encoding}
use kungfu.Thread.Progress.{IsProgress, IsProgress-Laws, IsProgress-refl}
use kungfu.Thread.Free.{start_room-Keeps, issue_key-Keeps, revoke_key-Keeps, join_room-Keeps}
use kungfu.Thread.Leaving.{
  leave_room-Keeps, remove_member-Keeps, change_role-Keeps, close_room-Keeps,
  admin_set_bot_status-Keeps,
}
use kungfu.Thread.Laws.{FreeLaws}
use kungfu.Thread.System.{Request, Setup, perform_all, RoomLaws, perform_all-Keeps}

Free-RoomLaws : (I : Rooms → Type 0) (L : FreeLaws I) (enc : Encoding) → RoomLaws enc I
Free-RoomLaws I L enc = record {
  starting = start_room-Keeps I L enc;
  keying = issue_key-Keeps I L enc;
  unkeying = revoke_key-Keeps I L enc;
  joining = join_room-Keeps I L enc;
  leaving = leave_room-Keeps I L enc;
  removing = remove_member-Keeps I L enc;
  changing = change_role-Keeps I L enc;
  closing = close_room-Keeps I L enc;
  disabling = admin_set_bot_status-Keeps I L;
}

-- Every sequence of calls of the thread and assignment tools, of changes of an account's status, of
-- deadline sweeps and of passing time implements the lifecycle: every assignment is still there at
-- the end, on the terms it was created with, in its state or in one that open → taken → delivered →
-- (adopted, rejected, undecided) or an exit (dropped, timed_out, voided) leads to from it; and every
-- receipt is still there for its entry and member, unchanged or, if it was pending, ended.
pub perform_all-IsProgress :
    (s : Setup) (rs : List Request) (db : Rooms) → IsProgress db (perform_all s rs db)
perform_all-IsProgress s rs db =
    perform_all-Keeps (IsProgress db) (IsProgress-Laws db).laws s
      (Free-RoomLaws (IsProgress db) (IsProgress-Laws db) s.encoding.encoding) rs db
      (IsProgress-refl db)
