-- ===== src/Thread/Writes.antt =====
-- What the writes to rooms and memberships change, and who governs the rooms after them.
use kungfu.Base.{
  ℕ, String, ◌≡◌, refl, Bool, true, false, Option, none, some, List, ◌∷◌, lookup, put, fresh, find,
  update, arith, first-lookup,
}
use kungfu.Tables.{Time}
use kungfu.Tx.{
  Ensures, holds, Ensures-fail_if, Ensures-or_fail, Ensures-after, Ensures-last, or_fail-same,
  after,
}
use kungfu.Thread.{Rooms, ThreadRow, ThreadRole, is_open_status}
use kungfu.Thread.Store.{
  has_code, find_thread_by_code, generate_unique, insert_thread, new_thread, update_thread,
  insert_thread_member, new_member, find_thread_member, set_thread_member_role, with_role,
  is_member, close_thread_by_id, close_if, closed,
}
use kungfu.Thread.Laws.{Keeps}
use kungfu.Thread.Governed.{IsGoverned, IsGoverned-row, IsGoverned-closing}

abbrev pub Governed : Rooms → Type 0
Governed db = IsGoverned db.threads db.members

pub update_thread_lem :
    (id : ℕ) (f : ThreadRow → Time → ThreadRow) (db : Rooms)
    → Ensures
        (λ _ s.
          (t : ThreadRow) × (lookup id db.threads ≡ some t)
          × (s ≡ record db { threads = put id (f t db.now) db.threads }))
        (update_thread id f db)
unfolding update_thread after
update_thread_lem id f db = Ensures-or_fail _ _ _ _ λ t e. holds (t, e, refl)

pub generate_unique_same :
    (exists : String → Bool) (draws : List String) (db : Rooms)
    → Ensures (λ _ s. s ≡ db) (generate_unique exists draws db)
unfolding generate_unique
generate_unique_same exists draws db = Ensures-last _ λ a s e. (or_fail-same _ _ db a s e).0

pub insert_thread_lem :
    (code : String) (subject : Option String) (db : Rooms)
    → Ensures
        (λ id s.
          (id ≡ fresh db.threads)
          × (s ≡ record db {
            threads = (fresh db.threads, new_thread code subject db.now) ∷ db.threads;
          }))
        (insert_thread code subject db)
unfolding insert_thread after
insert_thread_lem code subject db = Ensures-fail_if _ _ _ _ λ g. holds (refl, refl)

pub insert_thread_member_lem :
    (id a : ℕ) (role : ThreadRole) (via : Option String) (db : Rooms)
    → Ensures
        (λ _ s.
          (find (is_member id a) db.members ≡ none)
          × (s ≡ record db { members = new_member id a role via db.now ∷ db.members }))
        (insert_thread_member id a role via db)
unfolding insert_thread_member after find_thread_member
insert_thread_member_lem id a role via db =
    Ensures-fail_if _ _ _ _ λ g. holds (ground (arith, g), refl)

pub set_thread_member_role_lem :
    (id a : ℕ) (role : ThreadRole) (db : Rooms)
    → Ensures
        (λ _ s. s ≡ record db { members = update (is_member id a) (with_role role) db.members })
        (set_thread_member_role id a role db)
unfolding set_thread_member_role after
set_thread_member_role_lem id a role db = Ensures-or_fail _ _ _ _ λ m e. holds refl

-- an update that keeps the status, and gives no key to a closed room
pub update_thread-Governed :
    (id : ℕ) (f : ThreadRow → Time → ThreadRow) (db : Rooms)
    → ((t : ThreadRow)
        → lookup id db.threads ≡ some t
        → (is_open_status (f t db.now).status ≡ is_open_status t.status)
          × (is_open_status t.status ≡ false → (f t db.now).key ≡ none))
    → Governed db
    → Keeps Governed (update_thread id f db)
unfolding update_thread after
update_thread-Governed id f db h v =
    Ensures-or_fail _ _ _ _
      λ t e. holds (IsGoverned-row id t (f t db.now) db.threads db.members e (h t e).0 (h t e).1 v)

-- the row that a code finds stands under its key
pub code-lookup :
    (code : String) (db : Rooms) (id : ℕ) (t : ThreadRow)
    → Governed db
    → find_thread_by_code code db ≡ some (id, t)
    → lookup id db.threads ≡ some t
unfolding find_thread_by_code
code-lookup code db id t v e = first-lookup (has_code code) id t db.threads v.keyed e

close_if-Governed :
    (b : Bool) (id : ℕ) (db : Rooms) → Governed db → Keeps Governed (close_if b id db)
unfolding after is_open_status
close_if-Governed false id db v = holds v
close_if-Governed true id db v = Ensures-after _ _ (update_thread_lem id closed db) λ _ s (t, l, e).
    rw e (holds (IsGoverned-closing id t (closed t db.now) db.threads db.members l refl refl v))

pub close_thread_by_id-Governed :
    (id : ℕ) (db : Rooms) → Governed db → Keeps Governed (close_thread_by_id id db)
unfolding close_thread_by_id after
close_thread_by_id-Governed id db v = close_if-Governed _ id db v
