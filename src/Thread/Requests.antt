-- ===== src/Thread/Requests.antt =====
-- internal/service/thread_state.go: the identities of the speaking requests, and their tools.
use kungfu.Base.{
  ℕ, String, Option, none, some, List, [], ◌∷◌, map, leb, if◌then◌else◌, ℤ, pos, negsuc, suc,
}
use kungfu.Tx.{Tx}
use kungfu.Thread.{Rooms, Facts}
use kungfu.Thread.Replay.{Encoding, run_thread_action, run_thread_action_compat}
use kungfu.Thread.Speech.{Post, AssignSpec, PostChecks, post_entry, handle_receipt, retract_entry}
use Prim.Native.String.{◌++◌ as ◌+++◌}

unfoldable pub insert_id : ℕ → List ℕ → List ℕ
insert_id a [] = a ∷ []
insert_id a (x ∷ xs) = let rest = insert_id a xs in if leb a x then a ∷ x ∷ xs else x ∷ rest

-- sort.Slice
unfoldable pub sort_ids : List ℕ → List ℕ
sort_ids [] = []
sort_ids (x ∷ xs) = insert_id x (sort_ids xs)

-- strings.Join
unfoldable pub join : String → List String → String
join sep [] = ""
join sep (s ∷ []) = s
join sep (s ∷ t ∷ rest) = s +++ (sep +++ join sep (t ∷ rest))

-- the document that is hashed: every field of the request, the asked ids sorted
unfoldable pub post_document : Post → Post
post_document p = record p { ask = elim p.ask [ none ↦ none | some ids ↦ some (sort_ids ids) ] }

-- json.Marshal of a document
pub record PostEncoding : Type 0 where
  pub encoding : Encoding
  pub document_json : Post → String

abbrev pub separator : String
separator = "\u{1f}"

module _ (enc : Encoding) where
  open enc use {sha256_hex, decimal}

  abbrev signed : ℤ → String
  signed (pos n) = decimal n
  signed (negsuc n) = "-" +++ decimal (suc n)

  abbrev reply_marker : Option ℕ → String
  reply_marker none = ""
  reply_marker (some id) = decimal id

  abbrev ask_marker : Option (List ℕ) → String
  ask_marker none = "absent"
  ask_marker (some ids) = "present"

  abbrev ask_list : Option (List ℕ) → List ℕ
  ask_list none = []
  ask_list (some ids) = sort_ids ids

  unfoldable pub nums_join : List ℕ → String
  nums_join ns = join "," (map decimal ns)

  abbrev assign_marker : Option AssignSpec → String
  assign_marker none = "none"
  assign_marker (some a) = join "," (
      decimal a.to
      ∷ a.requirements
      ∷ a.output_schema
      ∷ signed a.deliver_due_s
      ∷ signed a.judge_due_s
      ∷ [])

  unfoldable pub legacy_post_hash : Post → String
  legacy_post_hash p = sha256_hex (
      join separator (
        "v1"
        ∷ p.thread_code
        ∷ p.content
        ∷ p.memory_code
        ∷ p.summary
        ∷ reply_marker p.reply_to
        ∷ ask_marker p.ask
        ∷ nums_join (ask_list p.ask)
        ∷ assign_marker p.assign
        ∷ []))

  -- `ThreadHandle`
  unfoldable pub thread_handle : ℕ → String → ℕ → String → String → Tx Rooms Facts
  thread_handle bot_id code entry_id note idem_key =
      run_thread_action bot_id "thread_handle" idem_key
        (sha256_hex (join separator ("v1" ∷ code ∷ decimal entry_id ∷ note ∷ [])))
        (handle_receipt bot_id code entry_id note)

  -- `ThreadRetract`
  unfoldable pub thread_retract : ℕ → String → ℕ → String → Tx Rooms Facts
  thread_retract bot_id code entry_id idem_key =
      run_thread_action bot_id "thread_retract" idem_key
        (sha256_hex (join separator ("v1" ∷ code ∷ decimal entry_id ∷ [])))
        (retract_entry bot_id code entry_id)

-- the current identity
unfoldable pub post_hash : PostEncoding → Post → String
post_hash e p = e.encoding.sha256_hex (e.document_json (post_document p))

-- `ThreadPost`
unfoldable pub thread_post :
    PostEncoding → PostChecks → ℕ → Post → String → List String → Tx Rooms Facts
thread_post e checks bot_id p idem_key draws =
    run_thread_action_compat bot_id "thread_post" idem_key (post_hash e p)
      (legacy_post_hash e.encoding p) (post_entry e.encoding checks bot_id p draws)
