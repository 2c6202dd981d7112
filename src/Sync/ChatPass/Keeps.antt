-- ===== src/Sync/ChatPass/Keeps.antt =====
-- service.go: what the writes of chats keep, a pass over the chats keeps.
use personal_context.Base.{
  ◌≡◌, Bool, true, false, List, [], ◌∷◌, Option, none, some, Result, ok, inl, inr, Bool-cases,
  length, ltb, if◌then◌else◌,
}
use personal_context.Text.{Text}
use personal_context.Time.{Time}
use personal_context.Repository.Chats.{ChatSession, UpsertChatSessionInput, CreateChatItemInput}
use personal_context.Repository.Errors.{RepositoryError}
use personal_context.Repository.Interface.{ChatRepository}
use personal_context.Sync.Bundle.{Winner, local, cloud, neither}
use personal_context.Sync.Outside.{Outside, Content}
use personal_context.Sync.Run.{Run, stored, chat_resolved, chat_source_taken, done}
use personal_context.Sync.Run.Keeps.{
  Order, Keeps, bind-Keeps, writing-Keeps, reading-Keeps, pure_call-Keeps, give-Keeps, fail-Keeps,
  and_then-keeps,
}
use personal_context.Sync.World.{World}
use personal_context.Sync.Files.{synced_chat_raw_file_permission}
use personal_context.Sync.Files.Keeps.{
  acting-Keeps, looking-Keeps, upload_data_file_if_present-Keeps,
  write_reader_to_path_with_perm-Keeps,
}
use personal_context.Sync.Pass.{same_winner, found_or_none}
use personal_context.Sync.ChatPass.{
  ChatRawSyncReport, note_local, note_cloud, download_or_none, store_downloaded,
  download_chat_source_if_present, transfer_key, transfer_chat_raw_source, transfer_if, write_chat,
  write_chat_if_won, sync_chat_at, check_not_taken, sync_chat, sync_chats,
  sync_changed_chats_directed, changed_sessions, resolve_chat_winner_for_direction, is_taken_by,
}

-- The writes of chats stand in a relation to the state before.
unfoldable pub ChatWrites : {W : Type 0} → (W → W → Type 0) → ChatRepository W → Type 0
ChatWrites {W} R chats =
    (i : UpsertChatSessionInput) (items : List CreateChatItemInput) (w w' : W)
    → chats.upsert_chat_session_with_items i items w ≡ ok w'
    → R w w'

module _ {L C O : Type 0} {R : World L C O → World L C O → Type 0} (o : Order R)
    (free : (w : World L C O) (outside : O) → R w (record w { outside = outside }))
    (os : Outside O) where
  store_downloaded-Keeps :
      (path : Text) (body : Option Content) → Keeps R (store_downloaded os path body)
  store_downloaded-Keeps path none = give-Keeps o false
  store_downloaded-Keeps path (some body) =
      bind-Keeps o
        (write_reader_to_path_with_perm-Keeps o free os path body synced_chat_raw_file_permission)
        (λ _. give-Keeps o true)

  download_chat_source-Keeps :
      (key path : Text) → Keeps R (download_chat_source_if_present os key path)
  unfolding download_chat_source_if_present
  download_chat_source-Keeps key path =
      bind-Keeps o (acting-Keeps o free (download_or_none os key)) (store_downloaded-Keeps path)

  upload_key-Keeps :
      (s : ChatSession) (report : ChatRawSyncReport) (key : Text)
      → Keeps R (transfer_key os local s report (some key))
  upload_key-Keeps s report key =
      bind-Keeps o (looking-Keeps o free (os.resolve_chat_source_path s.id key)) (λ path.
        bind-Keeps o (upload_data_file_if_present-Keeps o free os key path)
          (λ uploaded. give-Keeps o (note_local s.id uploaded report)))

  transfer_key-Keeps :
      (side : Winner) (s : ChatSession) (report : ChatRawSyncReport) (key : Option Text)
      → Keeps R (transfer_key os side s report key)
  transfer_key-Keeps side s report none = give-Keeps o report
  transfer_key-Keeps cloud s report (some key) =
      bind-Keeps o (looking-Keeps o free (os.resolve_chat_source_path s.id key)) (λ path.
        bind-Keeps o (download_chat_source-Keeps key path)
          (λ there. give-Keeps o (note_cloud s.id there report)))
  transfer_key-Keeps local s report (some key) = upload_key-Keeps s report key
  transfer_key-Keeps neither s report (some key) = upload_key-Keeps s report key

  module _ (source target : ChatRepository (World L C O)) (side : Winner)
      (writes : ChatWrites R target) where
    transfer_if-Keeps :
        (wanted : Bool) (s : ChatSession) (report : ChatRawSyncReport)
        → Keeps R (transfer_if os source target side wanted s report)
    unfolding transfer_chat_raw_source
    transfer_if-Keeps true s report = transfer_key-Keeps side s report s.raw_source_key
    transfer_if-Keeps false s report = give-Keeps o report

    write_chat-Keeps :
        (s : ChatSession) (report : ChatRawSyncReport)
        → Keeps R (write_chat os source target side s report)
    unfolding write_chat ChatWrites
    write_chat-Keeps s report = bind-Keeps o (transfer_if-Keeps _ s report) (λ report'.
        bind-Keeps o (reading-Keeps o stored (source.list_chat_items s.id)) (λ items.
          bind-Keeps o (writing-Keeps o stored _ (writes _ _))
            (λ _. transfer_if-Keeps _ s report')))

    write_chat_if_won-Keeps :
        (s : ChatSession) (report : ChatRawSyncReport) (winner : Winner)
        → Keeps R (write_chat_if_won os source target side s report winner)
    unfolding write_chat_if_won
    write_chat_if_won-Keeps s report winner = elim (Bool-cases (same_winner winner side)) [
      | inl e ↦ rw e (write_chat-Keeps s report)
      | inr e ↦ rw e (transfer_if-Keeps _ s report)
    ]

    sync_chat_at-Keeps :
        (s : ChatSession) (report : ChatRawSyncReport) (found : Option ChatSession)
        → Keeps R (sync_chat_at os source target side s report found)
    sync_chat_at-Keeps s report none = write_chat-Keeps s report
    sync_chat_at-Keeps s report (some t) =
        bind-Keeps o (pure_call-Keeps o chat_resolved (resolve_chat_winner_for_direction s t side))
          (write_chat_if_won-Keeps s report)

    check_not_taken-Keeps :
        (s : ChatSession) (taken : Option Text)
        → Keeps R (check_not_taken os source target side s taken)
    check_not_taken-Keeps s none = give-Keeps o tt
    check_not_taken-Keeps s (some other) = fail-Keeps o (chat_source_taken other s.id)

    sync_chat-Keeps :
        (s : ChatSession) (report : ChatRawSyncReport)
        → Keeps R (sync_chat os source target side s report)
    unfolding sync_chat
    sync_chat-Keeps s report =
        let by_source_call : World L C O → Result RepositoryError (Option ChatSession) =
          λ w. found_or_none (target.get_chat_session_by_source s.source s.source_session_id w) in
        bind-Keeps o
          (reading-Keeps o stored (λ w. found_or_none (target.get_chat_session_by_id s.id w)))
          (λ found. bind-Keeps o (reading-Keeps o stored by_source_call) (λ by_source.
            bind-Keeps o (check_not_taken-Keeps s (is_taken_by s by_source))
              (λ _. sync_chat_at-Keeps s report found)))

    sync_chats-Keeps :
        (sessions : List ChatSession) (report : ChatRawSyncReport)
        → Keeps R (sync_chats os source target side sessions report)
    unfolding sync_chats
    sync_chats-Keeps [] report = record { keeps = λ w. o.here w }
    sync_chats-Keeps (s ∷ sessions) report = record {
      keeps = λ w.
          and_then-keeps o w (sync_chat os source target side s report w)
            (sync_chats os source target side sessions) ((sync_chat-Keeps s report).keeps w)
            (sync_chats-Keeps sessions);
    }

    warn-Keeps :
        (some_missing : Bool) {warning : Run (World L C O) (Unit {0})}
        → Keeps R warning
        → Keeps R (if some_missing then warning else done)
    warn-Keeps true h = h
    warn-Keeps false h = give-Keeps o tt

    pub sync_changed_chats_directed-Keeps :
        (since : Time) → Keeps R (sync_changed_chats_directed os source target side since)
    unfolding sync_changed_chats_directed
    sync_changed_chats_directed-Keeps since =
        bind-Keeps o (reading-Keeps o stored (source.list_chat_sessions (changed_sessions since)))
          (λ sessions. bind-Keeps o (sync_chats-Keeps sessions _) (λ report.
            bind-Keeps o
              (warn-Keeps (ltb 0 (length report.missing_local))
                (acting-Keeps o free (os.warn_missing_local (length report.missing_local))))
              (λ _.
                warn-Keeps (ltb 0 (length report.missing_cloud))
                  (acting-Keeps o free (os.warn_missing_cloud (length report.missing_cloud))))))
