-- ===== src/RowCollectors/Tables/Msmq.antt =====
-- Collect of internal/collector/msmq/msmq.go, and the descriptions for it.
use windows_exporter.Base.{List, [], ◌∷◌}
use windows_exporter.RowCollectors.{Desc, Emission, RowCollector, every_row, row_name}
use windows_exporter.RowCollectors.Calls.{desc, gauge}

unfoldable pub descriptions : List Desc
descriptions =
    desc "bytesInJournalQueue" "bytes_in_journal_queue" ("name" ∷ [])
    ∷ desc "bytesInQueue" "bytes_in_queue" ("name" ∷ [])
    ∷ desc "messagesInJournalQueue" "messages_in_journal_queue" ("name" ∷ [])
    ∷ desc "messagesInQueue" "messages_in_queue" ("name" ∷ [])
    ∷ []

unfoldable pub emissions : List Emission
emissions =
    gauge "bytesInJournalQueue" "BytesInJournalQueue" (row_name ∷ [])
    ∷ gauge "bytesInQueue" "BytesInQueue" (row_name ∷ [])
    ∷ gauge "messagesInJournalQueue" "MessagesInJournalQueue" (row_name ∷ [])
    ∷ gauge "messagesInQueue" "MessagesInQueue" (row_name ∷ [])
    ∷ []

unfoldable pub msmq : RowCollector
msmq = record { shape = every_row; descriptions = descriptions; emissions = emissions }
