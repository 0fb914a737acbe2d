-- ===== src/Audit/Log/Laws.antt =====
-- src/desktop_worker/audit/log.py: an entry is appended, and the entries before it stay.
use desktop_worker.Prelude.{◌+◌, String, ◌≡◌, [], ◌∷◌, length, length-append}
use desktop_worker.Audit.Log.{AuditLog, Details, write}

pub length-write :
    (event : String) (a : Details) (log : AuditLog)
    → length (write event a log).entries ≡ length log.entries + 1
unfolding write
length-write event a log = length-append log.entries (_ ∷ [])
