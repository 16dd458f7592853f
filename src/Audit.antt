-- ===== src/Audit.antt =====
-- modules/audit/audit.service.ts: the append-only log.
use meduman_backend.Prelude.{or_else, String, Option, ◌∷◌}
use meduman_backend.Store.Enums.{ActorType, system}
use meduman_backend.Store.Rows.{Metadata, AuditLog}
use meduman_backend.Store.Action.{ok, Action}

-- A field that is left out is `none`; `metadata` that is left out is empty.
pub record AuditEntryInput : Type 0 where
  pub action : String
  pub target_type : String
  pub target_id : Option String
  pub actor_id : Option String
  pub actor_type : Option ActorType
  pub reason : Option String
  pub metadata : Metadata

-- The row that `log` writes.
abbrev pub entry_row : AuditEntryInput → AuditLog
entry_row entry = record {
  actor_id = entry.actor_id;
  actor_type = or_else entry.actor_type system;
  action = entry.action;
  target_type = entry.target_type;
  target_id = entry.target_id;
  reason = entry.reason;
  metadata = entry.metadata;
}

-- `log`
abbrev pub log : AuditEntryInput → Action (Unit {0})
log entry w = (ok tt, record w { audit = entry_row entry ∷ w.audit })
