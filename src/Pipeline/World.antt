-- ===== src/Pipeline/World.antt =====
-- The state that a Run changes: the audit table and the destination, and its clock.
use filedge.Base.{ℕ}
use filedge.Audit.Record.{AuditTable}

-- `tick` is what passes between two readings of the clock.
pub record World (S : Type 0) : Type 0 where
  pub audit : AuditTable
  pub dest : S
  pub now : ℕ

module _ {S : Type 0} (tick : ℕ → ℕ) where
  abbrev pub with_audit : World S → AuditTable → World S
  with_audit w db = record w { audit = db; now = tick w.now }
