-- ===== src/Quarantine/Stream.antt =====
-- A Python generator of rows as the sequence of what its consumer sees: items, and then either the
-- end or an exception. And the errors that end the load of a File (filedge/loader.py).
use filedge.Base.{ℕ, String, List, [], ◌∷◌}
use filedge.Rows.Transform.{TransformError}

-- `CdcError` of filedge/cdc.py, one constructor for each message.
pub data CdcError : Type 0 where
  unknown_operation : CdcError
  null_key : CdcError
  null_sequence : String → CdcError
  same_sequence : CdcError

pub data LoadError : Type 0 where
  transform : TransformError → LoadError
  field_crypto : String → LoadError
  key_resolution : String → LoadError
  -- so many of so many rows invalid
  over_threshold : ℕ → ℕ → LoadError
  cdc : CdcError → LoadError
  -- `except Exception`
  unexpected : String → LoadError

pub data Stream {ℓ} (A : Type ℓ) : Type ℓ where
  end : Stream A
  raise : LoadError → Stream A
  yield : A → Stream A → Stream A

-- The generator that yields the items of a list and then ends, or then raises.
abbrev pub from_list {ℓ} : {A : Type ℓ} → List A → Stream A → Stream A
from_list [] tail = tail
from_list (x ∷ xs) tail = yield x (from_list xs tail)
