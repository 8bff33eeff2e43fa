-- ===== src/Load/Crypto.antt =====
-- `FieldCryptoEngine` of filedge/field_crypto.py. The ciphers, the keys and the encoding of the
-- result are parameters.
use filedge.Base.{String, Option, none, some, List, [], ◌∷◌, ◌++◌, if◌then◌else◌}
use filedge.Base.Dict
use filedge.Base.Dict.{Dict}
use filedge.Base.Result.{Result, ok, err, ◌>>=◌}
use filedge.Rows.Python.{Python}
use filedge.Rows.Columns.{ColumnMapping, KeyConfig}

pub data Usage : Type 0 where
  encrypt_usage hash_usage : Usage

pub record Ciphers : Type 1 where
  pub KeyBytes : Type 0
  -- `resolve_key`: the text of a KeyResolutionError, or the key
  pub resolve_key : String → Usage → Result String KeyBytes
  -- AES-256-GCM under a fresh nonce, framed and in base64; HMAC-SHA256 in base64
  pub encrypt : KeyBytes → String → Result String String
  pub digest : KeyBytes → String → Result String String

module _ (py : Python) (ciphers : Ciphers) where
  open py use {Value, is_null, str, text}
  open ciphers use {KeyBytes, resolve_key, encrypt, digest}

  -- `_EncryptOperation` and `_HashOperation`
  pub record Operation : Type 0 where
    pub dest : String
    pub key : KeyBytes

  pub record Engine : Type 0 where
    pub encrypt_operations : List Operation
    pub hash_operations : List Operation

  operations_for : Usage → String → Option KeyConfig → Result String (List Operation)
  operations_for usage dest none = ok []
  operations_for usage dest (some k) = do
    key ← resolve_key k.key usage
    ok (record { dest = dest; key = key } ∷ [])

  for_columns : List ColumnMapping → Engine → Result String Engine
  unfolding operations_for
  for_columns [] engine = ok engine
  for_columns (column ∷ columns) engine = do
    e ← operations_for encrypt_usage column.dest column.encrypt
    h ← operations_for hash_usage column.dest column.hash
    for_columns columns (record {
      encrypt_operations = engine.encrypt_operations ++ e;
      hash_operations = engine.hash_operations ++ h;
    })

  unfoldable pub for_pipeline : List ColumnMapping → Result String Engine
  unfolding for_columns
  for_pipeline columns =
      for_columns columns (record { encrypt_operations = []; hash_operations = [] })

  -- `_string_bytes`
  unfoldable pub string_bytes : Value → String
  string_bytes v = if is_null v then "" else str v

  -- `row[dest]`, whose KeyError is caught with the rest.
  unfoldable pub cell_bytes : Option Value → Result String String
  cell_bytes none = err "KeyError"
  cell_bytes (some v) = ok (string_bytes v)

  unfoldable pub apply_operations :
      (KeyBytes → String → Result String String)
      → List Operation
      → Dict Value
      → Result String (Dict Value)
  unfolding cell_bytes string_bytes
  apply_operations cipher [] row = ok row
  apply_operations cipher (op ∷ operations) row = do
    bytes ← cell_bytes (Dict.lookup op.dest row)
    out ← cipher op.key bytes
    apply_operations cipher operations (Dict.insert op.dest (text out) row)

  -- An error is a FieldCryptoError.
  unfoldable pub apply_to_row : Engine → Dict Value → Result String (Dict Value)
  unfolding apply_operations
  apply_to_row engine row = do
    encrypted ← apply_operations encrypt engine.encrypt_operations row
    apply_operations digest engine.hash_operations encrypted
