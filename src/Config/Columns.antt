-- ===== src/Config/Columns.antt =====
-- The keys of the columns that `config_from_dict` of filedge/config.py accepts.
use filedge.Base.{
  String, ◌≡◌, refl, subst, Bool, true, false, Option, none, some, List, [], ◌∷◌, ◌==◌, All, arith,
}
use filedge.Base.Dict.{Dict}
use filedge.Base.Result.{ok, >>=-eq-ok, ok-injective}
use filedge.Rows.Columns.{ColumnMapping, KeyConfig, ColumnType, column_type, string}
use filedge.Config.Raw.{RawColumn, ConfigError}
use filedge.Config.Blocks.{
  require, required_crypto_field, is_key_reference, given, parse_key, parse_encrypt_config,
  parse_hash_config, UntypedColumn, parse_column, parse_columns, column_of, typed_column,
  typed_columns,
}

-- A key of the algorithm, by a reference to its value.
abbrev pub KeyFor : String → Option KeyConfig → Type 0
KeyFor supported none = Unit
KeyFor supported (some k) = ((k.algorithm == supported) ≡ true) × (is_key_reference k.key ≡ true)

-- Only texts are encrypted.
abbrev pub EncryptsText : (IsText : Type 0) → Option KeyConfig → Type 0
EncryptsText IsText none = Unit
EncryptsText IsText (some k) = IsText × KeyFor "aes-256-gcm" (some k)

abbrev pub HasKeys : ColumnMapping → Type 0
HasKeys c = EncryptsText (c.type ≡ string) c.encrypt × KeyFor "hmac-sha256" c.hash

abbrev pub HasUntypedKeys : UntypedColumn → Type 0
HasUntypedKeys c =
    EncryptsText ((c.type == "string") ≡ true) c.encrypt × KeyFor "hmac-sha256" c.hash

pub require-true : (b : Bool) (e : ConfigError) → require b e ≡ ok tt → b ≡ true
unfolding require
require-true true e h = refl
require-true false e h = cc

parse_key-KeyFor :
    (supported : String) (raw : Dict String) (k : Option KeyConfig)
    → parse_key supported raw ≡ ok k
    → KeyFor supported k
unfolding parse_key
parse_key-KeyFor supported raw k h =
    let (algorithm, a, h1) = >>=-eq-ok (required_crypto_field "algorithm" raw) _ h in
    let (u, same, h2) = >>=-eq-ok (require (algorithm == supported) _) _ h1 in
    let (key, b, h3) = >>=-eq-ok (required_crypto_field "key" raw) _ h2 in
    let (v, reference, h4) = >>=-eq-ok (require (is_key_reference key) _) _ h3 in
    subst (KeyFor supported) (ok-injective h4) (require-true _ _ same, require-true _ _ reference)

with_text :
    (IsText : Type 0) (k : Option KeyConfig)
    → IsText
    → KeyFor "aes-256-gcm" k
    → EncryptsText IsText k
with_text IsText none text h = tt
with_text IsText (some k) text h = (text, h)

parse_encrypt_config-EncryptsText :
    (type : String) (raw : Option (Dict String)) (k : Option KeyConfig)
    → parse_encrypt_config type raw ≡ ok k
    → EncryptsText ((type == "string") ≡ true) k
unfolding parse_encrypt_config
parse_encrypt_config-EncryptsText type none k h = subst (EncryptsText _) (ok-injective h) tt
parse_encrypt_config-EncryptsText type (some raw) k h =
    let (u, text, h1) = >>=-eq-ok (require (type == "string") _) _ h in
    with_text _ k (require-true _ _ text) (parse_key-KeyFor "aes-256-gcm" raw k h1)

parse_hash_config-KeyFor :
    (raw : Option (Dict String)) (k : Option KeyConfig)
    → parse_hash_config raw ≡ ok k
    → KeyFor "hmac-sha256" k
unfolding parse_hash_config
parse_hash_config-KeyFor none k h = subst (KeyFor "hmac-sha256") (ok-injective h) tt
parse_hash_config-KeyFor (some raw) k h = parse_key-KeyFor "hmac-sha256" raw k h

parse_column-HasUntypedKeys :
    (raw : RawColumn) (c : UntypedColumn) → parse_column raw ≡ ok c → HasUntypedKeys c
unfolding parse_column
parse_column-HasUntypedKeys raw c h =
    let (source, a, h1) = >>=-eq-ok (given "source" raw.source) _ h in
    let (dest, b, h2) = >>=-eq-ok (given "dest" raw.dest) _ h1 in
    let (type, d, h3) = >>=-eq-ok (given "type" raw.type) _ h2 in
    let (encrypt, e, h4) = >>=-eq-ok (parse_encrypt_config type raw.encrypt) _ h3 in
    let (hash, f, h5) = >>=-eq-ok (parse_hash_config raw.hash) _ h4 in
    subst HasUntypedKeys (ok-injective h5) (
      parse_encrypt_config-EncryptsText type raw.encrypt encrypt e,
      parse_hash_config-KeyFor raw.hash hash f,
    )

pub parse_columns-HasUntypedKeys :
    (raws : List RawColumn) (columns : List UntypedColumn)
    → parse_columns raws ≡ ok columns
    → All HasUntypedKeys columns
unfolding parse_columns
parse_columns-HasUntypedKeys [] columns h = subst (All HasUntypedKeys) (ok-injective h) tt
parse_columns-HasUntypedKeys (raw ∷ raws) columns h =
    let (c, a, h1) = >>=-eq-ok (parse_column raw) _ h in
    let (rest, b, h2) = >>=-eq-ok (parse_columns raws) _ h1 in
    subst (All HasUntypedKeys) (ok-injective h2)
      (parse_column-HasUntypedKeys raw c a, parse_columns-HasUntypedKeys raws rest b)

column_type_of_string :
    (name : String) (type : ColumnType)
    → column_type name ≡ some type
    → (name == "string") ≡ true
    → type ≡ string
unfolding column_type
column_type_of_string name type h text = ground arith

retyped :
    (name : String) (type : ColumnType) (k : Option KeyConfig)
    → column_type name ≡ some type
    → EncryptsText ((name == "string") ≡ true) k
    → EncryptsText (type ≡ string) k
retyped name type none h keys = tt
retyped name type (some k) h (text, key) = (column_type_of_string name type h text, key)

column_of-HasKeys :
    (c : UntypedColumn) (found : Option ColumnType) (column : ColumnMapping)
    → column_type c.type ≡ found
    → HasUntypedKeys c
    → column_of c found ≡ ok column
    → HasKeys column
column_of-HasKeys c none column known keys h = cc
column_of-HasKeys c (some type) column known (encrypt, hash) h =
    subst HasKeys (ok-injective h) (retyped c.type type c.encrypt known encrypt, hash)

pub typed_columns-HasKeys :
    (untyped : List UntypedColumn) (columns : List ColumnMapping)
    → All HasUntypedKeys untyped
    → typed_columns untyped ≡ ok columns
    → All HasKeys columns
unfolding typed_columns typed_column
typed_columns-HasKeys [] columns keys h = subst (All HasKeys) (ok-injective h) tt
typed_columns-HasKeys (c ∷ untyped) columns (here, keys) h =
    let (column, a, h1) = >>=-eq-ok (typed_column c) _ h in
    let (rest, b, h2) = >>=-eq-ok (typed_columns untyped) _ h1 in
    subst (All HasKeys) (ok-injective h2) (
      column_of-HasKeys c (column_type c.type) column refl here a,
      typed_columns-HasKeys untyped rest keys b,
    )
