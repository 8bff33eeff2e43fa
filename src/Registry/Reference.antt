-- ===== src/Registry/Reference.antt =====
-- filedge/reference.py. The environment, the secrets files, and the decoding of their bytes without
-- the line ends at their end are parameters.
use Prim.Native.String.{len, slice}
use filedge.Base.{String, ◌==◌, Option, none, some, if◌then◌else◌}
use filedge.Base.Result.{Result, ok, err, ◌>>=◌}
use text.Mathlib.Text.{starts_with}

pub data Reference : Type 0 where
  env_reference secrets_reference : String → Reference

pub data ReferenceError : Type 0 where
  bad_shape no_name not_absolute : ReferenceError
  not_set not_readable : String → ReferenceError

-- `reference[len(prefix):]`
unfoldable pub after_prefix : String → String → String
after_prefix reference prefix = slice reference (len prefix) (len reference)

unfoldable pub split_reference : String → Result ReferenceError Reference
unfolding after_prefix
split_reference reference =
    if starts_with reference "env:"
    then ok (env_reference (after_prefix reference "env:"))
    else if starts_with reference "secrets:/"
    then ok (secrets_reference (after_prefix reference "secrets:"))
    else err bad_shape

module _ (environ secrets_text : String → Option String) where
  unfoldable pub or_error : ReferenceError → Option String → Result ReferenceError String
  or_error e none = err e
  or_error e (some value) = ok value

  unfoldable pub read_env : String → Result ReferenceError String
  unfolding or_error
  read_env name = if name == "" then err no_name else or_error (not_set name) (environ name)

  unfoldable pub read_secret : String → Result ReferenceError String
  unfolding or_error
  read_secret path =
      if starts_with path "/"
      then or_error (not_readable path) (secrets_text path)
      else err not_absolute

  unfoldable pub read_reference : Reference → Result ReferenceError String
  unfolding read_env read_secret
  read_reference (env_reference name) = read_env name
  read_reference (secrets_reference path) = read_secret path

  unfoldable pub resolve_reference : String → Result ReferenceError String
  unfolding split_reference read_reference
  resolve_reference reference = do split ← split_reference reference; read_reference split
