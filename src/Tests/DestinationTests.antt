-- ===== src/Tests/DestinationTests.antt =====
-- The theorems on the destination, at a table that holds the rows of two Files.
use filedge.Base.{String, ◌≡◌, refl, Bool, none, some, List, [], ◌∷◌, leb, length}
use filedge.Base.Dict.{Dict}
use filedge.Quarantine.Stream.{unexpected, end, from_list}
use filedge.Destination.Table.{DestRow, Connection, commit, rollback, append}
use filedge.Destination.Write.{
  bind, bind_all, accepted, executemany, flush, or_engine_error, write_from, clear, settle,
  write_rows,
}
use filedge.Destination.Added.{Uniform, stamp}
use filedge.Destination.Atomic.{loaded, write_rows-loaded, write_rows-error}
use filedge.Destination.Idempotent.{write_rows-twice}
use filedge.Tests.Data.{Value, word}

-- An engine that takes up to two rows at once.
abbrev up_to_two : List (DestRow Value) → Bool
up_to_two rows = leb (length rows) 2

abbrev row : String → Dict Value
row s = ("name", word s) ∷ []

abbrev file_rows : List (Dict Value)
file_rows = row "ann" ∷ row "bob" ∷ row "cid" ∷ []

abbrev old_rows : List (DestRow Value)
old_rows = stamp up_to_two "aa" 1 (row "ann") ∷ stamp up_to_two "bb" 1 (row "eve") ∷ []

abbrev conn : Connection Value
conn = record { working = old_rows; durable = old_rows }

file_rows-Uniform : Uniform ("name" ∷ []) file_rows
file_rows-Uniform = (refl, (refl, (refl, tt)))

abbrev once : Connection Value
once = loaded up_to_two "aa" 20 append 2 conn file_rows

abbrev again : Connection Value
again = loaded up_to_two "aa" 21 append 1 once file_rows

written : write_rows up_to_two "aa" 20 append 2 (from_list file_rows end) conn ≡ (once, none)
unfolding write_rows write_from clear settle flush or_engine_error executemany bind_all bind
    accepted commit
written = refl

written_again : write_rows up_to_two "aa" 21 append 1 (from_list file_rows end) once ≡ (again, none)
unfolding write_rows write_from clear settle flush or_engine_error executemany bind_all bind
    accepted commit
written_again = refl

-- A batch of three is refused.
refused :
    write_rows up_to_two "aa" 20 append 3 (from_list file_rows end) conn
    ≡ (conn, some (unexpected "database error"))
unfolding write_rows write_from clear settle executemany bind_all bind accepted rollback
refused = refl

write_rows-loaded_example : once ≡ loaded up_to_two "aa" 20 append 2 conn file_rows
write_rows-loaded_example =
    write_rows-loaded up_to_two "aa" 20 append 2 ("name" ∷ []) file_rows conn once file_rows-Uniform
      written

write_rows-error_example : conn ≡ record { working = old_rows; durable = old_rows }
write_rows-error_example =
    write_rows-error up_to_two "aa" 20 append 3 (from_list file_rows end) conn conn
      (unexpected "database error") refused

write_rows-twice_example : again ≡ loaded up_to_two "aa" 21 append 1 conn file_rows
write_rows-twice_example =
    write_rows-twice up_to_two "aa" ("name" ∷ []) file_rows file_rows-Uniform 20 21 2 1 conn once
      again written written_again
