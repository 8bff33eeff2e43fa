-- ===== src/Destination/Added.antt =====
-- What the loop of `SqlConnector.write_rows` (filedge/connectors/sql_base.py) adds to the table.
use filedge.Base.{
  ℕ, String, ◌≡◌, refl, ◌∙◌, sym, ap, Bool, Option, none, some, List, [], ◌∷◌, ◌++◌, leb, length,
  map, All, arith, Bool-cases, inl, inr,
}
use mathlib.Core.List.{append-nil, append_assoc, map-append}
use filedge.Base.Dict
use filedge.Base.Dict.{Dict}
use filedge.Quarantine.Stream.{LoadError, unexpected, end, from_list}
use filedge.Destination.Table.{DestRow, Connection}
use filedge.Destination.Write.{
  bind, bind_all, accepted, executemany, flush, or_engine_error, write_from,
}

-- All rows have these columns, in this order: `transform_row` returns such rows.
abbrev pub Uniform {ℓ} : {V : Type ℓ} → List String → List (Dict V) → Type 0
Uniform cols rows = All (λ row. Dict.keys row ≡ cols) rows

Uniform-snoc {ℓ} :
    {V : Type ℓ} (cols : List String) (rows : List (Dict V)) (row : Dict V)
    → Uniform cols rows
    → Dict.keys row ≡ cols
    → Uniform cols (rows ++ row ∷ [])
Uniform-snoc cols [] row u e = (e, tt)
Uniform-snoc cols (r ∷ rows) row (x, u) e = (x, Uniform-snoc cols rows row u e)

bind-keys {ℓ} : {V : Type ℓ} (row : Dict V) → bind (Dict.keys row) (Dict.values row) ≡ some row
unfolding bind
bind-keys [] = refl
bind-keys ((k, v) ∷ row) = rw (bind-keys row)

bind-values {ℓ} :
    {V : Type ℓ} (cols : List String) (row : Dict V)
    → Dict.keys row ≡ cols
    → bind cols (Dict.values row) ≡ some row
bind-values cols row e = rw (← e) (bind-keys row)

module _ {ℓ} {V : Type ℓ} (accepts : List (DestRow V) → Bool) (file_hash : String)
    (ingested_at : ℕ) where
  abbrev pub stamp : Dict V → DestRow V
  stamp row = record { cells = row; source_file_hash = file_hash; ingested_at = ingested_at }

  abbrev pub added : Connection V → List (Dict V) → Connection V
  added c rows = record c { working = c.working ++ map stamp rows }

  added-added :
      (c : Connection V) (xs ys : List (Dict V)) → added (added c xs) ys ≡ added c (xs ++ ys)
  added-added c xs ys = rw (map-append, append_assoc)

  bind_all-keys :
      (cols : List String) (rows : List (Dict V))
      → Uniform cols rows
      → bind_all accepts file_hash ingested_at cols (map Dict.values rows) ≡ some (map stamp rows)
  unfolding bind_all
  bind_all-keys cols [] u = refl
  bind_all-keys cols (row ∷ rows) (e, u) =
      ground (arith, bind-values cols row e, bind_all-keys cols rows u)

  executemany-keys :
      (cols : List String) (rows : List (Dict V)) (c c' : Connection V)
      → Uniform cols rows
      → executemany accepts file_hash ingested_at cols (map Dict.values rows) c ≡ some c'
      → c' ≡ added c rows
  unfolding executemany accepted
  executemany-keys cols rows c c' u e = ground (arith, bind_all-keys cols rows u)

  flush-keys :
      (cols : List String) (rows : List (Dict V)) (c c' : Connection V)
      → Uniform cols rows
      → flush accepts file_hash ingested_at cols (map Dict.values rows) c ≡ some c'
      → c' ≡ added c rows
  unfolding flush
  flush-keys cols [] c c' u e = ground (arith, append-nil c.working)
  flush-keys cols (row ∷ rows) c c' u e = executemany-keys cols (row ∷ rows) c c' u e

  -- The loop, once the first row has set the columns: if it ends without an error, it has added
  -- the batch and all rows, in order, and nothing is durable yet.
  pub write_from-added :
      (batch_size : ℕ) (cols : List String) (batch rows : List (Dict V)) (c c' : Connection V)
      → Uniform cols batch
      → Uniform cols rows
      → write_from accepts file_hash ingested_at batch_size
          (some cols)
          (map Dict.values batch)
          (from_list rows end)
          c
        ≡ (c', none)
      → c' ≡ added c (batch ++ rows)
  unfolding write_from
  write_from-added n cols batch [] c c' ub ur e =
      go (flush accepts file_hash ingested_at cols (map Dict.values batch) c) refl e
    where
      go :
          (o : Option (Connection V))
          → flush accepts file_hash ingested_at cols (map Dict.values batch) c ≡ o
          → or_engine_error accepts file_hash ingested_at c o ≡ (c', none)
          → c' ≡ added c (batch ++ [])
      go none f g = cc
      go (some d) f g = rw append-nil (
          ap (λ (p : Connection V × Option LoadError). p.0) (sym g)
          ∙ flush-keys cols batch c d ub f)
  write_from-added n cols batch (row ∷ rows) c c' ub (x, ur) e =
      elim (Bool-cases (leb n (length (map Dict.values batch ++ Dict.values row ∷ [])))) [
        | inl full ↦
            flushed
              (executemany accepts file_hash ingested_at cols
                (map Dict.values batch ++ Dict.values row ∷ []) c)
              refl (rw (full, write_from) at e)
              (λ d d' h. write_from-added n cols [] rows d d' tt ur h)
        | inr room ↦ rw (← append_assoc batch (row ∷ []) rows) (
            write_from-added n cols (batch ++ row ∷ []) rows c c' (Uniform-snoc cols batch row ub x)
              ur (rw map-append (rw (room, write_from) at e)))
      ]
    where
      flushed :
          (o : Option (Connection V))
          → executemany accepts file_hash ingested_at cols
              (map Dict.values batch ++ Dict.values row ∷ [])
              c
            ≡ o
          → elim o as (λ _. Connection V × Option LoadError) [
            | none ↦ (c, some (unexpected "database error"))
            | some d ↦
                write_from accepts file_hash ingested_at n (some cols) [] (from_list rows end) d
          ]
            ≡ (c', none)
          → ((d d' : Connection V)
              → write_from accepts file_hash ingested_at n (some cols) [] (from_list rows end) d
                ≡ (d', none)
              → d' ≡ added d ([] ++ rows))
          → c' ≡ added c (batch ++ row ∷ rows)
      flushed none f g ih = cc
      flushed (some d) f g ih =
          ih d c' g
          ∙ rw
              (executemany-keys cols (batch ++ row ∷ []) c d (Uniform-snoc cols batch row ub x)
                (rw map-append f))
              (added-added c (batch ++ row ∷ []) rows ∙ rw append_assoc)
