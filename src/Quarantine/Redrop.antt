-- ===== src/Quarantine/Redrop.antt =====
-- Writing a quarantine sidecar (filedge/quarantine/sink.py) and re-dropping it
-- (filedge/quarantine/redrop.py).
use filedge.Base.{
  String, ◌++◌, ◌≡◌, refl, ◌∙◌, sym, false, none, some, List, [], ◌∷◌, map, length, length-map, All,
  ◌==◌, eq_iff, Bool-cases, inl, inr,
}
use mathlib.Core.List.{append-nil, append_assoc}
use filedge.Base.Json.{Json, object, Fields, get}
use filedge.Rows.Python.{Python}
use filedge.Quarantine.Stream.{end, from_list}
use filedge.Quarantine.Processor.{RowError, QuarantinedRow, Buffer}
use filedge.Quarantine.Sidecar.{
  Texts, IsRoundTrip, row_fields, sidecar_record, finalize, line_of, row_of, row_object,
  read_quarantined_rows, redrop_from, redrop_quarantine,
}

module _ (t : Texts) (py : Python) (as_json : py.Value → Json) (message : RowError → String) where
  -- The source rows of the buffer.
  abbrev pub source_rows : Buffer py → List Fields
  source_rows buffer = map (λ (q : QuarantinedRow py). row_fields t py as_json message q.row) buffer

  -- The JSON library reads back what it writes for this row.
  abbrev pub Reads : QuarantinedRow py → Type 0
  Reads q = IsRoundTrip t (object (sidecar_record t py as_json message q))

  line_full : (j : Json) → IsRoundTrip t j → (t.strip (line_of t j) == "") ≡ false
  line_full j law = elim (Bool-cases (t.strip (line_of t j) == "")) [
    | inl empty ↦
        absurd (law.never_empty (sym law.strip_line ∙ (eq_iff (t.strip (line_of t j)) "").0 empty))
    | inr full ↦ full
  ]

  row_of-sidecar_record :
      (q : QuarantinedRow py)
      → row_of t (some (object (sidecar_record t py as_json message q)))
        ≡ some (row_fields t py as_json message q.row)
  unfolding row_of row_object sidecar_record get
  row_of-sidecar_record q = refl

  -- Reading a sidecar gives the source rows of the buffer, in order.
  read-finalize :
      (buffer : Buffer py)
      → All (λ q. Reads q) buffer
      → read_quarantined_rows t (finalize t py as_json message buffer)
        ≡ from_list (source_rows buffer) end
  unfolding read_quarantined_rows finalize
  read-finalize [] every = refl
  read-finalize (q ∷ buffer) (law, every) =
      let j = object (sidecar_record t py as_json message q) in
      rw (line_full j law) (
        rw law.strip_line
          (rw law.loads_dumps (rw (row_of-sidecar_record q) (rw (read-finalize buffer every)))))

  abbrev pub line_for : Fields → String
  line_for row = line_of t (object row)

  redrop_from-from_list :
      (rows : List Fields) (out lines : List String)
      → lines ≡ out ++ map line_for rows
      → redrop_from t (from_list rows end) out ≡ (lines, length lines, none)
  unfolding redrop_from
  redrop_from-from_list [] out lines e = rw (e ∙ append-nil out) refl
  redrop_from-from_list (row ∷ rows) out lines e =
      redrop_from-from_list rows (out ++ line_of t (object row) ∷ []) lines
        (e ∙ sym (append_assoc out (line_for row ∷ []) (map line_for rows)))

  -- Re-dropping the sidecar that a load has written gives one line for each quarantined row, in
  -- order and with the row's own columns and values, counts them all and raises nothing, if
  -- json.loads reads what json.dumps writes for these rows.
  pub redrop_quarantine-finalize :
      (buffer : Buffer py)
      → All (λ q. Reads q) buffer
      → redrop_quarantine t (finalize t py as_json message buffer)
        ≡ (map line_for (source_rows buffer), length buffer, none)
  unfolding redrop_quarantine
  redrop_quarantine-finalize buffer every = rw (read-finalize buffer every) (
      redrop_from-from_list (source_rows buffer) [] (map line_for (source_rows buffer)) refl
      ∙ rw (length-map, All, length-map))
