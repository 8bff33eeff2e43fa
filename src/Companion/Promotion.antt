-- ===== src/Companion/Promotion.antt =====
-- filedge/companion/promotion.py, on a file system as a dict from paths to contents. An operation
-- is the sequence of the file systems that another process can see after each of its effects.
use filedge.Base.{String, Bool, true, false, Option, none, some, List, [], ◌∷◌, ◌++◌}
use filedge.Base.Dict
use filedge.Base.Dict.{Dict}

-- The states, and whether the operation came to its end; if not, it raised.
pub record Trace (A : Type 0) : Type 0 where
  pub states : List (Dict A)
  pub finished : Bool

abbrev pub last_state : {A : Type 0} → Dict A → List (Dict A) → Dict A
last_state fs [] = fs
last_state fs (s ∷ states) = last_state s states

-- How a write of a new file goes: whole, or with an OSError before the file is there or while it is
-- written.
pub data Writing : Type 0 where
  written not_opened write_broken : Writing

-- How a move of a file that is there goes. `os.replace` renames it, or it raises an OSError and the
-- file is copied and removed, either of which can raise: the copy before the destination is there or
-- while it is written, or the removal after it.
pub data Moving : Type 0 where
  renamed copied not_copied copy_broken not_removed : Moving

abbrev pub is_written : Writing → Bool
is_written written = true
is_written _ = false

abbrev pub is_moved : Moving → Bool
is_moved renamed = true
is_moved copied = true
is_moved _ = false

-- What the file systems do, which the code cannot tell before.
pub record Disk : Type 0 where
  pub writes : String → Writing
  pub moves : String → String → Moving

-- `partial` is what a reader sees of a file while it is written or copied.
module _ {Content : Type 0} (partial : Content → Content) (disk : Disk) where
  -- `open(path, "w")`, and the write.
  unfoldable pub write_as : Writing → String → Content → Dict Content → Trace Content
  write_as written path content fs = record {
    states = Dict.insert path (partial content) fs ∷ Dict.insert path content fs ∷ [];
    finished = true;
  }
  write_as not_opened path content fs = record { states = []; finished = false }
  write_as write_broken path content fs = record {
    states = Dict.insert path (partial content) fs ∷ [];
    finished = false;
  }

  unfoldable pub write_file : String → Content → Dict Content → Trace Content
  unfolding write_as
  write_file path content fs = write_as (disk.writes path) path content fs

  unfoldable pub then_write : Trace Content → String → Content → Dict Content → Trace Content
  unfolding write_file
  then_write first path content fs =
      let second = write_file path content (last_state fs first.states) in
      elim first.finished [
        | false ↦ first
        | true ↦ record { states = first.states ++ second.states; finished = second.finished }
      ]

  -- `os.replace`, or `shutil.copy2` and `os.remove`, of a file that is there.
  unfoldable pub move_states :
      Moving → String → String → Content → Dict Content → List (Dict Content)
  move_states renamed src dest content fs = Dict.erase src (Dict.insert dest content fs) ∷ []
  move_states copied src dest content fs =
      Dict.insert dest (partial content) fs
      ∷ Dict.insert dest content fs
      ∷ Dict.erase src (Dict.insert dest content fs)
      ∷ []
  move_states not_copied src dest content fs = []
  move_states copy_broken src dest content fs = Dict.insert dest (partial content) fs ∷ []
  move_states not_removed src dest content fs =
      Dict.insert dest (partial content) fs ∷ Dict.insert dest content fs ∷ []

  unfoldable pub move_found : String → String → Dict Content → Option Content → Trace Content
  unfolding move_states
  move_found src dest fs none = record { states = []; finished = false }
  move_found src dest fs (some content) = record {
    states = move_states (disk.moves src dest) src dest content fs;
    finished = is_moved (disk.moves src dest);
  }

  -- `_move`; without the source file both ways raise.
  unfoldable pub move : String → String → Dict Content → Trace Content
  unfolding move_found
  move src dest fs = move_found src dest fs (Dict.lookup src fs)

  unfoldable pub then_move : Trace Content → String → String → Dict Content → Trace Content
  unfolding move
  then_move first src dest fs =
      let second = move src dest (last_state fs first.states) in
      elim first.finished [
        | false ↦ first
        | true ↦ record { states = first.states ++ second.states; finished = second.finished }
      ]

  -- `promote`, with the paths that it computes for the landed files.
  unfoldable pub promote :
      (staged_data staged_sidecar data_dest sidecar_dest : String) → Dict Content → Trace Content
  unfolding then_move
  promote staged_data staged_sidecar data_dest sidecar_dest fs =
      then_move (move staged_sidecar sidecar_dest fs) staged_data data_dest fs
