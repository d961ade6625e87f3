-- ===== src/Graph/Collect.antt =====
-- The result that the runner of a task leaves (engine/ax/cmd/ax-task-runner/task_agent.go), and the bounded
-- reads and writes of its guest (engine/ax/internal/guest/task_agent.go).
pub mod Delivered
pub mod Guest
pub mod Examples
use task_a.Prelude.{
  String, ℕ, ◌+◌, ℤ, pos, negsuc, Bool, true, false, not, ◌||◌, List, [], ◌∷◌, Map, insert, Option,
  none, some, Result, ok, err, ◌==◌, ltb, if◌then◌else◌,
}
use task_a.Graph.Model.{RunResult}
use task_a.Graph.Paths.Codes.{codes, list_eq}
use task_a.Ax.Setup.Names.{Text, join_path, dir_of}

-- What a file holds: its length, and its text where it is valid UTF-8.
pub record Contents : Type 0 where
  pub size : ℕ
  pub text : Option String

pub record FileInfo : Type 0 where
  pub is_regular : Bool
  pub size : ℕ

-- The file system and JSON as the runner calls them. A call of the file system that changes it answers
-- whether it had no error.
pub record Host (W : Type 0) : Type 0 where
  pub eval_symlinks : Text → W → Option Text
  pub stat : Text → W → Option FileInfo
  pub read_file : Text → W → Option Contents
  pub write_file : Text → String → W → Bool × W
  pub rename : (old new : Text) → W → Bool × W
  pub mkdir_all : Text → W → Bool × W
  pub getenv : W → String
  pub decode_names : String → Option (List String)
  pub encode : RunResult → Option String
  pub decode : Contents → Option RunResult

abbrev pub result_path : Text
result_path = codes "/workspace/work/.task-agent/result.json"

abbrev pub is_same : Text → Option Text → Bool
is_same p none = false
is_same p (some q) = list_eq q p

abbrev pub fits : Option FileInfo → Bool
fits none = false
fits (some i) = if i.is_regular then not (ltb 1048576 i.size) else false

abbrev pub size_of : Option Contents → ℕ
size_of none = 0
size_of (some c) = c.size

abbrev pub text_of : Option Contents → Option String
text_of none = none
text_of (some c) = c.text

module _ {W : Type 0} (h : Host W) where
  abbrev pub full_path : String → Text
  unfolding join_path
  full_path p = join_path (codes "/workspace/work") (codes p)

  -- The loop over the declared outputs: the files, and the error it stopped with.
  unfoldable pub collect : List String → (total : ℕ) → Map String → W → Map String × String
  unfolding insert list_eq
  collect [] total files w = (files, "")
  collect (p ∷ ps) total files w =
      let read = h.read_file (full_path p) w in
      let sum = total + size_of read in
      if not (is_same (full_path p) (h.eval_symlinks (full_path p) w))
      then (files, "output must be a regular file without symlinks")
      else if not (fits (h.stat (full_path p) w))
      then (files, "output is missing or exceeds 1 MiB")
      else elim (text_of read) [
        | none ↦ (files, "output is unreadable or not UTF-8")
        | some text ↦
            if ltb 4194304 sum
            then (files, "outputs exceed 4 MiB")
            else collect ps sum (insert p text files) w
      ]

  unfoldable pub collected : (task : String) → ℤ → List String → W → RunResult
  unfolding collect
  collected task code outputs w =
      let (files, error) = collect outputs 0 [] w in
      record { task = task; exit_code = code; files = files; error = error }

  abbrev persist : Option String → W → W
  persist none w = w
  persist (some text) w =
      let temp = codes "/workspace/work/.task-agent/result.json.tmp" in
      let (written, w1) = h.write_file temp text w in
      if written then (h.rename temp result_path w1).1 else w1

  -- The hook: `done` is whether the context is. An interrupted command leaves no result.
  unfoldable pub on_exit : (done : Bool) → (task : String) → ℤ → List String → W → W
  on_exit true task code outputs w = w
  on_exit false task (negsuc n) outputs w = w
  on_exit false task (pos n) outputs w = persist (h.encode (collected task (pos n) outputs w)) w

-- What becomes of a run: it is left alone, cannot start, has its result already and runs no command,
-- or leaves a result with these outputs. That the setup's state directory is moved is left out.
pub data Attached : Type 0 where
  alone broken finished : Attached
  hooked : List String → Attached

module _ {W : Type 0} (h : Host W) where
  abbrev is_result_of : String → Option RunResult → Bool
  is_result_of task none = false
  is_result_of task (some r) = r.task == task

  abbrev finished_before : (task : String) → Option Contents → Bool
  finished_before task none = false
  finished_before task (some c) = is_result_of task (h.decode c)

  unfoldable pub attach : (task : String) → W → Attached × W
  unfolding dir_of
  attach task w =
      let (made, w1) = h.mkdir_all (dir_of result_path) w in
      if h.getenv w == "" then (Attached.alone, w) else elim (h.decode_names (h.getenv w)) [
        | none ↦ (Attached.broken, w)
        | some outputs ↦
            if not made
            then (Attached.broken, w1)
            else if finished_before task (h.read_file result_path w1)
            then (Attached.finished, w1)
            else (Attached.hooked outputs, w1)
      ]
