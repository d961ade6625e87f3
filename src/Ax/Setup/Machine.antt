-- ===== src/Ax/Setup/Machine.antt =====
-- What the workspace setup (engine/ax/internal/workspace/setup.go) asks of the machine.
use task_a.Prelude.{ℕ, ℤ, Bool, true, Option, ◌≡◌}
use task_a.Ax.Setup.Names.{Text}

-- A run of git, with its arguments.
pub data GitCommand : Type 0 where
  init : GitCommand
  remote_add remote_set_url : (url : Text) → GitCommand
  fetch : (depth : Option ℤ) (branch : Text) → GitCommand
  checkout : GitCommand

-- The combined output of an operation and its error, if it has one.
abbrev pub Output : Type 0 → Type 0
Output W = Text × Option Text × W

-- `parse_duration` is Go's `time.ParseDuration`, in nanoseconds.
-- `true` where a call of the file system has no error. `git` answers its output and error; `wait` is
-- `true` where the time passed before the context was done, with the context's error in `ctx_error`.
pub record Machine (W : Type 0) : Type 0 where
  pub absolute : Text → W → Option Text
  pub exists : Text → W → Bool
  pub mkdir_all : Text → W → Bool × W
  pub write_file : (path content : Text) → W → Bool × W
  pub git : (dir : Text) → GitCommand → W → Output W
  pub wait : ℕ → W → Bool × W
  pub ctx_error : W → Text
  pub getenv : Text → W → Text
  pub parse_duration : Text → Option ℤ
  pub run_agent : (goal target data_dir : Text) → (timeout : ℤ) → W → Bool × W
  pub now : W → Text

-- A file that was written is there, and stays while directories are made; the working directory stays.
pub record IsDisk {W : Type 0} (m : Machine W) : Type 0 where
  pub written :
      (p content : Text) (w : W)
      → (m.write_file p content w).0 ≡ true
      → m.exists p (m.write_file p content w).1 ≡ true
  pub kept : (p q : Text) (w : W) → m.exists p w ≡ true → m.exists p (m.mkdir_all q w).1 ≡ true
  pub absolute_same : (p : Text) (v w : W) → m.absolute p v ≡ m.absolute p w
