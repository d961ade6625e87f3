-- ===== src/Graph/Collect/Examples.antt =====
-- A task's outputs, collected from files in memory, and a bounded read.
use task_a.Prelude.{
  String, ◌≤◌, pos, true, List, [], ◌∷◌, insert, has_key, none, some, Result, ok, ◌≡◌, ◌↔◌, refl,
  Memᴰ, length,
}
use task_a.Graph.Paths.Codes.{codes, list_eq, has_prefix}
use task_a.Graph.Paths.Clean.{clean, split, go_up, push, squash, join}
use task_a.Ax.Setup.Names.{join_path}
use task_a.Graph.Engine.Step.{is_clean}
use task_a.Graph.Live.Track.{Delivers}
use task_a.Graph.Collect.{Host, collect, collected}
use task_a.Graph.Collect.Delivered.{weight, collected-Delivers}
use task_a.Graph.Collect.Guest.{Chunks, read_bounded, whole, read_bounded_iff}

-- Every file is a small one.
abbrev files_in_memory : Host (Unit {0})
files_in_memory = record {
  eval_symlinks = λ p w. some p;
  stat = λ p w. some (record { is_regular = true; size = 5 });
  read_file = λ p w. some (record { size = 5; text = some "hello" });
  write_file = λ p text w. (true, w);
  rename = λ p q w. (true, w);
  mkdir_all = λ p w. (true, w);
  getenv = λ w. "";
  decode_names = λ s. none;
  encode = λ r. none;
  decode = λ c. none;
}

program : Unit {0}
unfolding collect collected insert has_key list_eq has_prefix clean split go_up push squash join
    join_path is_clean
program = tt

abbrev two_outputs : List String
two_outputs = "out.txt" ∷ "log/run.txt" ∷ []

collected-Delivers_example :
    (is_clean (collected files_in_memory "t" (pos 0) two_outputs tt) ≡ true)
    × Delivers two_outputs (collected files_in_memory "t" (pos 0) two_outputs tt)
    × (weight files_in_memory tt two_outputs ≤ 4194304)
unfolding program
collected-Delivers_example =
    collected-Delivers files_in_memory tt "t" two_outputs (apart, (λ m. elim m [ ], tt)) refl
  where
    apart : ¬ Memᴰ {A = String} "out.txt" ("log/run.txt" ∷ [])
    apart (Memᴰ.head e) = cc (e)
    apart (Memᴰ.tail m) = elim m [ ]

abbrev stream : Chunks (Unit {0})
stream = Chunks.chunk (codes "he") (Chunks.chunk (codes "llo") Chunks.eof)

read_bounded_iff_example : (read_bounded {E = Unit {0}} 5 (ok stream) ≡ ok (codes "hello")) ↔ (
    (s : Chunks (Unit {0})) × (◌≡◌ {A = Result (Unit {0}) (Chunks (Unit {0}))} (ok stream) (ok s))
    × (whole s ≡ some (codes "hello"))
    × (length (codes "hello") ≤ 5))
read_bounded_iff_example = read_bounded_iff 5 (ok stream) (codes "hello")
