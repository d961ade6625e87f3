-- ===== src/Graph/Samples.antt =====
-- A plan of two tasks, a world in which every actor answers at once, and digests that tell the
-- outputs of tasks apart: the data on which the theorems of the graph engine are tried.
use task_a.Prelude.{String, ℕ, pos, List, [], ◌∷◌, some, ok, ◌≡◌, refl, sym, true}
use task_a.Graph.Model.{Plan, Node, Input, Validator, RunResult}
use task_a.Graph.Engine.Defs.{Backend, Digests}
use task_a.Graph.Engine.Keep.{NoCollision}

abbrev pub image : String
image = "agent@sha256:0123456789abcdef0123456789abcdef0123456789abcdef0123456789abcdef"

abbrev pub check : Validator
check = record { image = image; command = "check" ∷ []; files = ("rules.txt", "r") ∷ [] }

abbrev pub draft : Node
draft = record {
  id = "draft";
  goal = "write";
  contract = "a text";
  image = image;
  command = "run" ∷ [];
  files = ("notes.txt", "n") ∷ [];
  inputs = [];
  outputs = "out" ∷ [];
  validator = check;
}

abbrev pub input_of_draft : Input
input_of_draft = record { task = "draft"; output = "out" }

abbrev pub review : Node
review = record {
  id = "review";
  goal = "read";
  contract = "a verdict";
  image = image;
  command = "run" ∷ [];
  files = [];
  inputs = ("text", input_of_draft) ∷ [];
  outputs = "out" ∷ [];
  validator = check;
}

abbrev pub two_tasks : Plan
two_tasks = record { id = "book"; revision = pos 1; tasks = draft ∷ review ∷ [] }

abbrev pub redraft : Node
redraft = record draft { goal = "write again" }

abbrev pub next_plan : Plan
next_plan = record { id = "book"; revision = pos 2; tasks = redraft ∷ review ∷ [] }

-- A task that reads its own output.
abbrev pub looped : Node
looped = record draft { inputs = ("text", input_of_draft) ∷ [] }

abbrev pub loop_plan : Plan
loop_plan = record { id = "book"; revision = pos 1; tasks = looped ∷ [] }

-- Every character follows a byte 1, and a byte 0 ends the text.
abbrev pub quote : String → String → String
quote String.[] rest = String.◌∷◌ "\0" rest
quote (String.◌∷◌ c s) rest = String.◌∷◌ "\u{1}" (String.◌∷◌ c (quote s rest))

abbrev pub quote_all : List String → String
quote_all [] = ""
quote_all (s ∷ ss) = quote s (quote_all ss)

quote-injective : (s t a b : String) → quote s a ≡ quote t b → (s ≡ t) × (a ≡ b)
quote-injective String.[] String.[] a b h = (refl, cc)
quote-injective String.[] (String.◌∷◌ d t) a b h = cc
quote-injective (String.◌∷◌ c s) String.[] a b h = cc
quote-injective (String.◌∷◌ c s) (String.◌∷◌ d t) a b h =
    let (p, q) = quote-injective s t a b (cc) in (cc, q)

quote-nonempty : (s a : String) → quote s a ≡ "" → ⊥
quote-nonempty String.[] a h = cc
quote-nonempty (String.◌∷◌ c s) a h = cc

quote_all-injective : (ss ts : List String) → quote_all ss ≡ quote_all ts → ss ≡ ts
quote_all-injective [] [] h = refl
quote_all-injective [] (t ∷ ts) h = absurd (quote-nonempty t (quote_all ts) (sym h))
quote_all-injective (s ∷ ss) [] h = absurd (quote-nonempty s (quote_all ss) h)
quote_all-injective (s ∷ ss) (t ∷ ts) h =
    let (p, q) = quote-injective s t (quote_all ss) (quote_all ts) h in
    let r = quote_all-injective ss ts q in cc

abbrev pub digests : Digests
digests = record {
  of_plan = λ p. elim p.revision [
    | pos n ↦ elim n [ ℕ.zero ↦ "zero" | ℕ.suc k ↦ elim k [ ℕ.zero ↦ "one" | ℕ.suc _ ↦ "more" ] ]
    | _ ↦ "negative"
  ];
  of_work = λ n files. quote_all n.outputs;
  name_of = λ scope plan_id revision id fingerprint. id;
}

pub digests-NoCollision : NoCollision digests
digests-NoCollision n m f g h = quote_all-injective n.outputs m.outputs h

-- The result that every actor leaves.
abbrev pub answer : String → RunResult
answer name = record { task = name; exit_code = pos 0; files = ("out", "text") ∷ []; error = "" }

-- The world is the number of calls that were made.
abbrev pub prompt : Backend ℕ
prompt = record {
  ensure = λ l w. (ok tt, ℕ.suc w);
  start = λ name w. (ok tt, ℕ.suc w);
  result = λ name w. (ok (some (answer name)), ℕ.suc w);
  suspend = λ name w. (ok true, ℕ.suc w);
  save = λ s w. (ok tt, ℕ.suc w);
}
