-- ===== src/Graph/Examples.antt =====
-- The theorems of the graph engine at the sample plan.
use mathlib.Core.WellFounded.{Acc}
use task_a.Prelude.{
  String, ℕ, List, [], ◌∷◌, has_key, lookup, insert, none, some, ok, err, ◌≡◌, ◌≢◌, refl, true,
  false, Memᴰ, All, map, ◌⊎◌, ◌↔◌, elem,
}
use task_a.Graph.Model.{Node, State, Attempt, succeeded}
use task_a.Graph.Samples.{
  two_tasks, draft, review, next_plan, loop_plan, input_of_draft, digests, digests-NoCollision,
  prompt, answer,
}
use task_a.Graph.Paths.{valid_codes, valid_path}
use task_a.Graph.Paths.Codes.{list_eq, has_prefix, codes}
use task_a.Graph.Paths.Clean.{split, join, go_up, push, squash, clean}
use task_a.Graph.Names.{name_codes, valid_name, image_codes, valid_image}
use task_a.Graph.Validate.{
  check_files, check_inputs, check_validator_files, check_outputs, check_node, check_nodes,
  check_links, check_all_links, validate,
}
use task_a.Graph.Validate.Visit.{
  dependency_cycle, out_of_fuel, deps_of, is_set, visit, visit_all, visit_nodes,
}
use task_a.Graph.Progress.{
  complete, files_of, all_succeeded, has_succeeded, is_succeeded, insert_all, output_of, add_inputs,
}
use task_a.Graph.Engine.Defs.{apply, revise, carry_over, is_settled, fresh, next_revision, int_eq}
use task_a.Graph.Engine.Step.{
  tick, pause, is_clean, first_missing, from_starting, from_running, from_stopping, take_candidate,
  judge, validator_files, take_verdict, run_validator, from_validating, conclude,
  from_validation_stopping, advance, save_state, drive, begin, reuse_or_begin,
}
use task_a.Graph.Engine.Step
use task_a.Graph.Engine.Honest.{IsAdopted}
use task_a.Graph.Engine.Keep.{IsSound, Kept, Respects}
use task_a.Graph.Engine.Pause.{tick-Kept, pause-Kept}
use task_a.Graph.Engine.Life.{Reach, first, ticked, Reach-IsSound}
use task_a.Graph.Engine.Adopted.{
  Reach-IsAdopted, complete-IsAdopted, files_of-IsReady, IsReady, apply-IsNext, IsNext,
}
use task_a.Graph.Paths.Safe.{valid_path_iff, IsSafe}
use task_a.Graph.Validate.Bound.{Chain}
use task_a.Graph.Validate.Nodes.{IsValidNode, IsDistinct}
use task_a.Graph.Validate.Registry.{node_id}
use task_a.Graph.Validate.Sound.{validate-nodes, validate-links, Provides}
use task_a.Graph.Validate.Acyclic.{Feeds, validate-Acc, validate_total, validate-Chain}
use task_a.Graph.Impact.{impact}
use task_a.Graph.Impact.Exact.{Affected, impact-Affected}

validation : Unit {0}
unfolding lookup insert has_key valid_codes valid_path list_eq has_prefix split join go_up push
    squash clean name_codes valid_name image_codes valid_image check_files check_inputs
    check_validator_files check_outputs check_node check_nodes check_links check_all_links validate
    deps_of is_set visit visit_all visit_nodes
validation = tt

valid_two : validate two_tasks ≡ ok tt
unfolding validation
valid_two = refl

valid_next : validate next_plan ≡ ok tt
unfolding validation
valid_next = refl

invalid_loop : validate loop_plan ≡ err (dependency_cycle "draft")
unfolding validation
invalid_loop = refl

steps : Unit {0}
unfolding lookup insert has_key complete files_of all_succeeded has_succeeded is_succeeded
    insert_all output_of add_inputs tick pause is_clean first_missing from_starting from_running
    from_stopping take_candidate judge validator_files take_verdict run_validator from_validating
    conclude from_validation_stopping advance save_state drive begin reuse_or_begin Step.visit
    Step.visit_all is_settled apply revise carry_over next_revision int_eq
steps = tt

abbrev pub after : ℕ → State
after ℕ.zero = fresh two_tasks
after (ℕ.suc n) = (tick prompt digests "s" (after n) 0).1

finished : complete (after 9) ≡ true
unfolding steps
finished = refl

pub applied : apply digests none two_tasks ≡ ok (after 0)
unfolding steps validation
applied = refl

reached : (n : ℕ) → Reach prompt digests "s" (after n)
reached ℕ.zero = first two_tasks applied
reached (ℕ.suc n) = ticked 0 (reached n)

draft_listed : Memᴰ draft two_tasks.tasks
draft_listed = Memᴰ.head refl

review_listed : Memᴰ review two_tasks.tasks
review_listed = Memᴰ.tail (Memᴰ.head refl)

abbrev drafted : Attempt
drafted = record {
  name = "draft";
  fingerprint = digests.of_work draft [];
  phase = succeeded;
  candidate = some (answer "draft");
  validator_name = "draft-v";
  validation = some (record (answer "draft-v") { files = ("out", "text") ∷ [] });
  outputs = ("out", "text") ∷ [];
  reused = false;
}

drafted_stored : lookup "draft" (after 5).attempts ≡ some drafted
unfolding steps
drafted_stored = refl

Reach-IsAdopted_example : IsAdopted ("out" ∷ []) drafted
unfolding steps
Reach-IsAdopted_example =
    Reach-IsAdopted prompt digests "s" digests-NoCollision (after 5) draft drafted (reached 5)
      draft_listed drafted_stored refl

complete-IsAdopted_example :
    (a : Attempt) × (lookup "review" (after 9).attempts ≡ some a) × IsAdopted ("out" ∷ []) a
unfolding steps
complete-IsAdopted_example =
    complete-IsAdopted prompt digests "s" digests-NoCollision (after 9) review (reached 9) finished
      review_listed

open_world : Respects prompt digests (λ w. Unit {0})
open_world = record {
  ensure_keeps = λ l w q. tt;
  start_keeps = λ l w q. tt;
  result_keeps = λ l w q. tt;
  suspend_keeps = λ l w q. tt;
  save_keeps = λ s w h q. tt;
}

after-IsSound : (n : ℕ) → IsSound digests (after n)
after-IsSound n = Reach-IsSound prompt digests "s" digests-NoCollision (reached n)

tick-Kept_example : Kept digests (λ w. Unit {0}) (after 5) (tick prompt digests "s" (after 5) 0)
tick-Kept_example =
    tick-Kept prompt digests "s" (λ w. Unit {0}) open_world digests-NoCollision (after 5) 0
      (after-IsSound 5) tt

pause-Kept_example : Kept digests (λ w. Unit {0}) (after 2) (pause prompt digests "s" (after 2) 0)
pause-Kept_example =
    pause-Kept prompt digests "s" (λ w. Unit {0}) open_world digests-NoCollision (after 2) 0
      (after-IsSound 2) tt

files_of-review : files_of (after 5) review ≡ some (("text", "text") ∷ [])
unfolding steps
files_of-review = refl

files_of-IsReady_example : IsReady (after 5).attempts input_of_draft
files_of-IsReady_example =
    files_of-IsReady (after 5) review (("text", "text") ∷ []) "text" input_of_draft files_of-review
      (Memᴰ.head refl)

abbrev half : State
half = record (fresh two_tasks) { attempts = ("draft", drafted) ∷ [] }

abbrev replaced : State
replaced = record (fresh next_plan) { previous = ("draft", drafted) ∷ [] }

revised : apply digests (some half) next_plan ≡ ok replaced
unfolding steps validation
revised = refl

apply-IsNext_example : (replaced ≡ half) ⊎ IsNext half next_plan replaced
apply-IsNext_example = apply-IsNext digests half next_plan replaced revised

valid_path_iff_example : (valid_path "a/b" ≡ true) ↔ IsSafe (codes "a/b")
valid_path_iff_example = valid_path_iff "a/b"

validate-nodes_example : All IsValidNode two_tasks.tasks × IsDistinct (map node_id two_tasks.tasks)
validate-nodes_example = validate-nodes two_tasks valid_two

validate-links_example : Provides two_tasks input_of_draft
validate-links_example =
    validate-links two_tasks review "text" input_of_draft valid_two review_listed (Memᴰ.head refl)

validate-Acc_example : Acc (Feeds two_tasks) "review"
validate-Acc_example = validate-Acc two_tasks review valid_two review_listed

validate_total_example : validate two_tasks ≢ err out_of_fuel
validate_total_example = validate_total two_tasks

validate-Chain_example : Chain (Feeds loop_plan) "draft" "draft"
validate-Chain_example = validate-Chain loop_plan "draft" invalid_loop

abbrev goal_digest : Node → String
goal_digest n = String.◌∷◌ "g" n.goal

goal_digest_present : (n : Node) → goal_digest n ≢ ""
goal_digest_present n h = cc

impact-Affected_example :
    (out : List String) × (impact goal_digest two_tasks next_plan ≡ some out)
    × ((x : String) → (elem x out ≡ true) ↔ Affected goal_digest two_tasks.tasks next_plan.tasks x)
impact-Affected_example =
    impact-Affected goal_digest two_tasks next_plan (validate-nodes two_tasks valid_two).1
      goal_digest_present
