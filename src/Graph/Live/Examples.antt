-- ===== src/Graph/Live/Examples.antt =====
-- The sample plan in a world that answers.
use task_a.Prelude.{String, ◌*◌, [], ◌∷◌, has_key, ok, ◌≡◌, refl, true, sym, subst, Memᴰ}
use task_a.Graph.Model.{Node}
use task_a.Graph.Progress.{complete}
use task_a.Graph.Samples.{two_tasks, digests, prompt, answer}
use task_a.Graph.Examples.{applied, after}
use task_a.Graph.Engine.Step.{is_clean}
use task_a.Graph.Live.Track.{IsPrompt, Delivers}
use task_a.Graph.Live.Complete.{ticks, apply-complete}

prompt-IsPrompt : IsPrompt prompt answer
unfolding is_clean
prompt-IsPrompt = record {
  ensures = λ l w. refl;
  starts = λ name w. refl;
  answers = λ name w. refl;
  stops = λ name w. refl;
  saves = λ s w. refl;
  own = λ name. refl;
  clean = λ name. refl;
}

out-Delivers : (name : String) → Delivers ("out" ∷ []) (answer name)
unfolding has_key
out-Delivers name = (refl, (refl, tt))

two_tasks-Delivers :
    (n : Node) (name : String) → Memᴰ n two_tasks.tasks → Delivers n.outputs (answer name)
two_tasks-Delivers n name (Memᴰ.head e) =
    subst (λ (x : Node). Delivers x.outputs (answer name)) (sym e) (out-Delivers name)
two_tasks-Delivers n name (Memᴰ.tail (Memᴰ.head e)) =
    subst (λ (x : Node). Delivers x.outputs (answer name)) (sym e) (out-Delivers name)
two_tasks-Delivers n name (Memᴰ.tail (Memᴰ.tail l)) = elim l [ ]

apply-complete_example :
    ((ticks prompt digests "s" (6 * 2) (after 0) 0).0 ≡ ok tt)
    × (complete (ticks prompt digests "s" (6 * 2) (after 0) 0).1 ≡ true)
apply-complete_example =
    apply-complete prompt digests "s" answer prompt-IsPrompt two_tasks (after 0) 0 applied
      (λ n files m.
        two_tasks-Delivers n
          (digests.name_of "s" two_tasks.id two_tasks.revision n.id (digests.of_work n files)) m)
