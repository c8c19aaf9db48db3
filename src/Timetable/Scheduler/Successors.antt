-- ===== src/Timetable/Scheduler/Successors.antt =====
-- Counting a completed node off at its successors keeps every count right.
use gwr.Base.{
  ℕ, ◌+◌, ◌-◌, ◌≡◌, ◌≢◌, refl, sym, ap, ◌∙◌, Option, none, some, List, [], ◌∷◌, Bool, true, false,
  ◌==◌, ◌||◌, if◌then◌else◌, ==-true, ok, ok_injective, returned,
}
use native.Mathlib.Decide.{ℕ_discrete}
use gwr.Timetable.{Node, section_pe, node_at}
use gwr.Timetable.Scheduler.{
  Scheduler, insert, num_unresolved, mark_on, mark_dependency_completed, mark_successors,
}
use gwr.Timetable.Scheduler.Marks.{
  num_named, SameProgress, IsCounted, IsSound, marked, marked-progress, num_named_elsewhere,
  other-Counted, own-Counted,
}

pub mark_on-progress : (o : ℕ) (p : Option ℕ) (s : Scheduler) → SameProgress s (mark_on o p s)
unfolding mark_on
mark_on-progress o none s = (refl, refl, refl)
mark_on-progress o (some pe) s =
    marked-progress (s.completed o || s.active o) (s.unresolved_input_counts o == 0)
      (s.unresolved_input_counts o - 1 == 0) o pe s

some_injective : {a b : ℕ} → ◌≡◌ {A = Option ℕ} (some a) (some b) → a ≡ b
some_injective e = cc

none_ne_some : {a : ℕ} → ¬ (◌≡◌ {A = Option ℕ} none (some a))
none_ne_some e = cc

module _ (nodes : List Node) (o : ℕ) (node_o : Node) (found_o : node_at nodes o ≡ ok node_o) where
  same_node : (n : ℕ) (node : Node) → n ≡ o → node_at nodes n ≡ ok node → node ≡ node_o
  same_node n node e found = ok_injective (sym found ∙ ap (node_at nodes) e ∙ found_o)

  mark_on-IsCounted :
      (p : Option ℕ) (rest : List (Option ℕ)) (s : Scheduler)
      → section_pe node_o.node_section ≡ p
      → IsCounted nodes (some o ∷ rest) s
      → IsCounted nodes rest (mark_on o p s)
  unfolding mark_on
  mark_on-IsCounted none rest s at_o counted n pe node found on unfinished idle =
      let (count, ready) = counted n pe node found on unfinished idle in
      let ne : n ≢ o = λ e.
        none_ne_some
          (sym at_o ∙ ap (λ m. section_pe m.node_section) (sym (same_node n node e found)) ∙ on) in
      (
        count
            ∙ ap (λ k. num_unresolved s.completed node.inputs + k)
                (num_named_elsewhere n o rest ne),
        ready,
      )
  mark_on-IsCounted (some pe_o) rest s at_o counted n pe node found on unfinished idle =
      let progress = mark_on-progress o (some pe_o) s in
      let unfinished' = ap (λ f. f n) (sym progress.0) ∙ unfinished in
      let idle' = ap (λ f. f n) (sym progress.1) ∙ idle in
      rw (progress.0) (elim (ℕ_discrete n o) [
        | yes e ↦
            let on_o =
              some_injective
                (sym on ∙ ap (λ m. section_pe m.node_section) (same_node n node e found) ∙ at_o) in
            rw (e, on_o)
              (own-Counted nodes o pe_o rest s counted node (rw e at found) (on ∙ ap some on_o)
                (rw e at unfinished') (rw e at idle'))
        | no ne ↦
            other-Counted nodes o pe_o rest s counted (s.completed o || s.active o)
              (s.unresolved_input_counts o == 0) (s.unresolved_input_counts o - 1 == 0) n pe node ne
              found on unfinished' idle'
      ])

  mark_on-IsSound :
      (p : Option ℕ) (s : Scheduler)
      → section_pe node_o.node_section ≡ p
      → IsSound nodes s
      → IsSound nodes (mark_on o p s)
  unfolding mark_on
  mark_on-IsSound none s at_o sound = sound
  mark_on-IsSound (some pe_o) s at_o sound =
      by_tests (s.completed o) refl (s.active o) refl (s.unresolved_input_counts o == 0)
        (s.unresolved_input_counts o - 1 == 0)
    where
      by_tests :
          (done : Bool)
          → s.completed o ≡ done
          → (busy : Bool) → s.active o ≡ busy
          → (none_left last : Bool) → IsSound nodes (marked (done || busy) none_left last o pe_o s)
      by_tests true e busy f none_left last = sound
      by_tests false e true f none_left last = sound
      by_tests false e false f true last = sound
      by_tests false e false f false false = sound
      by_tests false e false f false true = λ pe n. by_entry pe n (pe == pe_o) refl (n == o) refl
        where
          by_entry :
              (pe n : ℕ) (same_pe : Bool)
              → (pe == pe_o) ≡ same_pe
              → (same_node : Bool) → (n == o) ≡ same_node
              → (if same_pe then insert o (s.ready pe) else s.ready pe) n ≡ true
              → ((node : Node) × (node_at nodes n ≡ ok node)
                  × (section_pe node.node_section ≡ some pe))
                × (s.completed n ≡ false)
                × (s.active n ≡ false)
          by_entry pe n false g same h ready = sound pe n ready
          by_entry pe n true g false h ready = sound pe n (rw h at ready)
          by_entry pe n true g true h ready =
              let here = ==-true n o h in
              (
                (
                  node_o,
                  ap (node_at nodes) here ∙ found_o,
                  at_o ∙ ap some (sym (==-true pe pe_o g)),
                ),
                ap s.completed here ∙ e,
                ap s.active here ∙ f,
              )

-- Once all successors are counted off, every count is right, and nothing else has changed.
pub mark_successors-IsCounted :
    (nodes : List Node) (owed : List (Option ℕ)) (s t : Scheduler)
    → mark_successors nodes owed s ≡ ok t
    → IsCounted nodes owed s
    → IsSound nodes s
    → IsCounted nodes [] t × IsSound nodes t × SameProgress s t
unfolding mark_successors mark_dependency_completed num_named
mark_successors-IsCounted nodes [] s t e counted sound =
    rw (sym (ok_injective e)) (counted, sound, (refl, refl, refl))
mark_successors-IsCounted nodes (none ∷ owed) s t e counted sound =
    mark_successors-IsCounted nodes owed s t e counted sound
mark_successors-IsCounted nodes (some o ∷ owed) s t e counted sound =
    let (after, made, rest) =
      returned (mark_dependency_completed nodes o s) (mark_successors nodes owed) e in
    let (node_o, found, here) = returned (node_at nodes o) _ made in
    let p = section_pe node_o.node_section in
    let same = ok_injective here in
    let progress = mark_on-progress o p s in
    let (all_counted, all_sound, later) =
      mark_successors-IsCounted nodes owed (mark_on o p s) t
        (ap (mark_successors nodes owed) same ∙ rest)
        (mark_on-IsCounted nodes o node_o found p owed s refl counted)
        (mark_on-IsSound nodes o node_o found p s refl sound) in
    (all_counted, all_sound, (later.0 ∙ progress.0, later.1 ∙ progress.1, later.2 ∙ progress.2))
