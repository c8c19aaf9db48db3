-- ===== src/Timetable/Scheduler/Marks.antt =====
-- A completed node is counted off at each of its successors.
use gwr.Base.{
  ℕ, suc, ◌+◌, ◌-◌, ◌≡◌, ◌≢◌, refl, sym, ap, ◌∙◌, Option, none, some, List, [], ◌∷◌, Bool, true,
  false, ◌==◌, if◌then◌else◌, ==-yes, ==-no, arith, ok,
}
use gwr.Timetable.{Node, section_pe, node_at}
use gwr.Timetable.Scheduler.{Scheduler, insert, update, num_unresolved, mark_on}

-- How often a list names a node.
unfoldable pub num_named : ℕ → List (Option ℕ) → ℕ
num_named n [] = 0
num_named n (none ∷ names) = num_named n names
num_named n (some m ∷ names) = (if n == m then 1 else 0) + num_named n names

-- The nodes that are left over by a change of the counts and the ready tasks.
abbrev pub SameProgress : Scheduler → Scheduler → Type 0
SameProgress s t = (t.completed ≡ s.completed) × (t.active ≡ s.active) × (t.remaining ≡ s.remaining)

module _ (nodes : List Node) where
  -- Of a task that is neither complete nor active, the count says how many of its inputs are not
  -- complete, and the task is ready when there is none; `owed` lists the nodes that are still to be
  -- counted off.
  abbrev pub IsCounted : List (Option ℕ) → Scheduler → Type 0
  IsCounted owed s =
      (n pe : ℕ) (node : Node)
      → node_at nodes n ≡ ok node
      → section_pe node.node_section ≡ some pe
      → s.completed n ≡ false
      → s.active n ≡ false
      → (s.unresolved_input_counts n ≡ num_unresolved s.completed node.inputs + num_named n owed)
        × (s.ready pe n ≡ (s.unresolved_input_counts n == 0))

  -- A ready task is one of its processing element that is neither complete nor active.
  abbrev pub IsSound : Scheduler → Type 0
  IsSound s =
      (pe n : ℕ)
      → s.ready pe n ≡ true
      → ((node : Node) × (node_at nodes n ≡ ok node) × (section_pe node.node_section ≡ some pe))
        × (s.completed n ≡ false)
        × (s.active n ≡ false)

-- `mark_on` with the outcomes of its tests.
abbrev pub marked : Bool → Bool → Bool → ℕ → ℕ → Scheduler → Scheduler
marked done none_left last node_idx pe_idx s =
    if done then s else if none_left then s else record s {
      unresolved_input_counts = update s.unresolved_input_counts node_idx (λ n. n - 1);
      ready = if last then update s.ready pe_idx (insert node_idx) else s.ready;
    }

pub marked-progress :
    (done none_left last : Bool) (o pe : ℕ) (s : Scheduler)
    → SameProgress s (marked done none_left last o pe s)
marked-progress true none_left last o pe s = (refl, refl, refl)
marked-progress false true last o pe s = (refl, refl, refl)
marked-progress false false last o pe s = (refl, refl, refl)

insert-other : (b : Bool) (o n : ℕ) (f : ℕ → Bool) → n ≢ o → (if b then insert o f else f) n ≡ f n
insert-other true o n f ne = rw (==-no n o ne) refl
insert-other false o n f ne = refl

marked_other :
    (done none_left last : Bool) (o pe : ℕ) (s : Scheduler) (n : ℕ)
    → n ≢ o
    → ((marked done none_left last o pe s).unresolved_input_counts n ≡ s.unresolved_input_counts n)
      × ((p : ℕ) → (marked done none_left last o pe s).ready p n ≡ s.ready p n)
marked_other true none_left last o pe s n ne = (refl, λ p. refl)
marked_other false true last o pe s n ne = (refl, λ p. refl)
marked_other false false true o pe s n ne =
    (rw (==-no n o ne) refl, λ p. insert-other (p == pe) o n (s.ready p) ne)
marked_other false false false o pe s n ne = (rw (==-no n o ne) refl, λ p. refl)

marked_same :
    (last : Bool) (o pe : ℕ) (s : Scheduler)
    → s.ready pe o ≡ false
    → ((marked false false last o pe s).unresolved_input_counts o ≡ s.unresolved_input_counts o - 1)
      × ((marked false false last o pe s).ready pe o ≡ last)
marked_same true o pe s e =
    (rw (==-yes o o refl) refl, rw (==-yes pe pe refl, ==-yes o o refl) refl)
marked_same false o pe s e = (rw (==-yes o o refl) refl, e)

pub num_named_elsewhere :
    (n o : ℕ) (rest : List (Option ℕ)) → n ≢ o → num_named n (some o ∷ rest) ≡ num_named n rest
unfolding num_named
num_named_elsewhere n o rest ne = rw (==-no n o ne) (omega arith)

num_named_here :
    (o : ℕ) (rest : List (Option ℕ)) → num_named o (some o ∷ rest) ≡ suc (num_named o rest)
unfolding num_named
num_named_here o rest = rw (==-yes o o refl) (omega arith)

module _ (nodes : List Node) (o pe_o : ℕ) (rest : List (Option ℕ)) (s : Scheduler)
    (counted : IsCounted nodes (some o ∷ rest) s) where
  -- What the invariant says of the count of a task.
  abbrev Counted : Scheduler → ℕ → ℕ → Node → Type 0
  Counted t n pe node =
      (t.unresolved_input_counts n ≡ num_unresolved s.completed node.inputs + num_named n rest)
      × (t.ready pe n ≡ (t.unresolved_input_counts n == 0))

  pub other-Counted :
      (done none_left last : Bool) (n pe : ℕ) (node : Node)
      → n ≢ o
      → node_at nodes n ≡ ok node
      → section_pe node.node_section ≡ some pe
      → s.completed n ≡ false
      → s.active n ≡ false
      → Counted (marked done none_left last o pe_o s) n pe node
  other-Counted done none_left last n pe node ne found on unfinished idle =
      let (count, ready) = counted n pe node found on unfinished idle in
      let (same_count, same_ready) = marked_other done none_left last o pe_o s n ne in
      (
        same_count
            ∙ count
            ∙ ap (λ k. num_unresolved s.completed node.inputs + k)
                (num_named_elsewhere n o rest ne),
        same_ready pe ∙ ready ∙ ap (λ k. k == 0) (sym same_count),
      )

  pub own-Counted :
      (node : Node)
      → node_at nodes o ≡ ok node
      → section_pe node.node_section ≡ some pe_o
      → s.completed o ≡ false
      → s.active o ≡ false
      → Counted (mark_on o (some pe_o) s) o pe_o node
  unfolding mark_on
  own-Counted node found on unfinished idle =
      let (count, ready) = counted o pe_o node found on unfinished idle in
      let some_left : s.unresolved_input_counts o ≢ 0 =
        λ e. absurd (omega (arith, num_named_here o rest)) in
      let waiting = ready ∙ ==-no (s.unresolved_input_counts o) 0 some_left in
      let (same_count, same_ready) =
        marked_same (s.unresolved_input_counts o - 1 == 0) o pe_o s waiting in
      rw (unfinished, idle, ==-no (s.unresolved_input_counts o) 0 some_left)
        (
          same_count ∙ omega (arith, count, num_named_here o rest),
          same_ready ∙ ap (λ k. k == 0) (sym same_count),
        )
