-- ===== src/Timetable/Wiring.antt =====
-- Wiring the edges lists each of them at both of its nodes.
use gwr.Base.{
  ℕ, zero, suc, ◌+◌, ◌-◌, ◌<◌, ◌≡◌, refl, sym, ap, ◌∙◌, Option, none, some, List, [], ◌∷◌, ◌++◌,
  length, get_or, set, replicate, Bool, true, false, ◌==◌, if◌then◌else◌, is_some, ==-no, ==-true,
  arith, length-append, length-replicate, ok, error, panic-ne-ok, error-ne-ok, true_ne_false,
  ok_injective, returned, already_connected,
}
use gwr.Timetable.{
  NodeSection, Node, node_at, grown, first_free, update_edge_indices, Edge, wire_edge, wire,
  new_nodes,
}
use gwr.Timetable.Scheduler.Marks.{num_named}
use gwr.Timetable.Scheduler.Completion.{IsConsistent}

abbrev no_name : Option ℕ
no_name = none

abbrev one_if : ℕ → ℕ → ℕ
one_if m n = if m == n then 1 else 0

first_free-named :
    (m n : ℕ) (names : List (Option ℕ))
    → num_named m (first_free n names) ≡ num_named m names + one_if m n
unfolding first_free num_named
first_free-named m n [] = omega arith
first_free-named m n (none ∷ names) = omega arith
first_free-named m n (some k ∷ names) = omega (arith, first_free-named m n names)

named-grown :
    (m k : ℕ) (names : List (Option ℕ))
    → num_named m (names ++ replicate k none) ≡ num_named m names
unfolding num_named
named-grown m zero [] = refl
named-grown m (suc k) [] = named-grown m k []
named-grown m k (none ∷ names) = named-grown m k names
named-grown m k (some n ∷ names) = omega (arith, named-grown m k names)

named-set :
    (m n i : ℕ) (names : List (Option ℕ))
    → i < length names
    → is_some (get_or names i none) ≡ false
    → num_named m (set names i (some n)) ≡ num_named m names + one_if m n
unfolding num_named
named-set m n i [] lt free = absurd (omega arith)
named-set m n zero (none ∷ names) lt free = omega arith
named-set m n zero (some k ∷ names) lt free = absurd (true_ne_false free)
named-set m n (suc i) (none ∷ names) lt free = named-set m n i names (omega arith) free
named-set m n (suc i) (some k ∷ names) lt free =
    omega (arith, named-set m n i names (omega arith) free)

-- An end that is connected names one node more, once.
update_edge_indices-named :
    (m n : ℕ) (idx : Option ℕ) (names updated : List (Option ℕ))
    → update_edge_indices n idx names ≡ ok updated
    → num_named m updated ≡ num_named m names + one_if m n
unfolding update_edge_indices
update_edge_indices-named m n none names updated e =
    rw (sym (ok_injective e)) (first_free-named m n names)
update_edge_indices-named m n (some idx) names updated e =
    by_test (is_some (get_or (grown idx names) idx none)) refl e
  where
    enough : idx < length (grown idx names)
    enough = omega (
      arith,
      length-append names (replicate (idx + 1 - length names) none),
      length-replicate (idx + 1 - length names) no_name,
    )

    by_test :
        (taken : Bool)
        → is_some (get_or (grown idx names) idx none) ≡ taken
        → (if taken then error already_connected else ok (set (grown idx names) idx (some n)))
          ≡ ok updated
        → num_named m updated ≡ num_named m names + one_if m n
    by_test true f e = absurd (error-ne-ok e)
    by_test false f e = rw (sym (ok_injective e)) (
        named-set m n idx (grown idx names) enough f
        ∙ ap (λ k. k + one_if m n) (named-grown m (idx + 1 - length names) names))

node_at-set :
    (nodes : List Node) (t : ℕ) (node x : Node)
    → node_at nodes t ≡ ok node
    → (n : ℕ) → node_at (set nodes t x) n ≡ (if n == t then ok x else node_at nodes n)
node_at-set [] t node x found n = absurd (panic-ne-ok found)
node_at-set (y ∷ nodes) zero node x found zero = refl
node_at-set (y ∷ nodes) zero node x found (suc n) =
    rw (==-no (suc n) 0 (λ e. absurd (omega arith))) refl
node_at-set (y ∷ nodes) (suc t) node x found zero =
    rw (==-no 0 (suc t) (λ e. absurd (omega arith))) refl
node_at-set (y ∷ nodes) (suc t) node x found (suc n) =
    node_at-set nodes t node x found n
    ∙ ap (λ b. if b then ok x else node_at nodes n) (same_test n t)
  where
    same_test : (n t : ℕ) → (n == t) ≡ (suc n == suc t)
    same_test n t = ground arith

-- What an edge adds to the nodes that a node names.
abbrev Adds : List Node → List Node → (ℕ → ℕ → ℕ) → (ℕ → ℕ → ℕ) → Type 0
Adds nodes wired to_inputs to_outputs =
    (n : ℕ) (node : Node)
    → node_at wired n ≡ ok node
    → (old : Node) × (node_at nodes n ≡ ok old)
      × ((m : ℕ) → num_named m node.inputs ≡ num_named m old.inputs + to_inputs n m)
      × ((m : ℕ) → num_named m node.outputs ≡ num_named m old.outputs + to_outputs n m)

module _ (nodes : List Node) (t : ℕ) (old x : Node) (found : node_at nodes t ≡ ok old)
    (to_inputs to_outputs : ℕ → ℕ)
    (more_inputs : (m : ℕ) → num_named m x.inputs ≡ num_named m old.inputs + to_inputs m)
    (more_outputs : (m : ℕ) → num_named m x.outputs ≡ num_named m old.outputs + to_outputs m) where
  set-Adds :
      Adds nodes
        (set nodes t x)
        (λ n m. if n == t then to_inputs m else 0)
        (λ n m. if n == t then to_outputs m else 0)
  set-Adds n node at = by_test (n == t) refl (sym (node_at-set nodes t old x found n) ∙ at)
    where
      by_test :
          (here : Bool)
          → (n == t) ≡ here
          → (if here then ok x else node_at nodes n) ≡ ok node
          → (old : Node) × (node_at nodes n ≡ ok old)
            × ((m : ℕ)
                → num_named m node.inputs
                  ≡ num_named m old.inputs + (if here then to_inputs m else 0))
            × ((m : ℕ)
                → num_named m node.outputs
                  ≡ num_named m old.outputs + (if here then to_outputs m else 0))
      by_test true f e =
          rw (sym (ok_injective e))
            (old, ap (node_at nodes) (==-true n t f) ∙ found, more_inputs, more_outputs)
      by_test false f e = (node, e, (λ m. omega arith), λ m. omega arith)

-- An edge that is added at both of its ends.
Adds-IsConsistent :
    (nodes halfway wired : List Node) (from to : ℕ)
    → Adds nodes halfway
        (λ n m. if n == to then one_if m from else 0)
        (λ n m. if n == to then 0 else 0)
    → Adds halfway wired
        (λ n m. if n == from then 0 else 0)
        (λ n m. if n == from then one_if m to else 0)
    → IsConsistent nodes
    → IsConsistent wired
Adds-IsConsistent nodes halfway wired from to first second consistent n d node_n node_d at_n at_d =
    let (mid_n, found_n, in_n, out_n) = second n node_n at_n in
    let (old_n, was_n, in_n', out_n') = first n mid_n found_n in
    let (mid_d, found_d, in_d, out_d) = second d node_d at_d in
    let (old_d, was_d, in_d', out_d') = first d mid_d found_d in
    ends (n == to) (d == from) (n == from) (d == to) _ _ _ _ _ _ (out_d n) (out_d' n) (in_n d)
      (in_n' d) (consistent n d old_n old_d was_n was_d)
  where
    ends :
        (n_to d_from n_from d_to : Bool) (a b c x y z : ℕ)
        → a ≡ b + (if d_from then (if n_to then 1 else 0) else 0)
        → b ≡ c + (if d_to then 0 else 0)
        → x ≡ y + (if n_from then 0 else 0)
        → y ≡ z + (if n_to then (if d_from then 1 else 0) else 0)
        → c ≡ z
        → a ≡ x
    ends n_to d_from n_from d_to a b c x y z p q r s t = ground arith

wire_edge-IsConsistent :
    (nodes wired : List Node) (edge : Edge)
    → wire_edge nodes edge ≡ ok wired
    → IsConsistent nodes
    → IsConsistent wired
unfolding wire_edge
wire_edge-IsConsistent nodes wired edge e consistent =
    let (to_node, found_to, e1) = returned (node_at nodes edge.to) _ e in
    let (inputs, into, e2) =
      returned (update_edge_indices edge.from edge.to_edge to_node.inputs) _ e1 in
    let halfway = set nodes edge.to (record to_node { inputs = inputs }) in
    let (from_node, found_from, e3) = returned (node_at halfway edge.from) _ e2 in
    let (outputs, out, e4) =
      returned (update_edge_indices edge.to edge.from_edge from_node.outputs) _ e3 in
    let first =
      set-Adds nodes edge.to to_node (record to_node { inputs = inputs }) found_to
        (λ m. one_if m edge.from) (λ m. 0)
        (λ m. update_edge_indices-named m edge.from edge.to_edge to_node.inputs inputs into)
        (λ m. omega arith) in
    let second =
      set-Adds halfway edge.from from_node (record from_node { outputs = outputs }) found_from
        (λ m. 0) (λ m. one_if m edge.to) (λ m. omega arith)
        (λ m. update_edge_indices-named m edge.to edge.from_edge from_node.outputs outputs out) in
    rw (sym (ok_injective e4)) (
      Adds-IsConsistent nodes halfway
        (set halfway edge.from (record from_node { outputs = outputs })) edge.from edge.to first
        second consistent)

new_nodes-empty :
    (sections : List NodeSection) (n : ℕ) (node : Node)
    → node_at (new_nodes sections) n ≡ ok node
    → (node.inputs ≡ []) × (node.outputs ≡ [])
new_nodes-empty [] n node e = absurd (panic-ne-ok e)
new_nodes-empty (section ∷ sections) zero node e =
    (ap (λ m. m.inputs) (sym (ok_injective e)), ap (λ m. m.outputs) (sym (ok_injective e)))
new_nodes-empty (section ∷ sections) (suc n) node e = new_nodes-empty sections n node e

-- Once the edges of a graph are wired, every edge is listed as often at the node that it leaves as at
-- the node that it enters.
pub wire-IsConsistent :
    (sections : List NodeSection) (edges : List Edge) (nodes : List Node)
    → wire (new_nodes sections) edges ≡ ok nodes
    → IsConsistent nodes
unfolding wire num_named
wire-IsConsistent sections edges nodes e = all_edges (new_nodes sections) edges e (unwired sections)
  where
    unwired : (sections : List NodeSection) → IsConsistent (new_nodes sections)
    unwired sections n d node_n node_d at_n at_d =
        rw ((new_nodes-empty sections d node_d at_d).1, (new_nodes-empty sections n node_n at_n).0)
          refl

    all_edges :
        (start : List Node) (edges : List Edge)
        → wire start edges ≡ ok nodes
        → IsConsistent start
        → IsConsistent nodes
    all_edges start [] e consistent = rw (sym (ok_injective e)) consistent
    all_edges start (edge ∷ edges) e consistent =
        let (wired, first, rest) = returned (wire_edge start edge) _ e in
        all_edges wired edges rest (wire_edge-IsConsistent start wired edge first consistent)
