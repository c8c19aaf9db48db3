-- ===== src/Timetable/Checks/Tensors.antt =====
-- The checks of a graph make the outputs of its computations and stores tensors.
use gwr.Base.{
  ℕ, zero, suc, ◌≡◌, refl, sym, ap, ◌∙◌, Option, none, some, List, [], ◌∷◌, length, All, Bool, true,
  false, ◌==◌, not, if◌then◌else◌, ok, error, panic-ne-ok, error-ne-ok, ok_injective, returned,
  ◌>>=◌, true_ne_false, wrong_count,
}
use gwr.Timetable.{
  load, store, TensorViewSection, TensorConfigSection, NodeSection, compute, memory, tensor, Node,
  section_pe, node_at,
}
use gwr.Timetable.Checks.{
  tensor_config_of, validate_side, validate_compute_node, validate_memory_side, validate_node,
  validate, validate_view_in_range,
}
use gwr.Timetable.Scheduler.Outputs.{IsTensorAt, completes, HasTensorOutputs}

tensor_config-pe :
    (section : NodeSection) {config : TensorConfigSection}
    → tensor_config_of section ≡ ok config
    → section_pe section ≡ none
tensor_config-pe (compute pe input_views output_views) e = absurd (error-ne-ok e)
tensor_config-pe (memory op pe view) e = absurd (error-ne-ok e)
tensor_config-pe (tensor config) e = refl

module _ (nodes : List Node) where
  validate_side_tensors :
      (indices : List (Option ℕ)) (views : List (Option TensorViewSection))
      → validate_side nodes indices views ≡ ok tt
      → All (IsTensorAt nodes) indices
  unfolding validate_side
  validate_side_tensors [] views e = tt
  validate_side_tensors (none ∷ indices) [] e = absurd (panic-ne-ok e)
  validate_side_tensors (none ∷ indices) (view ∷ views) e =
      (tt, validate_side_tensors indices views e)
  validate_side_tensors (some idx ∷ indices) [] e = absurd (panic-ne-ok e)
  validate_side_tensors (some idx ∷ indices) (view ∷ views) e =
      let (node, found, e1) = returned (node_at nodes idx) _ e in
      let (config, is, e2) = returned (tensor_config_of node.node_section) _ e1 in
      let (checked, in_range, e3) = returned (validate_view_in_range view config) _ e2 in
      ((node, found, tensor_config-pe node.node_section is), validate_side_tensors indices views e3)

  validate_memory_side_tensors :
      (indices : List (Option ℕ)) (view : Option TensorViewSection)
      → validate_memory_side nodes indices view ≡ ok tt
      → All (IsTensorAt nodes) indices
  unfolding validate_memory_side
  validate_memory_side_tensors [] view e = absurd (error-ne-ok e)
  validate_memory_side_tensors (none ∷ []) view e = absurd (error-ne-ok e)
  validate_memory_side_tensors (none ∷ another ∷ more) view e = absurd (error-ne-ok e)
  validate_memory_side_tensors (some idx ∷ another ∷ more) view e = absurd (error-ne-ok e)
  validate_memory_side_tensors (some idx ∷ []) view e =
      let (node, found, e1) = returned (node_at nodes idx) _ e in
      let (config, is, e2) = returned (tensor_config_of node.node_section) _ e1 in
      ((node, found, tensor_config-pe node.node_section is), tt)

  validate_compute_node_tensors :
      (node : Node) (input_views output_views : List (Option TensorViewSection))
      → validate_compute_node nodes node input_views output_views ≡ ok tt
      → All (IsTensorAt nodes) node.outputs
  unfolding validate_compute_node
  validate_compute_node_tensors node input_views output_views e =
      by_tests (not (length node.inputs == length input_views))
        (not (length node.outputs == length output_views)) e
    where
      by_tests :
          (few other : Bool)
          → (if few
              then error wrong_count
              else if other
              then error wrong_count
              else (validate_side nodes node.inputs input_views >>= λ checked.
                  validate_side nodes node.outputs output_views))
            ≡ ok tt
          → All (IsTensorAt nodes) node.outputs
      by_tests true other e = absurd (error-ne-ok e)
      by_tests false true e = absurd (error-ne-ok e)
      by_tests false false e =
          let (checked, inputs, outputs) =
            returned (validate_side nodes node.inputs input_views) _ e in
          validate_side_tensors node.outputs output_views outputs

  validate_node_tensors :
      (node : Node) (section : NodeSection)
      → validate_node nodes node section ≡ ok tt
      → completes section ≡ true
      → All (IsTensorAt nodes) node.outputs
  unfolding validate_node
  validate_node_tensors node (compute pe input_views output_views) e c =
      validate_compute_node_tensors node input_views output_views e
  validate_node_tensors node (memory load pe view) e c = absurd (true_ne_false (sym c))
  validate_node_tensors node (memory store pe view) e c =
      validate_memory_side_tensors node.outputs view e
  validate_node_tensors node (tensor config) e c = absurd (true_ne_false (sym c))

  validate_tensors :
      (rest : List Node)
      → validate nodes rest ≡ ok tt
      → (n : ℕ) (node : Node) → node_at rest n ≡ ok node
      → completes node.node_section ≡ true
      → All (IsTensorAt nodes) node.outputs
  unfolding validate
  validate_tensors [] e n node found c = absurd (panic-ne-ok found)
  validate_tensors (first ∷ rest) e zero node found c =
      let (checked, here, later) = returned (validate_node nodes first first.node_section) _ e in
      validate_node_tensors node node.node_section
        (sym (ap (λ m. validate_node nodes m m.node_section) (ok_injective found)) ∙ here) c
  validate_tensors (first ∷ rest) e (suc n) node found c =
      let (checked, here, later) = returned (validate_node nodes first first.node_section) _ e in
      validate_tensors rest later n node found c

-- A graph that passes the checks: the outputs of computations and stores are tensors.
pub validate-HasTensorOutputs :
    (nodes : List Node) → validate nodes nodes ≡ ok tt → HasTensorOutputs nodes
validate-HasTensorOutputs nodes e n node found c = validate_tensors nodes nodes e n node found c
