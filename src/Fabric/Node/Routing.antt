-- ===== src/Fabric/Node/Routing.antt =====
-- Objects come closer to their destination with every hop, and are delivered at its port.
use gwr.Base.{
  ap, sym, ◌∙◌, ℕ, ◌+◌, ◌-◌, ◌<◌, ◌≡◌, ◌≢◌, inl, inr, ◌==◌, ltb, if◌then◌else◌, Outcome, ok, error,
  panic, arith, Bool-cases,
}
use mathlib.Core.Path.{subst}
use native.Mathlib.Decide.{dec_lt, ℕ_discrete}
use gwr.Fabric.{fabric_port_index_to_col_row_port}
use gwr.Fabric.Node.{
  FabricRoutingAlgorithm, column_first, row_first, NodeRouter, by_col, by_row, by_algorithm,
  dest_port, remap, route,
}

-- `|a - b|`
abbrev pub apart : ℕ → ℕ → ℕ
apart a b = (a - b) + (b - a)

-- The number of hops between two nodes.
abbrev pub hops : ℕ × ℕ → ℕ × ℕ → ℕ
hops (a, b) (c, d) = apart a c + apart b d

-- The neighbour behind a port, or the node itself behind an egress port.
unfoldable pub neighbour : ℕ → ℕ × ℕ → ℕ × ℕ
neighbour p (c, r) =
    if p == 0
    then (c - 1, r)
    else if p == 1
    then (c + 1, r)
    else if p == 2
    then (c, r - 1)
    else if p == 3
    then (c, r + 1)
    else (c, r)

module _ (r : NodeRouter) (col row port : ℕ) where
  -- A port to a neighbour that is one hop closer to the column and the row.
  abbrev pub IsCloser : ℕ → Type 0
  IsCloser p =
      (p < 4)
      × (hops (neighbour p (r.node_col, r.node_row)) (col, row) + 1
          ≡ hops (r.node_col, r.node_row) (col, row))

  by_col-IsCloser : r.node_col ≢ col → IsCloser (by_col r col)
  unfolding neighbour
  by_col-IsCloser h = elim (Bool-cases (ltb r.node_col col)) [
    | inl e ↦ rw e (omega arith, ground arith)
    | inr e ↦ rw e (omega arith, ground arith)
  ]

  by_row-IsCloser : r.node_row ≢ row → IsCloser (by_row r row)
  unfolding neighbour
  by_row-IsCloser h = elim (Bool-cases (ltb r.node_row row)) [
    | inl e ↦ rw e (omega arith, ground arith)
    | inr e ↦ rw e (omega arith, ground arith)
  ]

  by_algorithm-IsCloser :
      (a : FabricRoutingAlgorithm)
      → r.node_col ≢ col
      → r.node_row ≢ row
      → IsCloser (by_algorithm a r col row)
  by_algorithm-IsCloser column_first h k = by_col-IsCloser h
  by_algorithm-IsCloser row_first h k = by_row-IsCloser k

  pub dest_port-IsCloser :
      ((r.node_col ≡ col) × (r.node_row ≡ row) → dest_port r (col, row, port) ≡ port + 4)
      × (0 < hops (r.node_col, r.node_row) (col, row) → IsCloser (dest_port r (col, row, port)))
  unfolding dest_port
  dest_port-IsCloser = (
    (λ h. ground arith),
    λ h. elim (Bool-cases (r.node_col == col)) [
      | inl c ↦ elim (Bool-cases (r.node_row == row)) [
        | inl d ↦ absurd (ground arith)
        | inr d ↦ rw (c, d) (by_row-IsCloser (ground arith))
      ]
      | inr c ↦ elim (Bool-cases (r.node_row == row)) [
        | inl d ↦ rw (c, d) (by_col-IsCloser (ground arith))
        | inr d ↦ rw (c, d) (by_algorithm-IsCloser r.fabric_algorithm (ground arith) (ground arith))
      ]
    ],
  )

remap-above : (index p : ℕ) → index < p → remap index p ≡ ok (p - 1)
unfolding remap
remap-above index p h = ground arith

remap-below : (index p : ℕ) → p < index → remap index p ≡ ok p
unfolding remap
remap-below index p h = ground arith

abbrev port_or_zero : Outcome ℕ → ℕ
port_or_zero (ok p) = p
port_or_zero (error e) = 0
port_or_zero panic = 0

-- The outputs of a router stand for the other ports, one to one, and of `n` ports it uses the first
-- `n - 1` outputs. To route to the port that the object came in by fails.
pub remap_lem :
    (n index : ℕ)
    → (remap index index ≡ panic)
      × ((p : ℕ) → p ≢ index → p < n → index < n → (o : ℕ) × (remap index p ≡ ok o) × (o < n - 1))
      × ((p q : ℕ) → p ≢ index → q ≢ index → remap index p ≡ remap index q → p ≡ q)
unfolding remap
remap_lem n index = (ground arith, output, injective)
  where
    output :
        (p : ℕ) → p ≢ index → p < n → index < n → (o : ℕ) × (remap index p ≡ ok o) × (o < n - 1)
    output p h k l = elim (dec_lt index p) [
      | yes above ↦ (p - 1, remap-above index p above, omega arith)
      | no other ↦ (p, remap-below index p (omega arith), omega arith)
    ]

    injective : (p q : ℕ) → p ≢ index → q ≢ index → remap index p ≡ remap index q → p ≡ q
    injective p q h k e = elim (dec_lt index p) [
      | yes up ↦ elim (dec_lt index q) [
        | yes up_q ↦
            omega
              (arith, ap port_or_zero (sym (remap-above index p up) ∙ e ∙ remap-above index q up_q))
        | no other_q ↦ omega (
          arith,
          ap port_or_zero (sym (remap-above index p up) ∙ e ∙ remap-below index q (omega arith)),
        )
      ]
      | no other ↦ elim (dec_lt index q) [
        | yes up_q ↦ omega (
          arith,
          ap port_or_zero (sym (remap-below index p (omega arith)) ∙ e ∙ remap-above index q up_q),
        )
        | no other_q ↦ omega (
          arith,
          ap port_or_zero
              (sym (remap-below index p (omega arith)) ∙ e ∙ remap-below index q (omega arith)),
        )
      ]
    ]

-- The port of the node behind an output of a router, which has none for its own port.
unfoldable pub port_behind : ℕ → ℕ → ℕ
port_behind index output = if ltb output index then output else output + 1

port_behind-remap :
    (index p : ℕ) → p ≢ index → (o : ℕ) × (remap index p ≡ ok o) × (port_behind index o ≡ p)
unfolding port_behind
port_behind-remap index p h = elim (dec_lt index p) [
  | yes above ↦ (p - 1, remap-above index p above, ground arith)
  | no other ↦ (p, remap-below index p (omega arith), ground arith)
]

-- What a router answers for an object to the port `port` of the node in column `col` and row `row`.
pub data Routed (r : NodeRouter) (col row port : ℕ) (answer : Outcome ℕ) : Type 0 where
  own_port : dest_port r (col, row, port) ≡ r.index → answer ≡ panic → Routed r col row port answer
  delivers :
      (output : ℕ)
      → answer ≡ ok output
      → hops (r.node_col, r.node_row) (col, row) ≡ 0
      → port_behind r.index output ≡ port + 4
      → Routed r col row port answer
  forwards :
      (output : ℕ)
      → answer ≡ ok output
      → 0 < hops (r.node_col, r.node_row) (col, row)
      → IsCloser r col row port (port_behind r.index output)
      → Routed r col row port answer

remap-Routed :
    (r : NodeRouter) (col row port : ℕ)
    → Routed r col row port (remap r.index (dest_port r (col, row, port)))
remap-Routed r col row port = elim (ℕ_discrete (dest_port r (col, row, port)) r.index) [
  | yes own ↦ own_port own (rw own ((remap_lem 0 r.index).0))
  | no other ↦
      let (output, routed, behind) =
        port_behind-remap r.index (dest_port r (col, row, port)) other in
      let (here, closer) = dest_port-IsCloser r col row port in
      elim (dec_lt 0 (hops (r.node_col, r.node_row) (col, row))) [
        | yes far ↦
            forwards output routed far (subst (IsCloser r col row port) (sym behind) (closer far))
        | no at ↦ delivers output routed (omega arith) (behind ∙ here (omega arith, omega arith))
      ]
]

-- A router panics where the port that it chooses is the one that its objects come in by. Otherwise it
-- sends the object to an output: in a node that is not the destination, one behind which is a neighbour
-- one hop closer to the destination, by the rows or the columns of the grid; in the node that is the
-- destination, the one for the egress port of the destination.
pub route-Routed :
    (r : NodeRouter) (destination : ℕ)
    → let place = fabric_port_index_to_col_row_port r.config destination in
      Routed r place.0 place.1 place.2 (route r destination)
unfolding route
route-Routed r destination = remap-Routed r _ _ _
