-- ===== src/Fabric/Node.antt =====
-- gwr-models/src/fabric/node.rs: how a node routes an object towards its destination.
pub mod Routing
use gwr.Base.{ℕ, ◌+◌, ◌-◌, Bool, true, false, ◌==◌, ◌&&◌, ltb, if◌then◌else◌, Outcome, ok, panic}
use gwr.Fabric.{FabricConfig, fabric_port_index_to_col_row_port}

pub data FabricRoutingAlgorithm : Type 0 where
  column_first row_first : FabricRoutingAlgorithm

pub data Port : Type 0 where
  col_minus col_plus row_minus row_plus ingress : Port

-- `port as usize`
abbrev pub as_usize : Port → ℕ
as_usize col_minus = 0
as_usize col_plus = 1
as_usize row_minus = 2
as_usize row_plus = 3
as_usize ingress = 4

-- The router behind the input `index` of a node.
pub record NodeRouter : Type 0 where
  pub index : ℕ
  pub node_col : ℕ
  pub node_row : ℕ
  pub fabric_algorithm : FabricRoutingAlgorithm
  pub config : FabricConfig

abbrev pub by_col : NodeRouter → ℕ → ℕ
by_col r dest_col = if ltb r.node_col dest_col then as_usize col_plus else as_usize col_minus

abbrev pub by_row : NodeRouter → ℕ → ℕ
by_row r dest_row = if ltb r.node_row dest_row then as_usize row_plus else as_usize row_minus

-- Where neither the column nor the row is reached.
abbrev pub by_algorithm : FabricRoutingAlgorithm → NodeRouter → ℕ → ℕ → ℕ
by_algorithm column_first r dest_col dest_row = by_col r dest_col
by_algorithm row_first r dest_col dest_row = by_row r dest_row

-- The port of the node that the object leaves by.
unfoldable pub dest_port : NodeRouter → ℕ × ℕ × ℕ → ℕ
dest_port r (dest_col, dest_row, port) =
    if r.node_col == dest_col && r.node_row == dest_row
    then port + as_usize ingress
    else if r.node_col == dest_col
    then by_row r dest_row
    else if r.node_row == dest_row
    then by_col r dest_col
    else by_algorithm r.fabric_algorithm r dest_col dest_row

-- The output of the router, which has none for its own port: routing there fails the assertion.
unfoldable pub remap : ℕ → ℕ → Outcome ℕ
remap index port =
    if port == index then panic else if ltb index port then ok (port - 1) else ok port

-- `route`, of an object with the given destination.
unfoldable pub route : NodeRouter → ℕ → Outcome ℕ
unfolding dest_port remap
route r destination =
    remap r.index (dest_port r (fabric_port_index_to_col_row_port r.config destination))
