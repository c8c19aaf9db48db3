-- ===== src/Fabric.antt =====
-- gwr-models/src/fabric/mod.rs: the numbering of the ports of a grid of nodes, where `num_columns`
-- and `num_rows` are positive.
pub mod Indices
pub mod Node
use gwr.Base.{
  ℕ, zero, suc, ◌+◌, ◌-◌, ◌*◌, ◌/◌, ◌%◌, min, Option, none, some, List, [], ◌∷◌, ◌++◌, length, ◌==◌,
  ◌||◌, if◌then◌else◌,
}

-- `port + row * num_ports_per_node + col * num_rows * num_ports_per_node`
unfoldable pub port_index : ℕ → ℕ → ℕ → ℕ → ℕ → ℕ
port_index num_rows num_ports_per_node col row port =
    port + row * num_ports_per_node + col * num_rows * num_ports_per_node

unfoldable pub num_x_y_ports : ℕ → ℕ → ℕ → ℕ → ℕ
num_x_y_ports num_columns num_rows col row =
    4
    - (if col == 0 || col == num_columns - 1 then 1 else 0)
    - (if row == 0 || row == num_rows - 1 then 1 else 0)

-- The number of ingress and egress ports of a node, which has `num_x_y_ports` to its neighbours.
unfoldable pub limited_ports : Option ℕ → ℕ → ℕ → ℕ
limited_ports none num_ports_per_node num_x_y = num_ports_per_node
limited_ports (some limit) num_ports_per_node num_x_y = min (limit - num_x_y) num_ports_per_node

unfoldable pub node_num_ingress_egress_ports : ℕ → ℕ → ℕ → Option ℕ → ℕ → ℕ → ℕ
unfolding limited_ports
node_num_ingress_egress_ports num_columns num_rows num_ports_per_node limit col row =
    limited_ports limit num_ports_per_node (num_x_y_ports num_columns num_rows col row)

-- `for i in 0..n`, where each round pushes the given indices.
unfoldable pub for_each : ℕ → (ℕ → List ℕ) → List ℕ
for_each zero f = []
for_each (suc n) f = for_each n f ++ f n

unfoldable pub create_populated_indices : ℕ → ℕ → ℕ → Option ℕ → List ℕ
unfolding for_each
create_populated_indices num_columns num_rows num_ports_per_node limit = for_each num_columns λ col.
    for_each num_rows λ row.
      for_each (node_num_ingress_egress_ports num_columns num_rows num_ports_per_node limit col row)
        λ port. port_index num_rows num_ports_per_node col row port ∷ []

pub record FabricConfig : Type 0 where
  pub num_columns : ℕ
  pub num_rows : ℕ
  pub num_ports_per_node : ℕ
  pub ports_per_node_limit : Option ℕ
  pub cycles_per_hop : ℕ
  pub cycles_overhead : ℕ
  pub rx_buffer_bytes : ℕ
  pub tx_buffer_bytes : ℕ
  pub port_bits_per_tick : ℕ
  pub fabric_port_indices : List ℕ

unfoldable pub new : ℕ → ℕ → ℕ → Option ℕ → ℕ → ℕ → ℕ → ℕ → ℕ → FabricConfig
new num_columns num_rows num_ports_per_node limit per_hop overhead rx_bytes tx_bytes bits = record {
  num_columns = num_columns;
  num_rows = num_rows;
  num_ports_per_node = num_ports_per_node;
  ports_per_node_limit = limit;
  cycles_per_hop = per_hop;
  cycles_overhead = overhead;
  rx_buffer_bytes = rx_bytes;
  tx_buffer_bytes = tx_bytes;
  port_bits_per_tick = bits;
  fabric_port_indices = create_populated_indices num_columns num_rows num_ports_per_node limit;
}

module _ (config : FabricConfig) where
  unfoldable pub max_num_ports : ℕ
  max_num_ports = config.num_columns * config.num_rows * config.num_ports_per_node

  unfoldable pub num_ports : ℕ
  num_ports = length config.fabric_port_indices

  unfoldable pub col_row_port_to_fabric_port_index : ℕ → ℕ → ℕ → ℕ
  col_row_port_to_fabric_port_index col row port =
      port_index config.num_rows config.num_ports_per_node col row port

  unfoldable pub fabric_port_index_to_col_row_port : ℕ → ℕ × ℕ × ℕ
  fabric_port_index_to_col_row_port fabric_port_index = (
    fabric_port_index / config.num_ports_per_node / config.num_rows,
    fabric_port_index / config.num_ports_per_node % config.num_rows,
    fabric_port_index % config.num_ports_per_node,
  )

  unfoldable pub max_x : ℕ
  max_x = config.num_columns - 1

  unfoldable pub max_y : ℕ
  max_y = config.num_rows - 1
