-- ===== src/Fabric/Indices.antt =====
-- The numbering of the ports is one to one.
use gwr.Base.{ℕ, ◌+◌, ◌*◌, ◌/◌, ◌%◌, ◌<◌, ◌≡◌, refl, ◌∙◌, arith}
use native.Mathlib.Nat.{
  add-mul-div_right, add-mul-mod_self_right, div-eq_of_lt, mod-eq_of_lt, add-mul,
}
use gwr.Fabric.{
  FabricConfig, port_index, col_row_port_to_fabric_port_index, fabric_port_index_to_col_row_port,
}

-- Division with a known remainder.
div_unique : (q r n : ℕ) → r < n → ((r + q * n) / n ≡ q) × ((r + q * n) % n ≡ r)
div_unique q r n h = (
  omega (arith, add-mul-div_right r q {z = n} (omega arith), div-eq_of_lt {n = r} {m = n} h),
  add-mul-mod_self_right r q n ∙ mod-eq_of_lt h,
)

module _ (config : FabricConfig) (col row port : ℕ) where
  split_index :
      port_index config.num_rows config.num_ports_per_node col row port
      ≡ port + (row + col * config.num_rows) * config.num_ports_per_node
  unfolding port_index
  split_index = omega (arith, add-mul row (col * config.num_rows) config.num_ports_per_node)

  -- The number of a port of the grid gives back its column, its row and its place at the node.
  pub fabric_port_round_trip :
      row < config.num_rows
      → port < config.num_ports_per_node
      → fabric_port_index_to_col_row_port config
          (col_row_port_to_fabric_port_index config col row port)
        ≡ (col, row, port)
  unfolding fabric_port_index_to_col_row_port col_row_port_to_fabric_port_index
  fabric_port_round_trip hr hp =
      let (node, place) =
        div_unique (row + col * config.num_rows) port config.num_ports_per_node hp in
      let (column, line) = div_unique col row config.num_rows hr in
      rw (split_index, node, place, column, line) refl
