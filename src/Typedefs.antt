-- ===== src/Typedefs.antt =====
-- osrm-backend/typedefs.h: the constants for what does not exist.
use maiden.Prelude.{ℕ, ◌-◌, ◌^◌}

abbrev pub special_nodeid : ℕ
special_nodeid = 2 ^ 32 - 1

abbrev pub special_edgeid : ℕ
special_edgeid = 2 ^ 32 - 1

abbrev pub invalid_edge_weight : ℕ
invalid_edge_weight = 2 ^ 31 - 1
