-- ===== src/Sql/Procedure/Placement.antt =====
-- ProcedureHelper::Execute (ProcedureHelper.cpp): which variable of its select ends up in which
-- parameter.
use pets_server_linux.Common.{ℕ, ◌+◌, ◌≡◌, List, length}
use pets_server_linux.Sql.Procedure.{Env, ProcedureHelper}
use pets_server_linux.Sql.Procedure.Positions.{positions, ins}
use pets_server_linux.Sql.Procedure.Columns.{is_out}
use pets_server_linux.Sql.Procedure.Stored.{Columns}

module _ (env : Env) where
  -- The numbers of the OUT and INOUT parameters, in their order.
  abbrev pub outs : ProcedureHelper env → List ℕ
  outs h = positions (is_out env h.parameters) h.total_count 0

  -- The counters are those of the parameters.
  pub record Counted (h : ProcedureHelper env) : Type 0 where
    pub of_ins : h.in_count ≡ ins (is_out env h.parameters) h.total_count 0
    pub of_outs : h.out_count + h.inout_count ≡ length (outs h)
