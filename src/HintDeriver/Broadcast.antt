-- ===== src/HintDeriver/Broadcast.antt =====
-- When src/asterixdb_mcp/hint_deriver.py sees a broadcast.
use asterixdb_mcp_server.Prelude.{◌≡◌, ◌↔◌, true, arith, Bool-cases, inl, inr}
use asterixdb_mcp_server.PlanParser.{Operator, PlanOperator, node, Operators, leaf, child}
use asterixdb_mcp_server.HintDeriver.{is_broadcast, has_broadcast, any_broadcast}

-- The operator stands in the tree, or in one of the trees.
mutual
  pub data IsIn (op : Operator) : PlanOperator → Type 0 where
    at_root : {inputs : Operators} → IsIn op (node op inputs)
    below : {root : Operator} {inputs : Operators} → IsInAny op inputs → IsIn op (node root inputs)

  pub data IsInAny (op : Operator) : Operators → Type 0 where
    first : {tree : PlanOperator} {trees : Operators} → IsIn op tree → IsInAny op (child tree trees)
    later :
        {tree : PlanOperator} {trees : Operators} → IsInAny op trees → IsInAny op (child tree trees)

mutual
  unfolding has_broadcast any_broadcast

  has_broadcast-IsIn :
      (op : Operator) (tree : PlanOperator)
      → IsIn op tree
      → is_broadcast op ≡ true
      → has_broadcast tree ≡ true
  has_broadcast-IsIn op _ (at_root {inputs}) h = ground (arith, h)
  has_broadcast-IsIn op _ (below {root} {inputs} m) h =
      ground (arith, any_broadcast-IsInAny op inputs m h)

  any_broadcast-IsInAny :
      (op : Operator) (trees : Operators)
      → IsInAny op trees
      → is_broadcast op ≡ true
      → any_broadcast trees ≡ true
  any_broadcast-IsInAny op _ (first {tree} {trees} m) h =
      ground (arith, has_broadcast-IsIn op tree m h)
  any_broadcast-IsInAny op _ (later {tree} {trees} m) h =
      ground (arith, any_broadcast-IsInAny op trees m h)

mutual
  unfolding has_broadcast any_broadcast

  has_broadcast_lem :
      (tree : PlanOperator)
      → has_broadcast tree ≡ true
      → (op : Operator) × IsIn op tree × (is_broadcast op ≡ true)
  has_broadcast_lem (node op inputs) h = elim (Bool-cases (is_broadcast op)) [
    | inl e ↦ (op, at_root, e)
    | inr e ↦ let (b, m, k) = any_broadcast_lem inputs (ground (arith, h, e)) in (b, below m, k)
  ]

  any_broadcast_lem :
      (trees : Operators)
      → any_broadcast trees ≡ true
      → (op : Operator) × IsInAny op trees × (is_broadcast op ≡ true)
  any_broadcast_lem leaf h = ground (arith, h)
  any_broadcast_lem (child tree trees) h = elim (Bool-cases (has_broadcast tree)) [
    | inl e ↦ let (b, m, k) = has_broadcast_lem tree e in (b, first m, k)
    | inr e ↦ let (b, m, k) = any_broadcast_lem trees (ground (arith, h, e)) in (b, later m, k)
  ]

-- The tree has a broadcast exactly when one of its operators, at any depth, is one.
pub has_broadcast_iff :
    (tree : PlanOperator)
    → (has_broadcast tree ≡ true) ↔ ((op : Operator) × IsIn op tree × (is_broadcast op ≡ true))
has_broadcast_iff tree = (has_broadcast_lem tree, λ (op, m, h). has_broadcast-IsIn op tree m h)
