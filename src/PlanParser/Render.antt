-- ===== src/PlanParser/Render.antt =====
-- `to_dict` of the two classes of src/asterixdb_mcp/plan_parser.py.
use asterixdb_mcp_server.Prelude.{String, Option, none, some, List, [], ◌∷◌, map}
use asterixdb_mcp_server.Json.{
  Json, null, str, arr, obj, nat, Items, nil, cons, Fields, set, of_fields, of_list, array,
}
use asterixdb_mcp_server.PlanParser.{
  Operator, PlanOperator, node, Operators, leaf, child, ParsedPlan,
}

abbrev text_or_null : Option String → Json
text_or_null none = null
text_or_null (some s) = str s

abbrev set_text : String → Option String → Fields → Fields
unfolding set
set_text key none fs = fs
set_text key (some s) fs = set key (str s) fs

abbrev set_texts : String → List String → Fields → Fields
unfolding set of_list
set_texts key [] fs = fs
set_texts key (s ∷ ss) fs = set key (array (map str (s ∷ ss))) fs

-- An operator's entries beside its inputs.
unfoldable pub operator_entries : Operator → Fields
unfolding of_fields set_text set_texts
operator_entries op = set_texts "predicates" op.predicates (
    set_text "dataSource" op.data_source (
      set_text "physicalOperator" op.physical_operator (
        set_text "operatorId" op.operator_id
          (of_fields (("operator", text_or_null op.kind) ∷ [])))))

-- `if self.inputs`
abbrev set_inputs : Items → Fields → Fields
unfolding set
set_inputs nil fs = fs
set_inputs (cons v vs) fs = set "inputs" (arr (cons v vs)) fs

-- `PlanOperator.to_dict`
unfoldable mutual
  unfolding operator_entries set_inputs

  pub tree_dict : PlanOperator → Fields
  tree_dict (node op inputs) = set_inputs (tree_items inputs) (operator_entries op)

  pub tree_items : Operators → Items
  tree_items leaf = nil
  tree_items (child tree trees) = cons (obj (tree_dict tree)) (tree_items trees)

-- `ParsedPlan.to_dict`
unfoldable pub plan_dict : ParsedPlan → Fields
unfolding of_fields of_list tree_dict
plan_dict plan = of_fields (
    ("operatorCounts", obj (of_fields (map (λ (kind, n). (kind, nat n)) plan.operator_counts)))
    ∷ ("dataSources", array (map str plan.data_sources))
    ∷ ("depth", nat plan.depth)
    ∷ ("tree", obj (tree_dict plan.root))
    ∷ [])
