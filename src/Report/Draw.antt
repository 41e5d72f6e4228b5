-- ===== src/Report/Draw.antt =====
-- `Mermaid` and `DOT` of internal/report/report.go. `node_id` stands for the 14 digits of the hash of
-- a name, and `escape_html` for `html.EscapeString`.
use k8s_diagnose.Prelude.{
  ℕ, String, List, [], ◌∷◌, ◌==◌, if◌then◌else◌, concat, join, map, nat_eq, decimal, keep, is_empty,
}
use Prim.Native.Char.{code}
use k8s_diagnose.Prelude.Sort.{sort}
use k8s_diagnose.Prelude.{text_lt}
use k8s_diagnose.Report.Json.{Json}
use k8s_diagnose.Report.Graph.{Node, GraphEdge, report_graph}

-- `strings.ReplaceAll` of one character.
unfoldable pub replace_char : ℕ → String → String → String
unfolding concat
replace_char c new String.[] = ""
replace_char c new (String.◌∷◌ d s) =
    let rest = replace_char c new s in
    concat ((if nat_eq (code d) c then new else String.◌∷◌ d String.[]) ∷ rest ∷ [])

abbrev labels : List (String × String)
labels =
    ("required-by-pod", "必須参照")
    ∷ ("optional-reference", "optional参照")
    ∷ ("generic-ephemeral-volume", "一時PVC参照")
    ∷ ("probe-controls", "Probe制御")
    ∷ ("service-account", "ServiceAccount使用")
    ∷ ("priority-class", "PriorityClass使用")
    ∷ ("runtime-class", "RuntimeClass使用")
    ∷ ("scheduled-pod", "Node配置")
    ∷ ("workload-member", "管理元")
    ∷ ("owned-workload", "上位管理元")
    ∷ ("volume-binding", "PVバインド")
    ∷ ("endpoint-registration", "Endpoint登録")
    ∷ ("service-endpoints", "Service所属")
    ∷ ("service-selector", "selector一致")
    ∷ ("ingress-backend", "Ingress backend")
    ∷ ("ingress-tls", "Ingress TLS")
    ∷ ("webhook-client", "Webhook参照")
    ∷ ("affects", "影響")
    ∷ []

abbrev label_from : String → List (String × String) → String
label_from value [] = value
label_from value ((k, label) ∷ rest) =
    let further = label_from value rest in if k == value then label else further

-- `relationLabel`
unfoldable pub relation_label : String → String
relation_label value = label_from value labels

-- `graphStyle`: fill, border, font and width.
unfoldable pub graph_style : String → String × String × String × ℕ
graph_style class =
    if class == "rootCause"
    then ("#fee2e2", "#dc2626", "#7f1d1d", 3)
    else if class == "causeCandidate"
    then ("#fef3c7", "#d97706", "#78350f", 2)
    else if class == "relatedCandidate"
    then ("#f3f4f6", "#6b7280", "#111827", 1)
    else ("#eff6ff", "#2563eb", "#1e3a8a", 1)

-- `escapeDOT`
unfoldable pub escape_dot : String → String
unfolding replace_char
escape_dot value =
    replace_char b'\n' "\\n" (replace_char b'"' "\\\"" (replace_char b'\\' "\\\\" value))

-- The nodes in the order of their keys.
abbrev by_key : List (String × Node) → List (String × Node)
unfolding sort
by_key nodes = sort (λ (a b : String × Node). text_lt a.0 b.0) nodes

module _ (node_id escape_html : String → String) where
  -- `escapeMermaid`
  unfoldable pub escape_mermaid : String → String
  unfolding replace_char
  escape_mermaid value = replace_char b'\n' "<br/>" (replace_char b'|' "&#124;" (escape_html value))

  abbrev mermaid_node : String × Node → String
  unfolding escape_mermaid concat
  mermaid_node (key, n) =
      concat ("  " ∷ node_id key ∷ "[\"" ∷ escape_mermaid n.label ∷ "\"]\n" ∷ [])

  abbrev mermaid_edge : GraphEdge → String
  unfolding escape_mermaid relation_label concat
  mermaid_edge e = concat (
      "  "
      ∷ node_id e.from
      ∷ " -->|\""
      ∷ escape_mermaid (relation_label e.relation)
      ∷ "\"| "
      ∷ node_id e.to
      ∷ "\n"
      ∷ [])

  abbrev class_line : List (String × Node) → String → String
  unfolding concat join
  class_line nodes class =
      let ids =
        map (λ (e : String × Node). node_id e.0)
          (keep (λ (e : String × Node). e.1.class == class) nodes) in
      if is_empty ids then "" else concat ("  class " ∷ join "," ids ∷ " " ∷ class ∷ "\n" ∷ [])

  unfoldable pub mermaid : Json → String
  unfolding report_graph by_key mermaid_node mermaid_edge class_line concat
  mermaid document =
      let (found, edges) = report_graph document in
      let nodes = by_key found in
      let head : String = "%% k8s-diagnose Root Cause dependency graph\nflowchart LR\n" in
      if is_empty nodes
      then concat (head ∷ "  %% 相関済みのRoot Causeはありません\n" ∷ [])
      else concat (
          head
          ∷ concat (map mermaid_node nodes)
          ∷ concat (map mermaid_edge edges)
          ∷ "  classDef rootCause fill:#fee2e2,stroke:#dc2626,color:#7f1d1d,stroke-width:3px\n"
          ∷ "  classDef causeCandidate fill:#fef3c7,stroke:#d97706,color:#78350f,stroke-width:2px\n"
          ∷ "  classDef relatedCandidate fill:#f3f4f6,stroke:#6b7280,color:#111827,stroke-dasharray: 5 3\n"
          ∷ "  classDef impact fill:#eff6ff,stroke:#2563eb,color:#1e3a8a\n"
          ∷ map (class_line nodes)
              ("rootCause" ∷ "causeCandidate" ∷ "relatedCandidate" ∷ "impact" ∷ []))

  abbrev dot_node : String × Node → String
  unfolding escape_dot graph_style concat decimal
  dot_node (key, n) =
      let (fill, border, font, width) = graph_style n.class in
      concat (
        "  \""
        ∷ node_id key
        ∷ "\" [label=\""
        ∷ escape_dot n.label
        ∷ "\", fillcolor=\""
        ∷ fill
        ∷ "\", color=\""
        ∷ border
        ∷ "\", fontcolor=\""
        ∷ font
        ∷ "\", penwidth="
        ∷ decimal width
        ∷ "];\n"
        ∷ [])

  abbrev dot_edge : GraphEdge → String
  unfolding escape_dot relation_label concat
  dot_edge e = concat (
      "  \""
      ∷ node_id e.from
      ∷ "\" -> \""
      ∷ node_id e.to
      ∷ "\" [label=\""
      ∷ escape_dot (relation_label e.relation)
      ∷ "\"];\n"
      ∷ [])

  unfoldable pub dot : Json → String
  unfolding report_graph by_key dot_node dot_edge concat
  dot document =
      let (found, edges) = report_graph document in
      let nodes = by_key found in
      concat (
        "digraph \"k8s-diagnose\" {\n  rankdir=LR;\n"
        ∷ "  graph [charset=\"UTF-8\", bgcolor=\"transparent\"];\n"
        ∷ "  node [shape=box, style=\"rounded,filled\", fontname=\"sans-serif\"];\n"
        ∷ "  edge [fontname=\"sans-serif\", color=\"#64748b\"];\n"
        ∷ concat (map dot_node nodes)
        ∷ concat (map dot_edge edges)
        ∷ (if is_empty nodes then "  // 相関済みのRoot Causeはありません\n" else "")
        ∷ "}\n"
        ∷ [])
