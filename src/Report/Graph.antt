-- ===== src/Report/Graph.antt =====
-- `reportGraph` of internal/report/report.go: the graph of the root causes of a report.
pub mod Joined
use k8s_diagnose.Prelude.{
  ℕ, zero, suc, String, Bool, true, false, not, Option, none, some, List, [], ◌∷◌, ◌++◌, ◌+◌, ◌-◌,
  ◌==◌, ◌&&◌, ◌||◌, if◌then◌else◌, concat, join, lookup, put, map, ltb, leb, nat_eq, get_or, length,
  is_empty, is_space, text_lt,
}
use Prim.Native.Char.{code}
use Prim.Native.String
use k8s_diagnose.Prelude.Sort.{sort}
use k8s_diagnose.Model.Types.{separator}
use k8s_diagnose.Report.Json.{
  Json, Items, null, bool, number, text, array, object, no_items, item, sprint, field, objects,
  string_field,
}
use k8s_diagnose.Report.Findings.{root_objects}

pub record Node : Type 0 where
  pub label : String
  pub class : String

pub record GraphEdge : Type 0 where
  pub from : String
  pub to : String
  pub relation : String

-- The two maps.
pub record Drawing : Type 0 where
  pub nodes : List (String × Node)
  pub edge_map : List (String × GraphEdge)

unfoldable pub sprint_each : Items → List String
unfolding sprint
sprint_each no_items = []
sprint_each (item x xs) = sprint x ∷ sprint_each xs

-- `stringSlice`
unfoldable pub string_slice : Json → List String
unfolding sprint_each
string_slice (array xs) = sprint_each xs
string_slice null = []
string_slice (bool b) = []
string_slice (number n) = []
string_slice (text s) = []
string_slice (object fs) = []

-- The bytes of a character, and `len` of a text.
abbrev char_bytes : ℕ → ℕ
char_bytes c = if ltb c 0x80 then 1 else if ltb c 0x800 then 2 else if ltb c 0x10000 then 3 else 4

unfoldable pub byte_length : String → ℕ
byte_length String.[] = 0
byte_length (String.◌∷◌ c s) = char_bytes (code c) + byte_length s

unfoldable pub rune_length : String → ℕ
rune_length String.[] = 0
rune_length (String.◌∷◌ c s) = suc (rune_length s)

unfoldable pub take_runes : ℕ → String → String
take_runes zero s = ""
take_runes (suc n) String.[] = ""
take_runes (suc n) (String.◌∷◌ c s) = String.◌∷◌ c (take_runes n s)

abbrev flush : String × List String → List String
flush (word, words) = if word == "" then words else word ∷ words

-- The word at the start of a text, and the words behind it.
unfoldable pub split_words : String → String × List String
unfolding is_space
split_words String.[] = ("", [])
split_words (String.◌∷◌ c s) =
    let (word, words) = split_words s in
    if is_space (code c) then ("", flush (word, words)) else (String.◌∷◌ c word, words)

-- `strings.Join(strings.Fields(value), " ")`
unfoldable pub squeeze : String → String
unfolding split_words join
squeeze value = join " " (flush (split_words value))

-- `graphText`
unfoldable pub graph_text : String → ℕ → String
unfolding squeeze rune_length take_runes concat
graph_text value limit =
    let clean = squeeze value in
    if leb (rune_length clean) limit
    then clean
    else concat (take_runes (if leb 1 (limit - 1) then limit - 1 else 1) clean ∷ "…" ∷ [])

-- The map `priority`.
unfoldable pub priority : String → ℕ
priority class =
    if class == "rootCause"
    then 3
    else if class == "causeCandidate"
    then 2
    else if class == "relatedCandidate"
    then 1
    else 0

-- When `addNode` replaces the node that is there.
unfoldable pub outranks : String → String → Node → Bool
unfolding priority byte_length
outranks label class current =
    ltb (priority current.class) (priority class)
    || current.class == "impact" && ltb (byte_length current.label) (byte_length label)

abbrev pub renews : String → String → Option Node → Bool
unfolding outranks
renews label class none = true
renews label class (some current) = outranks label class current

-- `addNode`
unfoldable pub add_node : String → String → String → Drawing → Drawing
unfolding lookup put outranks
add_node resource label class d =
    if resource == ""
    then d
    else if renews label class (lookup resource d.nodes)
    then record d { nodes = put resource (record { label = label; class = class }) d.nodes }
    else d

abbrev pub edge_key : GraphEdge → String
unfolding concat
edge_key e = concat (e.from ∷ separator ∷ e.to ∷ separator ∷ e.relation ∷ [])

unfoldable pub add_edge : GraphEdge → Drawing → Drawing
unfolding put concat
add_edge e d = if e.from == e.to then d else record d { edge_map = put (edge_key e) e d.edge_map }

abbrev pub with_message : String → String → String
unfolding concat graph_text
with_message label message =
    if graph_text message 140 == ""
    then label
    else concat (label ∷ "\n" ∷ graph_text message 140 ∷ [])

-- The relation of one step: the one of the path, else that of the impact at the end, else "affects".
unfoldable pub relation_at : Json → List String → ℕ → Bool → String
unfolding string_field
relation_at impact relations index last =
    let listed = get_or relations index "" in
    let own = (if listed == "" && last then string_field impact "relation" else listed) in
    if own == "" then "affects" else own

-- The loop over a path from `start` on; `index` is `relationIndex`.
unfoldable pub draw_path : Json → List String → ℕ → String → List String → Drawing → Drawing
unfolding add_node add_edge relation_at graph_text concat string_field
draw_path impact relations index previous [] d = d
draw_path impact relations index previous (resource ∷ path) d =
    let label =
      (if resource == string_field impact "resource"
        then with_message resource (string_field impact "message")
        else resource) in
    let relation = relation_at impact relations index (is_empty path) in
    let e : GraphEdge = record { from = previous; to = resource; relation = relation } in
    draw_path impact relations (suc index) resource path
      (add_edge e (add_node resource label "impact" d))

abbrev pub path_of : Json → List String
unfolding string_slice field string_field
path_of impact =
    let path = string_slice (field "path" impact) in
    if is_empty path && not (string_field impact "resource" == "")
    then string_field impact "resource" ∷ []
    else path

-- Without the cause at the start, which the path may name.
unfoldable pub steps_after : String → List String → List String
steps_after cause [] = []
steps_after cause (resource ∷ path) = if resource == cause then path else resource ∷ path

unfoldable pub draw_impacts : String → List Json → Drawing → Drawing
unfolding draw_path steps_after string_slice field string_field
draw_impacts cause [] d = d
draw_impacts cause (impact ∷ impacts) d = draw_impacts cause impacts (
    draw_path impact (string_slice (field "path_relations" impact)) 0 cause
      (steps_after cause (path_of impact)) d)

unfoldable pub cause_resource : Json → String
unfolding field string_field concat
cause_resource root =
    if string_field (field "cause" root) "resource" == ""
    then concat ("Finding/" ∷ string_field root "id" ∷ [])
    else string_field (field "cause" root) "resource"

unfoldable pub root_class : Json → String
unfolding string_field
root_class root =
    if string_field root "classification" == "root_cause"
    then "rootCause"
    else if string_field root "classification" == "cause_candidate"
    then "causeCandidate"
    else "relatedCandidate"

unfoldable pub draw_root : Json → Drawing → Drawing
unfolding add_node draw_impacts cause_resource root_class objects field string_field graph_text
    concat
draw_root root d =
    let cause = cause_resource root in
    let label =
      with_message (concat (string_field root "label" ∷ ": " ∷ cause ∷ []))
        (string_field (field "cause" root) "message") in
    draw_impacts cause (objects (field "propagated_impacts" root)) (
      draw_impacts cause (objects (field "direct_impacts" root))
        (add_node cause label (root_class root) d))

unfoldable pub draw_roots : List Json → Drawing → Drawing
unfolding draw_root
draw_roots [] d = d
draw_roots (root ∷ roots) d = draw_roots roots (draw_root root d)

-- The nodes, and the edges in the order of their keys.
unfoldable pub report_graph : Json → List (String × Node) × List GraphEdge
unfolding draw_roots root_objects sort
report_graph document =
    let d = draw_roots (root_objects document) (record { nodes = []; edge_map = [] }) in
    (
      d.nodes,
      map (λ (e : String × GraphEdge). e.1)
          (sort (λ (a b : String × GraphEdge). text_lt a.0 b.0) d.edge_map),
    )
