-- ===== src/Report/Json.antt =====
-- The JSON values of reports, and the accessors of internal/jsonutil/jsonutil.go. A number is its
-- text. An object is the list of its entries in the order in which `encoding/json` writes them: that
-- of the keys for a map, and that of the declaration for a struct.
use k8s_diagnose.Prelude.{
  String, Bool, true, false, List, [], ◌∷◌, ◌==◌, ◌&&◌, if◌then◌else◌, concat, bool_eq,
}

mutual
  pub data Json : Type 0 where
    null : Json
    bool : Bool → Json
    number : String → Json
    text : String → Json
    array : Items → Json
    object : Fields → Json

  pub data Items : Type 0 where
    no_items : Items
    item : Json → Items → Items

  pub data Fields : Type 0 where
    no_fields : Fields
    entry : String → Json → Fields → Fields

-- `fmt.Sprint`, where a nil within a value is `<nil>`
unfoldable mutual
  unfolding concat

  pub sprint : Json → String
  sprint null = "<nil>"
  sprint (bool b) = if b then "true" else "false"
  sprint (number n) = n
  sprint (text s) = s
  sprint (array xs) = concat ("[" ∷ sprint_items xs ∷ "]" ∷ [])
  sprint (object fs) = concat ("map[" ∷ sprint_fields fs ∷ "]" ∷ [])

  pub sprint_items : Items → String
  sprint_items no_items = ""
  sprint_items (item x no_items) = sprint x
  sprint_items (item x (item y ys)) = concat (sprint x ∷ " " ∷ sprint_items (item y ys) ∷ [])

  pub sprint_fields : Fields → String
  sprint_fields no_fields = ""
  sprint_fields (entry k v no_fields) = concat (k ∷ ":" ∷ sprint v ∷ [])
  sprint_fields (entry k v (entry j w fs)) =
      concat (k ∷ ":" ∷ sprint v ∷ " " ∷ sprint_fields (entry j w fs) ∷ [])

-- Equality of the encoded bytes.
unfoldable mutual
  pub json_eq : Json → Json → Bool
  json_eq null null = true
  json_eq (bool a) (bool b) = bool_eq a b
  json_eq (number a) (number b) = a == b
  json_eq (text a) (text b) = a == b
  json_eq (array xs) (array ys) = items_eq xs ys
  json_eq (object fs) (object gs) = fields_eq fs gs
  json_eq _ _ = false

  pub items_eq : Items → Items → Bool
  items_eq no_items no_items = true
  items_eq (item x xs) (item y ys) = json_eq x y && items_eq xs ys
  items_eq _ _ = false

  pub fields_eq : Fields → Fields → Bool
  fields_eq no_fields no_fields = true
  fields_eq (entry k v fs) (entry j w gs) = k == j && (json_eq v w && fields_eq fs gs)
  fields_eq _ _ = false

unfoldable pub field_of : String → Fields → Json
field_of key no_fields = null
field_of key (entry k v fs) = let rest = field_of key fs in if k == key then v else rest

-- `value[key]` of a map, which is nil where the key is missing or the value is no map
unfoldable pub field : String → Json → Json
unfolding field_of
field key (object fs) = field_of key fs
field key _ = null

-- `value, _ := v.(map[string]any)`, for its fields: a value of another type has none.
unfoldable pub is_object : Json → Bool
is_object (object fs) = true
is_object _ = false

unfoldable pub objects_of : Items → List Json
unfolding is_object
objects_of no_items = []
objects_of (item x xs) = if is_object x then x ∷ objects_of xs else objects_of xs

-- `Objects`
unfoldable pub objects : Json → List Json
unfolding objects_of
objects (array xs) = objects_of xs
objects _ = []

-- `String`
unfoldable pub string : Json → String
unfolding sprint
string null = ""
string (bool b) = sprint (bool b)
string (number n) = n
string (text s) = s
string (array xs) = sprint (array xs)
string (object fs) = sprint (object fs)

unfoldable pub string_field : Json → String → String
unfolding string field
string_field value key = string (field key value)

-- `Bool`
unfoldable pub boolean : Json → Bool
boolean (bool b) = b
boolean _ = false
