-- ===== src/Json/Print.antt =====
-- `printJSON_value` and `printJSON_iterator` of src/core/json.cpp, as the lines that they print. The
-- depth is only counted, and is left out.
pub mod Lines
use book_filer_module_http.Prelude.{
  List, [], ◌∷◌, ◌++◌, Text, codes, Outcome, returns, undefined, ◌>>=◌,
}
use book_filer_module_http.Client.{c_str}

mutual
  -- A document, by the types that `GetType` tells apart.
  pub data Tree : Type 0 where
    null_tree false_tree true_tree number_tree string_tree : Tree
    object_tree : Members → Tree
    array_tree : Elements → Tree

  pub data Members : Type 0 where
    no_members : Members
    member : Text → Tree → Members → Members

  pub data Elements : Type 0 where
    no_elements : Elements
    element : Tree → Elements → Elements

-- `kTypeNames`.
unfoldable pub type_name : Tree → Text
type_name null_tree = codes "Null"
type_name false_tree = codes "False"
type_name true_tree = codes "True"
type_name (object_tree ms) = codes "Object"
type_name (array_tree es) = codes "Array"
type_name string_tree = codes "String"
type_name number_tree = codes "Number"

abbrev pub line : Text → Tree → Text
line name v = codes "Type of member " ++ c_str name ++ codes " is " ++ type_name v ++ codes "\n"

unfoldable mutual
  pub print_value : Tree → Outcome (List Text)
  print_value (array_tree es) = print_elements es
  print_value (object_tree ms) = returns []
  print_value null_tree = returns []
  print_value false_tree = returns []
  print_value true_tree = returns []
  print_value number_tree = returns []
  print_value string_tree = returns []

  -- The loop over an array. Of an object only the first member is printed, and the iterator is
  -- followed also where the object has none.
  pub print_elements : Elements → Outcome (List Text)
  print_elements no_elements = returns []
  print_elements (element v es) = do
    first ← print_element v
    rest ← print_elements es
    returns (first ++ rest)

  print_element : Tree → Outcome (List Text)
  print_element (object_tree no_members) = undefined
  print_element (object_tree (member name v ms)) = do
    below ← print_below v
    returns (line name v ∷ below)
  print_element (array_tree es) = print_elements es
  print_element null_tree = returns []
  print_element false_tree = returns []
  print_element true_tree = returns []
  print_element number_tree = returns []
  print_element string_tree = returns []

  -- What stands below a member: all the members of an object, or what is printed of an array.
  pub print_below : Tree → Outcome (List Text)
  print_below (object_tree ms) = print_members ms
  print_below (array_tree es) = print_elements es
  print_below null_tree = returns []
  print_below false_tree = returns []
  print_below true_tree = returns []
  print_below number_tree = returns []
  print_below string_tree = returns []

  pub print_members : Members → Outcome (List Text)
  print_members no_members = returns []
  print_members (member name v ms) = do
    below ← print_below v
    rest ← print_members ms
    returns (line name v ∷ (below ++ rest))

-- `printJSON_iterator` at a member.
unfoldable pub print_iterator : Text → Tree → Outcome (List Text)
unfolding print_below
print_iterator name v = do below ← print_below v; returns (line name v ∷ below)
