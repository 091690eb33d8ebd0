-- ===== src/Tests/Documents.antt =====
-- The theorem on the printing of documents at a concrete input.
use book_filer_module_http.Prelude.{suc, codes}
use book_filer_module_http.Json.Print.{
  Tree, null_tree, true_tree, object_tree, array_tree, no_members, member, no_elements, element,
  print_iterator, print_value,
}
use book_filer_module_http.Json.Print.Lines.{
  Prints, meets_empty, value_meets_empty, count, print_json_cases,
}

-- `[{"a": null, "b": true}, [{}]]`.
abbrev document : Tree
document = array_tree (
    element (object_tree (member (codes "a") null_tree (member (codes "b") true_tree no_members)))
      (element (array_tree (element (object_tree no_members) no_elements)) no_elements))

print_json_cases_example :
    Prints (print_iterator (codes "d") document) (meets_empty document) (suc (count document))
    × Prints (print_value document) (value_meets_empty document) (count document)
print_json_cases_example = print_json_cases (codes "d") document
