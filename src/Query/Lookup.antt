-- ===== src/Query/Lookup.antt =====
-- What a lookup finds after an encoded query was set.
use book_filer_module_http.Prelude.{
  ◌≡◌, Option, none, some, List, [], ◌∷◌, arith, if◌then◌else◌, Text, text_eq,
}
use book_filer_module_http.StdMap.{find, insert, IsSorted}
use book_filer_module_http.StdMap.Laws.{find-insert, insert-IsSorted}
use book_filer_module_http.Query.{
  Splitter, QueryImpl, part_key, part_value, decoded, insert_parts, generate_query_map,
  set_encoded_query, get_query_key,
}

-- The value of the first part with the key.
pub first_value : Text → List Text → Option Text
first_value k [] = none
first_value k (part ∷ parts) =
    if text_eq (decoded (part_key part)) k
    then some (decoded (part_value part))
    else first_value k parts

abbrev pub or_else {ℓ} : {A : Type ℓ} → Option A → Option A → Option A
or_else (some a) o = some a
or_else none o = o

find-insert_parts :
    (k : Text) (parts : List Text) (m : List (Text × Text))
    → IsSorted m
    → find k (insert_parts parts m) ≡ or_else (find k m) (first_value k parts)
unfolding insert_parts first_value
find-insert_parts k [] m s = ground arith
find-insert_parts k (part ∷ parts) m s =
    let key = decoded (part_key part) in
    let value = decoded (part_value part) in
    ground (
      arith,
      find-insert k key value m s,
      find-insert_parts k parts (insert key value m) (insert-IsSorted key value m s),
    )

-- After `setEncodedQuery` a key that was there keeps its value, and any other key has the value of
-- the first part of the new query with that key, if there is one.
pub get_query_key-set_encoded_query :
    (s : Splitter) (k encoded : Text) (q : QueryImpl)
    → IsSorted q.query_map
    → get_query_key k (set_encoded_query s encoded q).0
      ≡ or_else (get_query_key k q) (first_value k (s.split encoded))
unfolding get_query_key set_encoded_query generate_query_map
get_query_key-set_encoded_query s k encoded q h =
    find-insert_parts k (s.split encoded) q.query_map h

insert_parts-IsSorted :
    (parts : List Text) (m : List (Text × Text)) → IsSorted m → IsSorted (insert_parts parts m)
unfolding insert_parts
insert_parts-IsSorted [] m s = s
insert_parts-IsSorted (part ∷ parts) m s =
    insert_parts-IsSorted parts _
      (insert-IsSorted (decoded (part_key part)) (decoded (part_value part)) m s)

-- `setEncodedQuery` keeps the keys in order.
set_encoded_query-IsSorted :
    (s : Splitter) (encoded : Text) (q : QueryImpl)
    → IsSorted q.query_map
    → IsSorted (set_encoded_query s encoded q).0.query_map
unfolding set_encoded_query generate_query_map
set_encoded_query-IsSorted s encoded q h = insert_parts-IsSorted (s.split encoded) q.query_map h
