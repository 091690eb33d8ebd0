-- ===== src/Query/RoundTrip.antt =====
-- A query that is flattened and read again.
use book_filer_module_http.Prelude.{
  ◌≡◌, refl, sym, ap, ap₂, ◌∙◌, ◌≢◌, false, List, [], ◌∷◌, ◌++◌, map, append-nil, append_assoc,
  arith, ◌==◌, contains, find_first_of-append, take-length_append, drop-length_append, All,
  All-append, All-impl, Text, TextLt, IsByte,
}
use book_filer_module_http.Uri.{uri_encode, is_unreserved}
use book_filer_module_http.Uri.RoundTrip.{uri_decode-uri_encode}
use book_filer_module_http.Uri.Safety.{uri_encode-avoids_reserved, IsReservable}
use book_filer_module_http.StdMap.{insert, IsSorted}
use book_filer_module_http.StdMap.Laws.{insert_last}
use book_filer_module_http.Query.{
  NoAmpersand, Splitter, QueryImpl, new_query, reserved_chars, flatten_field, flatten_query_map,
  part_key, part_value, decoded, insert_parts, set_query, generate_query_map, set_encoded_query,
  get_encoded_query,
}

-- The keys and the values are made of bytes.
abbrev pub IsByteMap : List (Text × Text) → Type 0
IsByteMap = All (λ e. All IsByte e.0 × All IsByte e.1)

reserved_chars-IsReservable : IsReservable reserved_chars
unfolding is_unreserved
reserved_chars-IsReservable = ((refl, refl), ((refl, refl), tt))

-- No separator stands in an encoded key or value.
encoded-NoSeparator :
    (s : Text)
    → All IsByte s
    → All (λ c. ((c == b'&') ≡ false) × ((c == b'=') ≡ false)) (uri_encode s reserved_chars []).1
encoded-NoSeparator s h =
    All-impl (λ c. contains reserved_chars c ≡ false)
      (λ c. ((c == b'&') ≡ false) × ((c == b'=') ≡ false)) (uri_encode s reserved_chars []).1
      (λ c e. (ground (arith, e), ground (arith, e)))
      (uri_encode-avoids_reserved s reserved_chars reserved_chars-IsReservable h)

encoded-NoAmpersand : (s : Text) → All IsByte s → NoAmpersand (uri_encode s reserved_chars []).1
encoded-NoAmpersand s h =
    All-impl (λ c. ((c == b'&') ≡ false) × ((c == b'=') ≡ false)) (λ c. (c == b'&') ≡ false)
      (uri_encode s reserved_chars []).1 (λ c e. e.0) (encoded-NoSeparator s h)

encoded-NoEquals :
    (s : Text) → All IsByte s → All (λ c. (c == b'=') ≡ false) (uri_encode s reserved_chars []).1
encoded-NoEquals s h =
    All-impl (λ c. ((c == b'&') ≡ false) × ((c == b'=') ≡ false)) (λ c. (c == b'=') ≡ false)
      (uri_encode s reserved_chars []).1 (λ c e. e.1) (encoded-NoSeparator s h)

flatten_field-NoAmpersand :
    (k v : Text) → All IsByte k → All IsByte v → NoAmpersand (flatten_field (k, v))
unfolding flatten_field
flatten_field-NoAmpersand k v hk hv =
    All-append (λ c. (c == b'&') ≡ false) (uri_encode k reserved_chars []).1
      (b'=' ∷ (uri_encode v reserved_chars []).1) (encoded-NoAmpersand k hk)
      (refl, encoded-NoAmpersand v hv)

decoded-uri_encode : (s : Text) → All IsByte s → decoded (uri_encode s reserved_chars []).1 ≡ s
unfolding decoded
decoded-uri_encode s h = ap (λ r. r.1) (uri_decode-uri_encode s reserved_chars h)

part_key-flatten_field : (k v : Text) → All IsByte k → decoded (part_key (flatten_field (k, v))) ≡ k
unfolding part_key flatten_field
part_key-flatten_field k v h =
    let ek = (uri_encode k reserved_chars []).1 in
    let ev = (uri_encode v reserved_chars []).1 in
    rw (find_first_of-append ek ev b'=' (encoded-NoEquals k h), part_key)
      (rw (take-length_append ek (b'=' ∷ ev)) (decoded-uri_encode k h))

part_value-flatten_field :
    (k v : Text) → All IsByte k → All IsByte v → decoded (part_value (flatten_field (k, v))) ≡ v
unfolding part_value flatten_field
part_value-flatten_field k v h h' =
    let ek = (uri_encode k reserved_chars []).1 in
    let ev = (uri_encode v reserved_chars []).1 in
    rw (find_first_of-append ek ev b'=' (encoded-NoEquals k h), part_value)
      (rw (drop-length_append ek b'=' ev) (decoded-uri_encode v h'))

split-flatten_query_map :
    (s : Splitter) (e : Text × Text) (m : List (Text × Text))
    → IsByteMap (e ∷ m)
    → s.split (flatten_query_map (e ∷ m)) ≡ map flatten_field (e ∷ m)
unfolding flatten_query_map
split-flatten_query_map s (k, v) [] ((hk, hv), h) =
    s.split_one (flatten_field (k, v)) (flatten_field-NoAmpersand k v hk hv)
split-flatten_query_map s (k, v) (e ∷ m) ((hk, hv), h) =
    s.split_more (flatten_field (k, v)) (flatten_query_map (e ∷ m))
      (flatten_field-NoAmpersand k v hk hv)
    ∙ ap (λ r. flatten_field (k, v) ∷ r) (split-flatten_query_map s e m h)

-- Every key of the first map lies below every key of the second.
abbrev Below : List (Text × Text) → List (Text × Text) → Type 0
Below acc m = All (λ e. All (λ a. TextLt a.0 e.0) acc) m

Below-snoc :
    (k v : Text) (acc m : List (Text × Text))
    → All (λ e. TextLt k e.0) m
    → Below acc m
    → Below (acc ++ (k, v) ∷ []) m
Below-snoc k v acc [] a b = tt
Below-snoc k v acc (e ∷ m) (h, a) (b, bs) =
    (All-append (λ a. TextLt a.0 e.0) acc ((k, v) ∷ []) b (h, tt), Below-snoc k v acc m a bs)

insert_parts-flatten_field :
    (m acc : List (Text × Text))
    → IsByteMap m
    → IsSorted m
    → Below acc m
    → insert_parts (map flatten_field m) acc ≡ acc ++ m
unfolding insert_parts
insert_parts-flatten_field [] acc h s b = sym (append-nil acc)
insert_parts-flatten_field ((k, v) ∷ m) acc ((hk, hv), h) (a, s) (b, bs) =
    ap (insert_parts (map flatten_field m)) (
      ap₂ (λ key value. insert key value acc) (part_key-flatten_field k v hk)
        (part_value-flatten_field k v hk hv)
      ∙ insert_last k v acc b)
    ∙ insert_parts-flatten_field m (acc ++ (k, v) ∷ []) h s (Below-snoc k v acc m a bs)
    ∙ append_assoc acc ((k, v) ∷ []) m

Below-nil : (m : List (Text × Text)) → Below [] m
Below-nil [] = tt
Below-nil (e ∷ m) = (tt, Below-nil m)

-- A non-empty map of byte texts that is set as the query, and read again from the encoded query
-- into a new object, is the map that was set.
pub set_encoded_query-set_query :
    (s : Splitter) (m : List (Text × Text)) (q : QueryImpl)
    → m ≢ []
    → IsSorted m
    → IsByteMap m
    → (set_encoded_query s (get_encoded_query (set_query m q).0) new_query).0.query_map ≡ m
unfolding set_encoded_query get_encoded_query set_query generate_query_map
set_encoded_query-set_query s [] q n so h = absurd (n refl)
set_encoded_query-set_query s (e ∷ m) q n so h =
    rw (split-flatten_query_map s e m h)
      (insert_parts-flatten_field (e ∷ m) [] h so (Below-nil (e ∷ m)))
