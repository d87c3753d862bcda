-- ===== src/Logger/Fields.antt =====
-- `std::map<std::string, std::string>` as the logger gets it: the pairs in ascending order of their
-- keys, the first of several pairs with one key.
use real_time_system_metrics.Base.{List, [], ◌∷◌, Bytes, bytes_eq, bytes_lt, if◌then◌else◌}

unfoldable pub insert_field : Bytes × Bytes → List (Bytes × Bytes) → List (Bytes × Bytes)
insert_field (key, value) [] = (key, value) ∷ []
insert_field (key, value) ((k, v) ∷ m) =
    if bytes_eq key k
    then (k, v) ∷ m
    else if bytes_lt key k
    then (key, value) ∷ (k, v) ∷ m
    else (k, v) ∷ insert_field (key, value) m

-- The map that an initializer list makes.
unfoldable pub map_of : List (Bytes × Bytes) → List (Bytes × Bytes) → List (Bytes × Bytes)
unfolding insert_field
map_of [] m = m
map_of (p ∷ ps) m = map_of ps (insert_field p m)
