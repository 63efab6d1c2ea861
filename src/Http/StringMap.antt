-- ===== src/Http/StringMap.antt =====
-- std::map<std::string, std::string>: the entries in the order of their keys, each key once.
pub mod Sorted
use l.Base.{Bool, Bytes, List, Option, equal, false, if◌then◌else◌, less, none, some, true, [], ◌∷◌}

abbrev pub StringMap : Type 0
StringMap = List (Bytes × Bytes)

-- `find`: the value under a key
unfoldable pub find : Bytes → StringMap → Option Bytes
find key [] = none
find key ((k, v) ∷ m) = let rest = find key m in if equal k key then some v else rest

-- `count`: is the key there?
unfoldable pub count : Bytes → StringMap → Bool
count key [] = false
count key ((k, v) ∷ m) = let rest = count key m in if equal k key then true else rest

-- `m[key] = value`
unfoldable pub assign : Bytes → Bytes → StringMap → StringMap
assign key value [] = (key, value) ∷ []
assign key value ((k, v) ∷ m) =
    let rest = assign key value m in
    if equal k key
    then (k, value) ∷ m
    else if less key k
    then (key, value) ∷ (k, v) ∷ m
    else (k, v) ∷ rest
