-- ===== src/ExecPolicy/RuleMap.antt =====
-- What src-tauri/src/execpolicy/mod.rs takes from outside: the crate `multimap`, with the behaviour
-- that it documents, and the operating system's paths.
use mosaic_desktop.Prelude.{
  ◌≡◌, Bool, Option, none, some, List, [], ◌∷◌, ◌++◌, String, str_eq, if◌then◌else◌,
}
use mosaic_desktop.ExecPolicy.Rule.{PrefixRule}

-- `.unwrap_or_default()`
abbrev pub or_nil {ℓ} : {A : Type ℓ} → Option (List A) → List A
or_nil none = []
or_nil (some xs) = xs

-- The values of a key among the entries that `iter_all` visits.
abbrev pub values_of : String → List (String × List PrefixRule) → List PrefixRule
values_of k [] = []
values_of k ((j, vs) ∷ entries) = (if str_eq j k then vs else []) ++ values_of k entries

-- `MultiMap<String, RuleRef>`: `insert` appends to the values of its key, and `iter_all` visits the
-- values of every key.
pub record MultiMap : Type 1 where
  pub Map : Type 0
  pub empty : Map
  pub insert : Map → String → PrefixRule → Map
  pub get_vec : Map → String → Option (List PrefixRule)
  pub iter_all : Map → List (String × List PrefixRule)
  pub get_vec-empty : (k : String) → get_vec empty k ≡ none
  pub get_vec-insert :
      (m : Map) (k j : String) (v : PrefixRule)
      → or_nil (get_vec (insert m k v) j)
        ≡ or_nil (get_vec m j) ++ (if str_eq k j then v ∷ [] else [])
  pub iter_all-get_vec : (m : Map) (k : String) → values_of k (iter_all m) ≡ or_nil (get_vec m k)

-- `std::path`: `is_absolute`, `file_stem` as a text, and the equality of paths, which depend on the
-- platform.
pub record Paths : Type 0 where
  pub is_absolute : String → Bool
  pub file_stem : String → Option String
  pub path_eq : String → String → Bool
