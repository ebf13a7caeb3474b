-- ===== src/Options.antt =====
-- How the flags of the operator are read: `splitAllowedPrefixes` and `watchNamespaceOrAll`
-- (cmd/main.go).
pub mod Prefixes
pub mod Printed
use cabure.Base.{List, [], ◌∷◌, ◌==◌, list_eq, nat_eq, if◌then◌else◌}
use cabure.Text.{Text, split, trim_space}

-- The loop of `splitAllowedPrefixes`.
kept : List Text → List Text
kept [] = []
kept (prefix ∷ prefixes) =
    let rest = kept prefixes in if trim_space prefix == [] then rest else trim_space prefix ∷ rest

-- `splitAllowedPrefixes`
unfoldable pub split_allowed_prefixes : Text → List Text
unfolding kept split trim_space
split_allowed_prefixes raw = if trim_space raw == [] then [] else kept (split b',' (trim_space raw))

-- `watchNamespaceOrAll`, where the empty text stands for all namespaces.
unfoldable pub watch_namespace_or_all : Text → Text
unfolding trim_space
watch_namespace_or_all namespace = if trim_space namespace == [] then [] else namespace
