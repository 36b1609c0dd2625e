-- ===== src/Gateway/Paths.antt =====
-- The paths that api-gateway knows: which are public (`is_public_path`,
-- services/api-gateway/app/middleware/auth.py), which service each goes to (`get_target_url`,
-- services/api-gateway/app/services/proxy_service.py), and the group that the metrics count it under
-- (`_classify_path`, services/api-gateway/app/main.py).
use micro_mart.Shared.{
  Bool, true, false, ◌&&◌, ◌||◌, Option, none, some, List, [], ◌∷◌, ◌++◌, if◌then◌else◌,
}
use micro_mart.Shared.Texts.{Text, codes, same, starts_with, slash, split_slash, join_slash}

-- The URLs of `Settings`.
pub record Urls : Type 0 where
  pub user_service_url : Text
  pub product_service_url : Text
  pub order_service_url : Text

-- `path == prefix or path.startswith(prefix + "/")`
abbrev pub is_under : Text → Text → Bool
is_under path prefix = same path prefix || starts_with path (prefix ++ slash ∷ [])

-- No prefix of the list ends in a slash, so that `rstrip` leaves each as it is.
abbrev pub public_paths : List (Option Text × Text)
public_paths =
    (none, codes "/health") ∷ (none, codes "/auth") ∷ (some (codes "GET"), codes "/products") ∷ []

abbrev pub is_allowed : Option Text → Text → Bool
is_allowed none method = true
is_allowed (some allowed_method) method = same allowed_method method

abbrev pub is_in_paths : List (Option Text × Text) → Text → Text → Bool
is_in_paths [] method path = false
is_in_paths ((allowed_method, prefix) ∷ rest) method path =
    if is_allowed allowed_method method && is_under path prefix
    then true
    else is_in_paths rest method path

unfoldable pub is_public_path : Text → Text → Bool
is_public_path = is_in_paths public_paths

unfoldable pub uses_optional_auth : Text → Text → Bool
uses_optional_auth method path = same method (codes "GET") && is_under path (codes "/products")

unfoldable pub get_target_url : Urls → Text → Option Text
get_target_url settings path =
    if same path (codes "/health")
    then none
    else if is_under path (codes "/auth")
    then some settings.user_service_url
    else if is_under path (codes "/products")
    then some settings.product_service_url
    else if is_under path (codes "/orders")
    then some settings.order_service_url
    else none

-- `len(parts) > 2 and parts[2]`, with the parts from `parts[2]` on.
abbrev pub named_parts : List Text → Option (List Text)
named_parts (a ∷ b ∷ (c ∷ s) ∷ rest) = some rest
named_parts _ = none

abbrev pub products_group : Option (List Text) → Text
products_group none = codes "/products"
products_group (some []) = codes "/products/{id}"
products_group (some (t ∷ rest)) = codes "/products/{id}/" ++ join_slash (t ∷ rest)

abbrev pub orders_group : Option (List Text) → Text
orders_group none = codes "/orders"
orders_group (some rest) = codes "/orders/{id}"

unfoldable pub classify_path : Text → Text
classify_path path =
    if starts_with path (codes "/auth")
    then codes "/auth"
    else if is_under path (codes "/products")
    then products_group (named_parts (split_slash path))
    else if starts_with path (codes "/orders")
    then orders_group (named_parts (split_slash path))
    else if same path (codes "/health")
    then codes "/health"
    else codes "/unknown"
