-- ===== src/Routes/Validate.antt =====
-- `parse`, `validate`: every fault of every route is collected, in order.
use Prim.Native.Nat.{ℕ, suc}
use yaagents_gateway.Prelude.{
  String, Bool, not, List, [], ◌∷◌, ◌++◌, Option, none, some, ◌==◌, contains, if◌then◌else◌,
}
use yaagents_gateway.Prelude.Result.{Result, ok, err}
use yaagents_gateway.Prelude.Text.{to_upper}
use yaagents_gateway.Routes.{Route}
use yaagents_gateway.Routes.Placeholders.{PathError, parse_placeholders}

abbrev pub valid_methods : List String
valid_methods = "GET" ∷ "POST" ∷ "PUT" ∷ "PATCH" ∷ "DELETE" ∷ "HEAD" ∷ "OPTIONS" ∷ []

-- How a message names a route: by its position or by its id.
pub data Label : Type 0 where
  at_index : ℕ → Label
  with_id : String → Label

pub data Fault : Type 0 where
  id_required : Label → Fault
  id_duplicated : String → Fault
  method_required : Label → Fault
  method_invalid : Label → String → Fault
  path_required : Label → Fault
  path_invalid : Label → PathError → Fault
  target_required : Label → Fault
  target_invalid : Label → String → Fault

-- The first `switch`: the faults, the ids seen and the label for the later messages.
unfoldable pub check_id : ℕ → List String → Route → List Fault × List String × Label
check_id i seen r =
    if r.id == ""
    then (id_required (at_index i) ∷ [], seen, at_index i)
    else if contains seen r.id
    then (id_duplicated r.id ∷ [], seen, at_index i)
    else ([], r.id ∷ seen, with_id r.id)

unfoldable pub check_method : Label → Route → List Fault × Route
check_method label r =
    if r.method == ""
    then (method_required label ∷ [], r)
    else if not (contains valid_methods (to_upper r.method))
    then (method_invalid label r.method ∷ [], r)
    else ([], record r { method = to_upper r.method })

unfoldable pub check_path : Label → Route → List Fault × Route
check_path label r =
    if r.path == "" then (path_required label ∷ [], r) else elim (parse_placeholders r.path) [
      | err e ↦ (path_invalid label e ∷ [], r)
      | ok names ↦ ([], record r { path_params = names })
    ]

unfoldable pub check_target : (String → Bool) → Label → Route → List Fault
check_target is_request_uri label r =
    if r.target == ""
    then target_required label ∷ []
    else if is_request_uri r.target
    then []
    else target_invalid label r.target ∷ []

-- One round of the loop: the faults, the ids seen from here on and the route as rewritten.
unfoldable pub check_route :
    (String → Bool) → ℕ → List String → Route → List Fault × List String × Route
check_route is_request_uri i seen r =
    let (id_faults, seen', label) = check_id i seen r in
    let (method_faults, r') = check_method label r in
    let (path_faults, r'') = check_path label r' in
    (id_faults ++ method_faults ++ path_faults ++ check_target is_request_uri label r'', seen', r'')

unfoldable pub check_from : (String → Bool) → ℕ → List String → List Route → List Fault × List Route
check_from is_request_uri i seen [] = ([], [])
check_from is_request_uri i seen (r ∷ rs) =
    let (faults, seen', r') = check_route is_request_uri i seen r in
    let (later, rs') = check_from is_request_uri (suc i) seen' rs in (faults ++ later, r' ∷ rs')

-- `validate`: the routes as rewritten, or all the faults.
unfoldable pub validate : (String → Bool) → List Route → Result (List Fault) (List Route)
validate is_request_uri rs =
    let (faults, rs') = check_from is_request_uri 0 [] rs in
    elim faults [ [] ↦ ok rs' | f ∷ fs ↦ err (f ∷ fs) ]

pub data LoadError : Type 0 where
  unreadable : LoadError
  malformed : LoadError
  invalid : List Fault → LoadError

-- `parse`, with the YAML decoder as a parameter.
unfoldable pub parse :
    (String → Option (List Route)) → (String → Bool) → String → Result LoadError (List Route)
parse decode is_request_uri text = elim (decode text) [
  | none ↦ err malformed
  | some rs ↦ elim (validate is_request_uri rs) [ ok rs' ↦ ok rs' | err fs ↦ err (invalid fs) ]
]

-- `Load`, with the file system as a parameter.
unfoldable pub load :
    (String → Option String)
    → (String → Option (List Route))
    → (String → Bool)
    → String
    → Result LoadError (List Route)
unfolding parse
load read_file decode is_request_uri path = elim (read_file path) [
  | none ↦ err unreadable
  | some text ↦ parse decode is_request_uri text
]
