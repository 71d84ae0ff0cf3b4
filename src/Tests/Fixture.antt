-- ===== src/Tests/Fixture.antt =====
-- A cluster in memory: an API server that refuses to create a name twice, caches that always agree
-- with it, and three expressions.
use kubestellar_workload_sta.Base.{
  ◌≡◌, Bool, true, false, ◌&&◌, Option, none, some, List, [], ◌∷◌, ◌++◌, Str, codes, length, leb,
  ◌==◌, str_eq, if◌then◌else◌,
}
use kubestellar_workload_sta.Base.Dict.{Dict, lookup, insert, erase}
use kubestellar_workload_sta.Api.{Kinds, Expression, StagedBindingPolicy, Binding, BindingPolicy}
use kubestellar_workload_sta.Cluster.{Cluster, Result, ok, err, Argument, strings, unstructured}

abbrev pub kinds : Kinds
kinds = record { LabelSelector = Str; DownsyncPolicyClause = Str }

pub data ServerError : Type 0 where
  not_found already_exists bad_key bad_expression : ServerError

abbrev pub is_not_found : ServerError → Bool
is_not_found not_found = true
is_not_found _ = false

pub record Status : Type 0 where
  pub name : Str
  pub labels : Dict Str Str
  pub ready : Bool

-- `uids` holds the UIDs that the server will give out.
pub record Server : Type 0 where
  pub binding_policies : Dict Str Str
  pub policies : Dict Str (StagedBindingPolicy kinds)
  pub bindings : Dict Str Binding
  pub statuses : List Status
  pub uids : List Str

abbrev next_uid : List Str → Str
next_uid [] = codes "uid"
next_uid (u ∷ us) = u

abbrev later_uids : List Str → List Str
later_uids [] = []
later_uids (u ∷ us) = us

abbrev create : BindingPolicy kinds → Server → Result ServerError Str × Server
create bp s = elim (lookup bp.name s.binding_policies) [
  | some _ ↦ (err already_exists, s)
  | none ↦ (
    ok (next_uid s.uids),
    record s {
      binding_policies = insert bp.name (next_uid s.uids) s.binding_policies;
      uids = later_uids s.uids;
    },
  )
]

abbrev delete : Str → Server → Option ServerError × Server
delete name s = elim (lookup name s.binding_policies) [
  | none ↦ (some not_found, s)
  | some _ ↦ (none, record s { binding_policies = erase name s.binding_policies })
]

abbrev found : {A : Type 0} → Option A → Result ServerError A
found none = err not_found
found (some a) = ok a

abbrev update : StagedBindingPolicy kinds → Server → Option ServerError × Server
update sbp s = elim (lookup sbp.metadata.name s.policies) [
  | none ↦ (some not_found, s)
  | some old ↦ (
    none,
    record s {
      policies = insert sbp.metadata.name (record old { status = sbp.status }) s.policies;
    },
  )
]

-- An object is given only under its own name.
abbrev pub if_named : Str → Option (StagedBindingPolicy kinds) → Option (StagedBindingPolicy kinds)
if_named name none = none
if_named name (some sbp) = if sbp.metadata.name == name then some sbp else none

abbrev has_labels : List (Str × Str) → Dict Str Str → Bool
has_labels [] labels = true
has_labels ((k, v) ∷ rest) labels =
    elim (lookup k labels) [ none ↦ false | some w ↦ v == w ] && has_labels rest labels

abbrev listed : List (Str × Str) → List Status → List Status
listed selector [] = []
listed selector (s ∷ rest) =
    let more = listed selector rest in if has_labels selector s.labels then s ∷ more else more

abbrev named : Str → List Status → Option Status
named name [] = none
named name (s ∷ rest) = if s.name == name then some s else named name rest

pub data Value : Type 0 where
  bool : Bool → Value
  text : Value

abbrev value_type : Value → Str
value_type (bool b) = codes "bool"
value_type text = codes "string"

abbrev truth : (v : Value) → value_type v ≡ codes "bool" → Bool
truth (bool b) h = b
truth text h = false

abbrev is_ready : Option (Argument Bool) → Result ServerError Value
is_ready (some (unstructured b)) = ok (bool b)
is_ready _ = err bad_expression

abbrev has_resource : Str → Option (Argument Bool) → Result ServerError Value
has_resource r (some (strings clause)) = elim (lookup (codes "resource") clause) [
  | none ↦ err bad_expression
  | some v ↦ ok (bool (v == r))
]
has_resource r _ = err bad_expression

-- "ready" reads the status, "deployments" tests the resource of a clause, and "name" is a text.
abbrev run_expression : Expression → Dict Str (Argument Bool) → Result ServerError Value
run_expression e arguments =
    if e == codes "ready"
    then is_ready (lookup (codes "combinedStatus") arguments)
    else if e == codes "deployments"
    then has_resource (codes "deployments") (lookup (codes "downsyncClause") arguments)
    else ok text

abbrev parse_expression : Expression → Expression × Option ServerError
parse_expression e = (e, if e == codes "(" then some bad_expression else none)

abbrev requirement : Str → Unit {0} → List Str → Option (Str × Str)
requirement key op (value ∷ []) = if leb (length value) 63 then some (key, value) else none
requirement key op _ = none

abbrev pub cluster : Cluster kinds
cluster = record {
  Server = Server;
  Error = ServerError;
  is_not_found = is_not_found;
  create_binding_policy = create;
  delete_binding_policy = delete;
  get_policy = λ name s. (found (if_named name (lookup name s.policies)), s);
  update_policy_status = update;
  CombinedStatus = Status;
  status_name = λ s. s.name;
  status_generation = λ s. 1;
  status_labels = λ s. s.labels;
  Unstructured = Bool;
  to_unstructured = λ s. ok s.ready;
  Operator = Unit {0};
  equals = tt;
  Requirement = Str × Str;
  new_requirement = requirement;
  Selector = List (Str × Str);
  new_selector = [];
  add = λ sel r. sel ++ (r ∷ []);
  list_combined_statuses = λ sel s. ok (listed sel s.statuses);
  policy_by_key = λ name s. ok (lookup name s.policies);
  new_not_found = λ resource name. not_found;
  cached_binding = λ name s. found (lookup name s.bindings);
  cached_combined_status = λ namespace name s. found (named name s.statuses);
  status_key = λ s. ok s.name;
  split_key = λ key. ok ([], key);
  Ast = Expression;
  Issues = ServerError;
  issues_err = λ e. some e;
  parse = parse_expression;
  check = λ e. (e, none);
  Program = Expression;
  program = λ e. ok e;
  Val = Value;
  eval = run_expression;
  type_name = value_type;
  bool_value = truth;
  range_identifiers = λ objs. objs;
  range_names = λ names. names;
}
