-- ===== src/Mavlink/Params.antt =====
-- The parameters of the vehicle: get_param, set_param, load_pdef and get_all_params of MavsdkDrone.
pub mod Walk
use dankong.Prelude.{
  ℕ, zero, suc, Bool, true, false, ◌&&◌, Option, none, some, List, [], ◌∷◌, ◌++◌, map,
  if◌then◌else◌, leb, ◌==◌, value_or,
}
use dankong.Prelude.Int.{ℤ}
use dankong.Prelude.Double.{Double}
use dankong.Core.{codes, bytes_eq}
use dankong.Mavlink.Sdk.{is_success, Call, Sdk}

-- ApmParam
pub data ApmParam (F : Type 0) : Type 0 where
  of_int : ℤ → ApmParam F
  of_double : F → ApmParam F
  of_string : List ℕ → ApmParam F

module _ {F : Type 0} where
  -- The kind of `value` picks the query; `value` stays where the query fails.
  unfoldable pub get_param : Sdk F → List ℕ → ApmParam F → ApmParam F
  get_param sdk name (of_int n) = of_int (value_or (sdk.get_param_int name) n)
  get_param sdk name (of_double x) = of_double (value_or (sdk.get_param_float name) x)
  get_param sdk name (of_string s) = of_string s

  unfoldable pub set_param : Sdk F → List ℕ → ApmParam F → Bool × List (Call F)
  set_param sdk name (of_int n) =
      (is_success (sdk.answer (Call.set_param_int name n)), Call.set_param_int name n ∷ [])
  set_param sdk name (of_double x) =
      (is_success (sdk.answer (Call.set_param_float name x)), Call.set_param_float name x ∷ [])
  set_param sdk name (of_string s) = (false, [])

-- tinyxml2::XMLElement, as load_pdef reads it: its tag, the attributes "name" and "documentation",
-- its text, and its children.
pub record Tag : Type 0 where
  pub tag : List ℕ
  pub name : Option (List ℕ)
  pub documentation : Option (List ℕ)
  pub text : Option (List ℕ)

mutual
  pub data Element : Type 0 where
    element : Tag → Elements → Element

  pub data Elements : Type 0 where
    childless : Elements
    child : Element → Elements → Elements

-- pdef_: the help of each parameter, the newest entry first. The "default" of an entry is null.
abbrev pub Pdef : Type 0
Pdef = List (List ℕ × List (List ℕ))

-- What stands behind the last colon, if there is one.
unfoldable pub behind_colon : List ℕ → Option (List ℕ)
behind_colon [] = none
behind_colon (c ∷ cs) = elim (behind_colon cs) [
  | some rest ↦ some rest
  | none ↦ if c == b':' then some cs else none
]

unfoldable pub param_name : Tag → List ℕ
param_name t = let full_name = value_or t.name [] in value_or (behind_colon full_name) full_name

-- The lines of the children with the tag "field".
unfoldable pub field_lines : Elements → List (List ℕ)
field_lines childless = []
field_lines (child (element t _) rest) =
    let lines = field_lines rest in
    if bytes_eq t.tag (codes "field")
    then (value_or t.name [] ++ codes ": " ++ value_or t.text []) ∷ lines
    else lines

unfoldable pub help_text : Tag → Elements → List (List ℕ)
help_text t fields = value_or t.documentation [] ∷ field_lines fields

-- The body of the loop of load_pdef.
unfoldable pub visit : Tag → Elements → Pdef → Pdef
visit t children pdef =
    if bytes_eq t.tag (codes "param") then (param_name t, help_text t children) ∷ pdef else pdef

unfoldable pub push_all : Elements → List Element → List Element
push_all childless stack = stack
push_all (child c rest) stack = push_all rest (c ∷ stack)

-- The loop over the stack, whose last element is the head here.
unfoldable pub visit_loop : ℕ → List Element → Pdef → Pdef
visit_loop zero stack pdef = pdef
visit_loop (suc fuel) [] pdef = pdef
visit_loop (suc fuel) (element t children ∷ stack) pdef =
    visit_loop fuel (push_all children stack) (visit t children pdef)

-- A file that cannot be read changes nothing; one without a root leaves an empty object. The fuel
-- is the number of the elements.
pub data XmlFile : Type 0 where
  unreadable rootless : XmlFile
  rooted : Element → XmlFile

unfoldable pub load_pdef : ℕ → XmlFile → Pdef → Pdef
load_pdef fuel unreadable pdef = pdef
load_pdef fuel rootless pdef = []
load_pdef fuel (rooted root) pdef = visit_loop fuel (root ∷ []) []

unfoldable pub find_help : List ℕ → Pdef → Option (List (List ℕ))
find_help key [] = none
find_help key ((name, help) ∷ rest) = if bytes_eq name key then some help else find_help key rest

-- key.substr(0, key.find('_')), with each digit replaced by X.
unfoldable pub group_prefix : List ℕ → List ℕ
group_prefix [] = []
group_prefix (c ∷ cs) =
    let rest = group_prefix cs in
    if c == b'_' then [] else (if leb b'0' c && leb c b'9' then b'X' else c) ∷ rest

pub record ParamItem (F : Type 0) : Type 0 where
  pub key : List ℕ
  pub value : ApmParam F
  pub help : List (List ℕ)
  -- "group": the prefix and the key
  pub group : List ℕ

module _ {F : Type 0} where
  unfoldable pub process_param : Pdef → List ℕ × ApmParam F → ParamItem F
  process_param pdef (key, value) = record {
    key = key;
    value = value;
    help = value_or (find_help key pdef) ([] ∷ []);
    group = group_prefix key;
  }

  -- The parameters of the vehicle, the integers first.
  unfoldable pub get_all_params : Pdef → List (List ℕ × ℤ) → List (List ℕ × F) → List (ParamItem F)
  get_all_params pdef ints floats =
      map (process_param pdef) (map (λ (k, v). (k, of_int v)) ints)
      ++ map (process_param pdef) (map (λ (k, v). (k, of_double v)) floats)
