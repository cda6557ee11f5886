-- ===== src/Python/Json.antt =====
-- JSON values, as `json.loads` gives them and `json.dumps` takes them. `num n` is the integer n and
-- `neg n` the integer -(n + 1). A finite float is its sign and its size in units of 2 ^ -1074, of which
-- every double is a multiple; NaN and the infinities are `non_finite`.
use ai_oncall.Prelude.{
  ℕ, String, Bool, List, [], ◌∷◌, Option, none, some, ◌==◌, if◌then◌else◌, ◌≡◌, refl, ap, map,
}

mutual
  pub data Json : Type 0 where
    null : Json
    bool : Bool → Json
    num : ℕ → Json
    neg : ℕ → Json
    float : Bool → ℕ → Json
    non_finite : String → Json
    str : String → Json
    arr : Items → Json
    obj : Fields → Json

  pub data Items : Type 0 where
    nil : Items
    cons : Json → Items → Items

  pub data Fields : Type 0 where
    end : Fields
    field : String → Json → Fields → Fields

unfoldable pub items : List Json → Items
items [] = nil
items (v ∷ vs) = cons v (items vs)

unfoldable pub fields : List (String × Json) → Fields
fields [] = end
fields ((k, v) ∷ kvs) = field k v (fields kvs)

-- `[v, …]` and `{"k": v, …}`
abbrev pub array : List Json → Json
array vs = arr (items vs)

abbrev pub dict : List (String × Json) → Json
dict kvs = obj (fields kvs)

abbrev pub strings : List String → Json
strings ss = array (map str ss)

abbrev pub str_or_null : Option String → Json
str_or_null none = null
str_or_null (some s) = str s

abbrev pub elements : Items → List Json
elements nil = []
elements (cons v vs) = v ∷ elements vs

-- `d.get(k)` of a dict
abbrev pub get : String → Fields → Option Json
get k end = none
get k (field j v fs) = let rest = get k fs in if j == k then some v else rest

pub elements-items : (vs : List Json) → elements (items vs) ≡ vs
unfolding items
elements-items [] = refl
elements-items (v ∷ vs) = ap (λ ws. v ∷ ws) (elements-items vs)
