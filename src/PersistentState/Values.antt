-- ===== src/PersistentState/Values.antt =====
-- The values that `json.loads` returns, and Python's `dict` operations on its objects. A key that
-- is set again keeps its place; a new key comes last.
use continuityos.Prelude.{
  String, ℤ, Bool, ◌≡◌, refl, Option, none, some, arith, str_eq, eq_iff, if◌then◌else◌,
}

mutual
  pub data Json : Type 0 where
    null : Json
    boolean : Bool → Json
    integer : ℤ → Json
    real : String → Json
    text : String → Json
    array : Items → Json
    object : Fields → Json

  pub data Items : Type 0 where
    nil : Items
    cons : Json → Items → Items

  pub data Fields : Type 0 where
    end : Fields
    field : String → Json → Fields → Fields

-- d.get(k)
unfoldable pub get : Fields → String → Option Json
get end k = none
get (field j v d) k = if str_eq j k then some v else get d k

-- d[k] = v
unfoldable pub put : Fields → String → Json → Fields
put end k v = field k v end
put (field j w d) k v = if str_eq j k then field j v d else field j w (put d k v)

pub get-put :
    (d : Fields) (k j : String) (v : Json)
    → get (put d k v) j ≡ (if str_eq k j then some v else get d j)
unfolding get put
get-put end k j v = refl
get-put (field i w d) k j v = ground (arith, eq_iff k j, eq_iff i k, eq_iff i j, get-put d k j v)
