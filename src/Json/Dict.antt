-- ===== src/Json/Dict.antt =====
-- A `dict` with text keys.
use mcp_multiplex.Prelude.{
  String, ◌≡◌, refl, arith, Option, none, some, if◌then◌else◌, false, ◌==◌, eq_iff,
}
use mcp_multiplex.Json.{Json, Fields, end, field}

-- `d.get(key)`
abbrev pub get : String → Fields → Option Json
get k end = none
get k (field j v fs) = if j == k then some v else get k fs

-- `d[key] = value`: a key that is there keeps its place.
abbrev pub set : String → Json → Fields → Fields
set k v end = field k v end
set k v (field j w fs) = if j == k then field j v fs else field j w (set k v fs)

-- What a key holds after an assignment to that key or to another one.
pub get-set :
    (k j : String) (v : Json) (fs : Fields)
    → get j (set k v fs) ≡ (if k == j then some v else get j fs)
get-set k j v end = refl
get-set k j v (field i w fs) = ground (arith, get-set k j v fs, eq_iff i k, eq_iff i j, eq_iff k j)

pub get-set_same : (k : String) (v : Json) (fs : Fields) → get k (set k v fs) ≡ some v
get-set_same k v fs = ground (arith, get-set k k v fs, eq_iff k k)

pub get-set_other :
    (k j : String) (v : Json) (fs : Fields) → (k == j) ≡ false → get j (set k v fs) ≡ get j fs
get-set_other k j v fs apart = ground (arith, get-set k j v fs)
