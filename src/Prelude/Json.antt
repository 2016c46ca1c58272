-- ===== src/Prelude/Json.antt =====
-- Values of Go's `any` as encoding/json and the tests build them, and `map[string]any`.
use crawler_lite.Prelude.Base.{ℕ, Bool, true, false, ◌&&◌, if◌then◌else◌}
use crawler_lite.Prelude.Int.{ℤ}
use crawler_lite.Prelude.Text.{Str, str_eq}

-- An IEEE double. A finite one is a sign and a dyadic fraction `num / 2 ^ places`.
pub data Float64 : Type 0 where
  nan : Float64
  inf : Bool → Float64
  finite : Bool → ℕ → ℕ → Float64

mutual
  pub data Value : Type 0 where
    null : Value
    bool : Bool → Value
    string : Str → Value
    int int32 int64 : ℤ → Value
    float64 float32 : Float64 → Value
    array : Items → Value
    object : Fields → Value

  pub data Items : Type 0 where
    nil : Items
    cons : Value → Items → Items

  pub data Fields : Type 0 where
    end : Fields
    field : Str → Value → Fields → Fields

-- `m[key]`; a missing key gives the nil interface.
unfoldable pub get : Fields → Str → Value
get end key = null
get (field k v m) key = if str_eq k key then v else get m key

-- json.Marshal fails on a float that is no number.
unfoldable mutual
  pub encodes : Value → Bool
  encodes (float64 nan) = false
  encodes (float64 (inf s)) = false
  encodes (float32 nan) = false
  encodes (float32 (inf s)) = false
  encodes (array l) = encodes_items l
  encodes (object m) = encodes_fields m
  encodes _ = true

  pub encodes_items : Items → Bool
  encodes_items nil = true
  encodes_items (cons v l) = encodes v && encodes_items l

  pub encodes_fields : Fields → Bool
  encodes_fields end = true
  encodes_fields (field k v m) = encodes v && encodes_fields m
