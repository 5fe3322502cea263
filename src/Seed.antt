-- ===== src/Seed.antt =====
-- The names of the objects that hack/conformance-seed/main.go creates.
pub mod Prefix
pub mod Objects
pub mod Owned
pub mod Checked
pub mod Conforms
mod Memory
mod Tests
use Prim.Native.Char.{Char, code}
use Prim.Native.String
use cluster_inventory_api.Common.{
  ℕ, zero, suc, String, Bool, true, false, ◌&&◌, ◌||◌, List, [], ◌∷◌, ◌==◌, leb, nat_eq,
  if◌then◌else◌, concat, decimal,
}

abbrev pub max_object_name_prefix_length : ℕ
max_object_name_prefix_length = 40

-- a to z, 0 to 9, and the dash
abbrev pub is_safe : Char → Bool
is_safe c =
    leb 97 (code c) && leb (code c) 122 || leb 48 (code c) && leb (code c) 57 || nat_eq (code c) 45

abbrev pub is_dash : Char → Bool
is_dash c = nat_eq (code c) 45

-- strings.Map by the function of `objectNamePrefix`
unfoldable pub dashed : String → String
dashed String.[] = ""
dashed (String.◌∷◌ c s) =
    let rest = dashed s in if is_safe c then String.◌∷◌ c rest else String.◌∷◌ "-" rest

-- s[:n] where s is longer, else s; every character of the text is one byte.
unfoldable pub cut : ℕ → String → String
cut zero s = ""
cut (suc n) String.[] = ""
cut (suc n) (String.◌∷◌ c s) = String.◌∷◌ c (cut n s)

-- strings.TrimLeft and TrimRight of dashes
unfoldable pub trim_left_dashes : String → String
trim_left_dashes String.[] = ""
trim_left_dashes (String.◌∷◌ c s) =
    let rest = trim_left_dashes s in if is_dash c then rest else String.◌∷◌ c s

abbrev pub keep_unless_last : Char → String → String
keep_unless_last c rest = if is_dash c && rest == "" then "" else String.◌∷◌ c rest

unfoldable pub trim_right_dashes : String → String
trim_right_dashes String.[] = ""
trim_right_dashes (String.◌∷◌ c s) = keep_unless_last c (trim_right_dashes s)

-- `lower` is strings.ToLower.
unfoldable pub object_name_prefix : (String → String) → String → String
unfolding dashed cut trim_left_dashes trim_right_dashes
object_name_prefix lower manager =
    let prefix =
      trim_right_dashes
        (trim_left_dashes (cut max_object_name_prefix_length (dashed (lower manager)))) in
    if prefix == "" then "cluster-manager" else prefix

-- The name of the object with an index, and its member ID.
unfoldable pub object_name : (String → String) → String → ℕ → String
unfolding object_name_prefix concat decimal
object_name lower manager index =
    concat (object_name_prefix lower manager ∷ "-cluster-" ∷ decimal index ∷ [])
