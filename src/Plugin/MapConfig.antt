-- ===== src/Plugin/MapConfig.antt =====
-- plugin/config.go: typed reads of a plugin's configuration block. The warnings that the source
-- logs on a value of the wrong type are left out.
use yaagents_gateway.Prelude.{String, Bool, false, List, [], Option, none, some}
use yaagents_gateway.Prelude.Int.{ℤ, pos}
use yaagents_gateway.Prelude.Maps.{lookup}
use yaagents_gateway.Value.{
  Value, str, strs, bool, int, int64, float64, list, Object, elems, all_texts,
}

pub record MapConfig : Type 0 where
  pub values : Object

-- A nil map is an empty configuration.
abbrev pub new_map_config : Option Object → MapConfig
new_map_config none = record { values = [] }
new_map_config (some m) = record { values = m }

abbrev string_or_empty : Option Value → String
string_or_empty (some (str s)) = s
string_or_empty _ = ""

unfoldable pub get_string : MapConfig → String → String
get_string c key = string_or_empty (lookup key c.values)

abbrev bool_or_false : Option Value → Bool
bool_or_false (some (bool b)) = b
bool_or_false _ = false

unfoldable pub get_bool : MapConfig → String → Bool
get_bool c key = bool_or_false (lookup key c.values)

abbrev or_nil : Option (List String) → List String
or_nil none = []
or_nil (some ss) = ss

-- The nil slice and the empty one are both `[]`.
abbrev slice_or_nil : Option Value → List String
slice_or_nil (some (strs ss)) = ss
slice_or_nil (some (list vs)) = or_nil (all_texts (elems vs))
slice_or_nil _ = []

unfoldable pub get_string_slice : MapConfig → String → List String
get_string_slice c key = slice_or_nil (lookup key c.values)

abbrev int_or_zero : Option Value → ℤ
int_or_zero (some (int n)) = n
int_or_zero (some (int64 n)) = n
int_or_zero (some (float64 n)) = n
int_or_zero _ = pos 0

unfoldable pub get_int : MapConfig → String → ℤ
get_int c key = int_or_zero (lookup key c.values)

-- A copy of the map; values are immutable here.
abbrev pub raw_values : MapConfig → Object
raw_values c = c.values
