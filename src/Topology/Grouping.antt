-- ===== src/Topology/Grouping.antt =====
-- `GroupingScheme` and its two conversions, `getGroupingString` and `parseGroupingString`.
use cranesps.Base.{String, Option, none, some, if◌then◌else◌}
use cranesps.Base.Text.{str_eq}

pub data GroupingScheme : Type 0 where
  shuffle field all default : GroupingScheme

unfoldable pub get_grouping_string : GroupingScheme → String
get_grouping_string shuffle = "ShuffleGrouping"
get_grouping_string field = "FieldGrouping"
get_grouping_string all = "AllGrouping"
get_grouping_string default = "DefaultGrouping"

-- `none` where the source ends without a `return`.
unfoldable pub parse_grouping_string : String → Option GroupingScheme
parse_grouping_string s =
    if str_eq s "ShuffleGrouping"
    then some shuffle
    else if str_eq s "FieldGrouping"
    then some field
    else none
