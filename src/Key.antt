-- ===== src/Key.antt =====
-- The keys that endpoints and suites are stored under: config/key/key.go.
pub mod Injective
pub mod Stable
use gatus.Prelude.{ℕ, ◌++◌, [], ◌∷◌, map, Text, to_lower, trim_space, replace_byte}

-- sanitize: lower case, no white space at the ends, and a dash for each separator.
unfoldable pub sanitize : Text → Text
unfolding to_lower trim_space replace_byte
sanitize s =
    let s = trim_space (map to_lower s) in
    let s = replace_byte b'/' b'-' s in
    let s = replace_byte b'_' b'-' s in
    let s = replace_byte b'.' b'-' s in
    let s = replace_byte b',' b'-' s in
    let s = replace_byte b' ' b'-' s in
    let s = replace_byte b'#' b'-' s in let s = replace_byte b'+' b'-' s in replace_byte b'&' b'-' s

-- ConvertGroupAndNameToKey.
unfoldable pub convert_group_and_name_to_key : Text → Text → Text
unfolding sanitize
convert_group_and_name_to_key group_name name = sanitize group_name ++ b'_' ∷ sanitize name
