-- ===== src/Tests/Keys.antt =====
-- Keys and alert validation on concrete inputs.
use gatus.Prelude.{◌≡◌, ◌↔◌, refl, codes}
use gatus.Key.{sanitize, convert_group_and_name_to_key}
use gatus.Key.Injective.{convert-injective}

key_of_core_api :
    convert_group_and_name_to_key (codes " Core/API ") (codes "front_end.1")
    ≡ codes "core-api_front-end-1"
unfolding convert_group_and_name_to_key
key_of_core_api = refl

convert-injective_example :
    (convert_group_and_name_to_key (codes "a_b") (codes "c")
      ≡ convert_group_and_name_to_key (codes "a-b") (codes "C"))
    ↔ ((sanitize (codes "a_b") ≡ sanitize (codes "a-b"))
        × (sanitize (codes "c") ≡ sanitize (codes "C")))
convert-injective_example = convert-injective (codes "a_b") (codes "c") (codes "a-b") (codes "C")
