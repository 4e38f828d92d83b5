-- ===== src/Paths/SortScenarios.antt =====
-- The natural sort at concrete names, with the tables of ASCII and one superscript digit.
use gallery.Base.{◌+◌, ◌-◌, ◌≡◌, refl, ◌&&◌, Option, none, some, [], ◌∷◌, leb, ◌==◌, if◌then◌else◌}
use gallery.Base.Text.{Text, codes, same}
use gallery.Base.Int.{negsuc}
use gallery.Paths.Natural.{
  CharTables, text_ltb, decimal_digits, part_text, compare_texts, compare_part, compare_parts,
  split_digits, all_digits, isdigit, all_decimal, digits_value, int_of, natural_part, parts_of,
  natural_sort_parts, compare_natural,
}
use gallery.Paths.Collation.{negate}
use gallery.Paths.Sorted.{compare_natural_swap, compare_natural_trans}

abbrev ascii_lower : Text → Text
ascii_lower [] = []
ascii_lower (c ∷ s) = (if leb 65 c && leb c 90 then c + 32 else c) ∷ ascii_lower s

abbrev ascii : CharTables
ascii = record {
  decimal = λ c. leb 48 c && leb c 57;
  other_digit = λ c. c == 178;
  digit_value = λ c. c - 48;
  lower = ascii_lower;
}

abbrev img2 : Option Text
img2 = some (codes "img2")

abbrev img10 : Option Text
img10 = some (codes "IMG10")

abbrev img10b : Option Text
img10b = some (codes "img010b")

ten_after_two : compare_natural ascii img2 img10 ≡ some (negsuc 0)
unfolding compare_natural natural_sort_parts parts_of natural_part int_of digits_value all_decimal
    isdigit all_digits split_digits compare_parts compare_part compare_texts part_text
    decimal_digits text_ltb same
ten_after_two = refl

b_after_ten : compare_natural ascii img10 img10b ≡ some (negsuc 0)
unfolding compare_natural natural_sort_parts parts_of natural_part int_of digits_value all_decimal
    isdigit all_digits split_digits compare_parts compare_part compare_texts part_text
    decimal_digits text_ltb same
b_after_ten = refl

-- A name that is a superscript digit raises.
superscript : compare_natural ascii (some (178 ∷ [])) none ≡ none
unfolding compare_natural natural_sort_parts parts_of natural_part int_of digits_value all_decimal
    isdigit all_digits split_digits
superscript = refl

compare_natural_swap_example : compare_natural ascii img10 img2 ≡ some (negate (negsuc 0))
compare_natural_swap_example = compare_natural_swap ascii img2 img10 (negsuc 0) ten_after_two

compare_natural_trans_example : compare_natural ascii img2 img10b ≡ some (negsuc 0)
compare_natural_trans_example =
    compare_natural_trans ascii img2 img10 img10b ten_after_two b_after_ten
