-- ===== src/Text/Tests.antt =====
-- The theorems on texts at concrete ones.
use libupnpp.Prelude.{true, [], ◌∷◌, ◌≡◌, refl, some, codes}
use libupnpp.Prelude.Int.{ℤ}
use libupnpp.Text.Csv.{csv_to_strings}
use libupnpp.Text.Csv.Escaped.{csv_to_strings-escape_list, escape_list}
use libupnpp.Text.Decimal.{upnpduration}
use libupnpp.Text.Lines.{break_into_lines}
use libupnpp.Text.Ranges.{parse_http_ranges}

duration_run : upnpduration (ℤ.pos 3723004) ≡ codes "1:02:03"
unfolding upnpduration
duration_run = refl

csv_to_strings-escape_list_example :
    csv_to_strings (escape_list (codes "a,b") (codes "\\" ∷ []))
    ≡ (true, codes "a,b" ∷ codes "\\" ∷ [])
csv_to_strings-escape_list_example = csv_to_strings-escape_list (codes "a,b") (codes "\\" ∷ [])

-- A range without a dash takes the dash of the next one, and its second bound.
ranges_without_dash :
    parse_http_ranges (codes "bytes=5,1-2")
    ≡ some (true, (ℤ.pos 5, ℤ.pos 2) ∷ (ℤ.pos 1, ℤ.pos 2) ∷ [])
unfolding parse_http_ranges
ranges_without_dash = refl

lines_cut : break_into_lines (codes "ab cd ef") 4 9 ≡ some (codes "ab \ncd \nef\n")
unfolding break_into_lines
lines_cut = refl
