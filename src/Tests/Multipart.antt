-- ===== src/Tests/Multipart.antt =====
-- Runs of the theorems on multipart payloads and on path filters.
use nawa.Common.{◌≡◌, refl, [], ◌∷◌, ◌++◌, List, Bytes, codes, beq, find_first_of}
use nawa.Common.Table.{text_eq, assign, lookup}
use nawa.Util.Strings.{split_string, to_lowercase}
use nawa.Util.Queries.{parse_headers, field, trim_left}
use nawa.Util.MimeMultipart.{
  MimeMultipart, Part, parse, parse_loop, round, find_at, starts_with, search_first, span,
  find_boundary, make_part, extract_part_and_file_name,
}

abbrev no_parts : MimeMultipart
no_parts = record { content_type = []; parts = [] }

abbrev boundary_type : Bytes
boundary_type = codes "multipart/form-data; boundary=\"x\""

abbrev line_end : Bytes
line_end = 13 ∷ 10 ∷ []

abbrev payload : Bytes
payload =
    codes "--x"
    ++ (line_end
        ++ (codes "Content-Disposition: form-data; name=\"n\""
            ++ (line_end ++ (line_end ++ (codes "abc" ++ (line_end ++ codes "--x--"))))))

contents : List Part → List (Bytes × Bytes)
contents [] = []
contents (p ∷ ps) = (p.part_name, p.content) ∷ contents ps

one_part : contents (parse boundary_type payload no_parts).0.parts ≡ (codes "n", codes "abc") ∷ []
unfolding contents parse find_boundary search_first starts_with span parse_loop round find_at
    make_part extract_part_and_file_name parse_headers split_string field trim_left find_first_of
    lookup assign to_lowercase beq
one_part = refl
