-- ===== src/Parser/Text.antt =====
-- The text of a request, as RFC 2616 lays it out: what the parser is measured against.
use webcrown.Base.{List, [], ◌∷◌, ◌++◌, Bytes, codes, StringMap, insert}
use webcrown.StringUtils.{to_lower}

abbrev pub crlf : Bytes
crlf = 0x0d ∷ 0x0a ∷ []

-- method SP target SP HTTP-version CRLF
abbrev pub request_line_text : Bytes → Bytes → Bytes
request_line_text method target = method ++ (b' ' ∷ (target ++ (b' ' ∷ (codes "HTTP/1.1" ++ crlf))))

-- A header line, without its CRLF.
abbrev pub header_text : Bytes × Bytes → Bytes
header_text (name, value) = name ++ (b':' ∷ b' ' ∷ value)

-- Header lines, each with its CRLF.
abbrev pub headers_text : List (Bytes × Bytes) → Bytes
headers_text [] = []
headers_text (h ∷ hs) = header_text h ++ (crlf ++ headers_text hs)

-- What the map holds after the headers are inserted in order.
unfoldable pub stored : List (Bytes × Bytes) → StringMap → StringMap
stored [] m = m
stored ((name, value) ∷ hs) m = stored hs (insert (to_lower name) value m)
