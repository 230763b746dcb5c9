-- ===== src/Text/Quote.antt =====
-- `strconv.Quote` (`%q`) on ASCII text. A byte above 127 is passed on, which Go does for printable
-- characters only.
use router_docker.Prelude.{
  ℕ, ◌+◌, ◌/◌, ◌%◌, ◌≡◌, refl, [], ◌∷◌, ◌++◌, ltb, ◌==◌, if◌then◌else◌, false, ◌||◌, arith,
}
use router_docker.Text.{Bytes, codes}
use router_docker.Text.Lines.{lacks, IsLine, lacks-append}

hex_lower : ℕ → ℕ
hex_lower d = if ltb d 10 then 48 + d else 87 + d

unfoldable pub quote_byte : ℕ → Bytes
unfolding hex_lower
quote_byte c =
    if c == b'"' || c == b'\\'
    then b'\\' ∷ c ∷ []
    else if c == 7
    then codes "\\a"
    else if c == 8
    then codes "\\b"
    else if c == 12
    then codes "\\f"
    else if c == 10
    then codes "\\n"
    else if c == 13
    then codes "\\r"
    else if c == 9
    then codes "\\t"
    else if c == 11
    then codes "\\v"
    else if ltb c 32 || c == 127
    then codes "\\x" ++ (hex_lower (c / 16) ∷ hex_lower (c % 16) ∷ [])
    else c ∷ []

quote_rest : Bytes → Bytes
unfolding quote_byte
quote_rest [] = b'"' ∷ []
quote_rest (c ∷ s) = quote_byte c ++ quote_rest s

unfoldable pub quote : Bytes → Bytes
unfolding quote_rest
quote s = b'"' ∷ quote_rest s

quote_runs : quote (codes "a\"\n") ≡ codes "\"a\\\"\\n\""
unfolding quote
quote_runs = refl

hex_lower-no_newline : (d : ℕ) → (hex_lower d == b'\n') ≡ false
unfolding hex_lower
hex_lower-no_newline d = ground arith

quote_byte-IsLine : (c : ℕ) → IsLine (quote_byte c)
unfolding quote_byte lacks
quote_byte-IsLine c = ground (arith, hex_lower-no_newline (c / 16), hex_lower-no_newline (c % 16))

quote_rest-IsLine : (s : Bytes) → IsLine (quote_rest s)
unfolding quote_rest lacks
quote_rest-IsLine [] = refl
quote_rest-IsLine (c ∷ s) =
    lacks-append b'\n' (quote_byte c) (quote_rest s) (quote_byte-IsLine c) (quote_rest-IsLine s)

-- a quoted text has no newline, whatever the text has
pub quote-IsLine : (s : Bytes) → IsLine (quote s)
unfolding quote lacks
quote-IsLine s = quote_rest-IsLine s
