-- ===== src/Json/Escape.antt =====
-- src/console_files.c, escape, and src/main.c, json_escape_text.
use ps5torrent.Base.{
  ℕ, ◌+◌, ◌/◌, ◌%◌, Bool, ◌||◌, [], ◌∷◌, ◌++◌, Bytes, length, ltb, leb, ◌==◌, if◌then◌else◌,
}
use ps5torrent.Net.Url.{hex}

abbrev pub is_special : ℕ → Bool
is_special c = c == b'"' || c == 92

-- What a byte becomes.
unfoldable pub escaped : ℕ → Bytes
escaped c =
    if is_special c
    then 92 ∷ c ∷ []
    else if ltb c 32
    then 92 ∷ b'u' ∷ b'0' ∷ b'0' ∷ hex (c / 16) ∷ hex (c % 16) ∷ []
    else c ∷ []

-- escape of console_files.c, which has no bound on its output.
unfoldable pub escape : Bytes → Bytes
unfolding escaped
escape [] = []
escape (c ∷ r) = escaped c ++ escape r

-- The loop of json_escape_text, with the output so far.
unfoldable pub escape_from : ℕ → Bytes → Bytes → Bytes
unfolding escaped
escape_from output_size output [] = output
escape_from output_size output (c ∷ r) =
    let pos = length output in
    let next = escape_from output_size (output ++ escaped c) r in
    if leb output_size (pos + 1)
    then output
    else if is_special c
    then if leb output_size (pos + 2) then output else next
    else if ltb c 32
    then if leb output_size (pos + 6) then output else next
    else next

-- json_escape_text with an output that is not null and not empty.
unfoldable pub json_escape_text : ℕ → Bytes → Bytes
unfolding escape_from
json_escape_text output_size input = escape_from output_size [] input
