-- ===== src/Bencode/Tests.antt =====
-- Runs of the bencode parser and encoder, and the theorems at concrete inputs.
use ps5torrent.Base.{
  ◌-◌, ◌==◌, ◌^◌, ◌≡◌, ◌≢◌, ◌↔◌, refl, Bytes, codes, arith, [], ◌∷◌, ◌++◌, some, Grants,
}
use ps5torrent.Base.Decimal.{print_u64, print_i64}
use ps5torrent.Base.Outcome.{ok, null, fault, out_of_fuel, Runs}
use ps5torrent.Base.Samples.{roomy, roomy-Grants, roomy-Bounded}
use ps5torrent.Bencode.Node.{
  Node, Items, Fields, str, int, list, dict, no_items, item, no_fields, field, dict_get,
}
use ps5torrent.Bencode.Emit.{emit, IsWord}
use ps5torrent.Bencode.Parser.{bcode_parse}
use ps5torrent.Bencode.Encoder.{bcode_encode}
use ps5torrent.Bencode.Encoding.{bcode_encode-emit}
use ps5torrent.Bencode.Parsing.{bcode_parse_safe}
use ps5torrent.Bencode.RoundTrip.{bcode_parse-emit}
use ps5torrent.Bencode.Lookup.{FirstAt, dict_get_iff}
use ps5torrent.Bencode.Lenient.{bcode_parse_malformed, bcode_parse_leading_zero}

abbrev numbers : Items
numbers = item (int 3) (item (int (2 ^ 64 - 12)) no_items)

abbrev entries : Fields
entries = field (codes "name") (str (codes "ps5")) (field (codes "nums") (list numbers) no_fields)

abbrev sample : Node
sample = dict entries

abbrev text : Bytes
text = codes "d4:name3:ps54:numsli3ei-12eee"

emit-sample : emit sample ≡ text
unfolding emit print_u64 print_i64
emit-sample = refl

bcode_encode-sample : bcode_encode roomy sample ≡ ok text
unfolding bcode_encode
bcode_encode-sample = refl

bcode_parse-sample : bcode_parse roomy text ≡ ok sample
unfolding bcode_parse
bcode_parse-sample = refl

-- The string length reaches behind the input, also where the sum wraps around.
parse_overrun :
    (bcode_parse roomy (codes "5:ab") ≡ null)
    × (bcode_parse roomy (codes "18446744073709551615:ab") ≡ null)
unfolding bcode_parse
parse_overrun = (refl, refl)

-- A node whose array cannot grow loses the child, and the parse goes on.
parse_no_memory : bcode_parse (λ n. n == 72) (codes "li1ee") ≡ ok (list no_items)
unfolding bcode_parse
parse_no_memory = refl

sample-IsWord : IsWord sample
unfolding IsWord
sample-IsWord = omega arith

bcode_parse-emit_example : bcode_parse roomy (emit sample ++ codes "junk") ≡ ok sample
unfolding emit print_u64 print_i64
bcode_parse-emit_example =
    bcode_parse-emit roomy roomy-Grants sample (codes "junk") sample-IsWord (omega arith)

bcode_parse_safe_example : (bcode_parse roomy text ≢ fault) × (bcode_parse roomy text ≢ out_of_fuel)
bcode_parse_safe_example = bcode_parse_safe roomy roomy-Bounded text (omega arith)

bcode_encode-emit_example :
    Runs (Grants roomy) (λ out. out ≡ emit sample) (bcode_encode roomy sample)
unfolding emit print_u64 print_i64
bcode_encode-emit_example = bcode_encode-emit roomy sample (omega arith)

dict_get_iff_example :
    (dict_get (dict entries) (codes "name") ≡ some (str (codes "ps5")))
    ↔ FirstAt entries (codes "name") (str (codes "ps5"))
dict_get_iff_example = dict_get_iff entries (codes "name") (str (codes "ps5"))

bcode_parse_malformed_example : bcode_parse roomy (codes "ixyz") ≡ ok (int 0)
bcode_parse_malformed_example =
    bcode_parse_malformed roomy roomy-Grants b'x' (codes "yz") (refl) (omega arith) (omega arith)

bcode_parse_leading_zero_example :
    (bcode_parse roomy (b'i' ∷ b'0' ∷ (print_u64 7 ++ b'e' ∷ [])) ≡ ok (int 7))
    × (emit (int 7) ≢ b'i' ∷ b'0' ∷ (print_u64 7 ++ b'e' ∷ []))
bcode_parse_leading_zero_example = bcode_parse_leading_zero roomy roomy-Grants 7 (omega arith)
