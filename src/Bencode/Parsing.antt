-- ===== src/Bencode/Parsing.antt =====
-- src/bencode.c: for every input the parser ends and reads only inside the input.
use ps5torrent.Base.{
  ℕ, zero, suc, ◌+◌, ◌-◌, ◌*◌, ◌%◌, ◌^◌, ◌≤◌, ◌<◌, ◌≡◌, ◌≢◌, Bool, true, false, [], ◌∷◌, Bytes,
  length, length-drop, leb, ltb, ◌==◌, arith, Bounded,
}
use ps5torrent.Base.Decimal.{is_digit, scan_digits}
use ps5torrent.Base.Outcome.{
  Outcome, fault, out_of_fuel, Ensures, holds, Ensures-null, Runs-if, Runs-map, Runs-bind,
  Runs-ne_fault, Runs-ne_out_of_fuel,
}
use ps5torrent.Bencode.Node.{Items, Fields, list, dict, no_items, no_fields, add_item, add_field}
use ps5torrent.Bencode.Parser.{
  ParseState, at, parse_peek, parse_advance, integer_close, integer_digits, integer_sign,
  parse_integer, string_copy, string_colon, parse_string, node_size, at_end, close, parse_value,
  parse_items, parse_fields, bcode_parse,
}

-- `t` is behind `s` by at least `k` bytes, in the same input.
pub record Ahead (k : ℕ) (s t : ParseState) : Type 0 where
  pub same_end : t.pos + length t.rest ≡ s.pos + length s.rest
  pub shorter : length t.rest + k ≤ length s.rest

scan_digits-Ahead :
    (val pos : ℕ) (r : Bytes)
    → Ahead 0 (at pos r) (at (scan_digits val pos r).pos (scan_digits val pos r).rest)
unfolding scan_digits
scan_digits-Ahead val pos [] = ground arith
scan_digits-Ahead val pos (c ∷ r) =
    ground (arith, scan_digits-Ahead ((val * 10 + (c - b'0')) % 2 ^ 64) (pos + 1) r)

integer_close-Ahead :
    (neg : Bool) (val pos : ℕ) (r : Bytes) → Ahead 0 (at pos r) (integer_close neg val pos r).1
unfolding integer_close
integer_close-Ahead neg val pos [] = ground arith
integer_close-Ahead neg val pos (c ∷ r) = ground arith

Ahead-trans : {k l : ℕ} {s t u : ParseState} → Ahead k s t → Ahead l t u → Ahead (k + l) s u
Ahead-trans h g = omega arith

integer_digits-Ahead :
    (neg : Bool) (pos : ℕ) (r : Bytes) → Ahead 0 (at pos r) (integer_digits neg pos r).1
unfolding integer_digits
integer_digits-Ahead neg pos r =
    let s = scan_digits 0 pos r in
    Ahead-trans (scan_digits-Ahead 0 pos r) (integer_close-Ahead neg s.val s.pos s.rest)

integer_sign-Ahead : (pos : ℕ) (r : Bytes) → Ahead 0 (at pos r) (integer_sign pos r).1
unfolding integer_sign
integer_sign-Ahead pos [] = ground arith
integer_sign-Ahead pos (c ∷ r) =
    ground (arith, integer_digits-Ahead true (pos + 1) r, integer_digits-Ahead false pos (c ∷ r))

-- parse_integer consumes at least its first byte.
parse_integer-Ahead :
    (pos c : ℕ) (r : Bytes) → Ahead 1 (at pos (c ∷ r)) (parse_integer (at pos (c ∷ r))).1
unfolding parse_integer parse_advance
parse_integer-Ahead pos c r = ground (arith, integer_sign-Ahead (pos + 1) r)

-- The run ended, faulted nowhere, and what it returns stands `k` bytes behind its start.
abbrev Reads {ℓ} : {A : Type ℓ} → ℕ → ParseState → Outcome (A × ParseState) → Type ℓ
Reads k st = Ensures (λ r. Ahead k st r.1)

scan_digits_lt : (val pos : ℕ) (r : Bytes) → val < 2 ^ 64 → (scan_digits val pos r).val < 2 ^ 64
unfolding scan_digits
scan_digits_lt val pos [] h = h
scan_digits_lt val pos (c ∷ r) h =
    ground (arith, scan_digits_lt ((val * 10 + (c - b'0')) % 2 ^ 64) (pos + 1) r (omega arith))

close-Reads {ℓ} :
    {A : Type ℓ} (a : A) (pos : ℕ) (r : Bytes) → Reads 1 (at pos r) (close a (at pos r))
close-Reads a pos [] = Ensures-null
close-Reads a pos (c ∷ r) = holds (omega arith)

module _ (malloc : ℕ → Bool) (bounded : Bounded malloc) where
  string_copy-Reads :
      (slen pos : ℕ) (r : Bytes)
      → slen < 2 ^ 64
      → pos + length r < 2 ^ 63
      → Reads 0 (at pos r) (string_copy malloc slen pos r)
  unfolding string_copy
  string_copy-Reads slen pos r h small =
      Runs-if (ltb (pos + length r) ((pos + slen) % 2 ^ 64)) (λ _. Ensures-null)
        λ inside.
          Runs-if (malloc slen)
            (λ granted.
              let fits : slen ≤ length r = ground (arith, bounded slen granted) in
              Runs-if (leb slen (length r))
                (λ _. holds (record {
                  same_end = omega (arith, length-drop slen r);
                  shorter = omega (arith, length-drop slen r);
                }))
                (λ e. absurd (ground arith)))
            (λ _. Ensures-null)

  string_colon-Reads :
      (slen pos : ℕ) (r : Bytes)
      → slen < 2 ^ 64
      → pos + length r < 2 ^ 63
      → Reads 1 (at pos r) (string_colon malloc slen pos r)
  unfolding string_colon
  string_colon-Reads slen pos [] h small = Ensures-null
  string_colon-Reads slen pos (c ∷ r) h small =
      Runs-if (c == b':')
        (λ _. Runs-map (string_copy-Reads slen (pos + 1) r h (omega arith)) λ _ a. omega arith)
        (λ _. Ensures-null)

  parse_string-Reads :
      (pos : ℕ) (r : Bytes)
      → pos + length r < 2 ^ 63
      → Reads 1 (at pos r) (parse_string malloc (at pos r))
  unfolding parse_string
  parse_string-Reads pos r small =
      let s = scan_digits 0 pos r in
      let a = scan_digits-Ahead 0 pos r in
      Runs-map
        (string_colon-Reads s.val s.pos s.rest (scan_digits_lt 0 pos r (omega arith)) (omega arith))
        λ _ b. Ahead-trans a b

  mutual
    unfolding parse_value parse_peek parse_advance

    parse_value-Reads :
        (f pos : ℕ) (r : Bytes)
        → 2 * length r < f
        → pos + length r < 2 ^ 63
        → Reads 1 (at pos r) (parse_value malloc f (at pos r))
    parse_value-Reads zero pos r h small = absurd (omega arith)
    parse_value-Reads (suc f) pos [] h small = Ensures-null
    parse_value-Reads (suc f) pos (c ∷ r) h small =
        Runs-if (c == b'i')
          (λ _.
            Runs-if (malloc node_size) (λ _. holds (parse_integer-Ahead pos c r))
              (λ _. Ensures-null))
          (λ _.
            Runs-if (is_digit c)
              (λ _.
                Runs-if (malloc node_size)
                  (λ _. Runs-bind (parse_string-Reads pos (c ∷ r) small) λ _ a. holds a)
                  (λ _. Ensures-null))
              (λ _.
                Runs-if (c == b'l')
                  (λ _.
                    Runs-if (malloc node_size)
                      (λ _.
                        Runs-if (c == b'l')
                          (λ _.
                            Runs-map
                              (parse_items-Reads f no_items 0 (pos + 1) r (omega arith)
                                (omega arith))
                              λ _ a. omega arith)
                          (λ _. Ensures-null))
                      (λ _. Ensures-null))
                  (λ _.
                    Runs-if (c == b'd')
                      (λ _.
                        Runs-if (malloc node_size)
                          (λ _.
                            Runs-if (c == b'd')
                              (λ _.
                                Runs-map
                                  (parse_fields-Reads f no_fields 0 (pos + 1) r (omega arith)
                                    (omega arith))
                                  λ _ a. omega arith)
                              (λ _. Ensures-null))
                          (λ _. Ensures-null))
                      (λ _. Ensures-null))))

    parse_items-Reads :
        (f : ℕ) (children : Items) (cap pos : ℕ) (r : Bytes)
        → 2 * length r + 1 < f
        → pos + length r < 2 ^ 63
        → Reads 1 (at pos r) (parse_items malloc f children cap (at pos r))
    parse_items-Reads zero children cap pos r h small = absurd (omega arith)
    parse_items-Reads (suc f) children cap pos r h small =
        Runs-if (at_end r) (λ e. close-Reads (list children) pos r)
          λ _. Runs-bind (parse_value-Reads f pos r (omega arith) small) λ (child, st') a.
            let (children', cap') = add_item malloc children cap child in
            Runs-map
              (parse_items-Reads f children' cap' st'.pos st'.rest (omega arith) (omega arith))
              λ _ b. omega arith

    parse_fields-Reads :
        (f : ℕ) (children : Fields) (cap pos : ℕ) (r : Bytes)
        → 2 * length r + 1 < f
        → pos + length r < 2 ^ 63
        → Reads 1 (at pos r) (parse_fields malloc f children cap (at pos r))
    parse_fields-Reads zero children cap pos r h small = absurd (omega arith)
    parse_fields-Reads (suc f) children cap pos r h small =
        Runs-if (at_end r) (λ e. close-Reads (dict children) pos r)
          λ _.
            Runs-if (malloc node_size)
              (λ _. Runs-bind (parse_string-Reads pos r small) λ (key, st') a.
                Runs-bind (parse_value-Reads f st'.pos st'.rest (omega arith) (omega arith))
                  λ (val, st'') b.
                    let (children', cap') = add_field malloc children cap key val in
                    Runs-map
                      (parse_fields-Reads f children' cap' st''.pos st''.rest (omega arith)
                        (omega arith))
                      λ _ d. omega arith)
              (λ _. Ensures-null)

bcode_parse-Ensures :
    (malloc : ℕ → Bool)
    → Bounded malloc
    → (input : Bytes) → length input < 2 ^ 63
    → Ensures (λ _. Unit {0}) (bcode_parse malloc input)
unfolding bcode_parse
bcode_parse-Ensures malloc bounded [] small = Ensures-null
bcode_parse-Ensures malloc bounded (c ∷ r) small =
    Runs-bind
      (parse_value-Reads malloc bounded (2 * length (c ∷ r) + 1) 0 (c ∷ r) (omega arith)
        (omega arith))
      λ _ _. holds tt

-- The parser ends on every input shorter than 2 ^ 63 bytes, with a node or with null, and reads no
-- byte outside the input, if the allocator refuses objects of 2 ^ 63 bytes or more.
pub bcode_parse_safe :
    (malloc : ℕ → Bool)
    → Bounded malloc
    → (input : Bytes) → length input < 2 ^ 63
    → (bcode_parse malloc input ≢ fault) × (bcode_parse malloc input ≢ out_of_fuel)
bcode_parse_safe malloc bounded input small =
    let e : Ensures (λ _. Unit {0}) (bcode_parse malloc input) =
      bcode_parse-Ensures malloc bounded input small in
    (Runs-ne_fault e, Runs-ne_out_of_fuel e)
