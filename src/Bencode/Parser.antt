-- ===== src/Bencode/Parser.antt =====
-- src/bencode.c: the recursive-descent parser. `malloc` says of each size whether its allocation
-- succeeds; the allocator is not code of the repository.
use ps5torrent.Base.{
  ℕ, zero, suc, ◌+◌, ◌-◌, ◌*◌, ◌%◌, ◌^◌, Bool, true, false, Option, none, some, [], ◌∷◌, Bytes,
  length, take, drop, leb, ltb, ◌==◌, if◌then◌else◌,
}
use ps5torrent.Base.Decimal.{is_digit, scan_digits}
use ps5torrent.Base.Outcome.{Outcome, ok, null, fault, out_of_fuel, ◌>>=◌}
use ps5torrent.Bencode.Node.{
  Node, Items, Fields, str, int, list, dict, no_items, no_fields, add_item, add_field,
}

-- parse_state_t: `rest` is the input from `pos` on, so `len` is `pos + length rest`.
pub record ParseState : Type 0 where
  pub pos : ℕ
  pub rest : Bytes

abbrev pub at : ℕ → Bytes → ParseState
at pos rest = record { pos = pos; rest = rest }

unfoldable pub parse_peek : ParseState → Option ℕ
parse_peek st = elim st.rest [ [] ↦ none | c ∷ r ↦ some c ]

unfoldable pub parse_advance : ParseState → Option ℕ × ParseState
parse_advance st = elim st.rest [ [] ↦ (none, st) | c ∷ r ↦ (some c, at (st.pos + 1) r) ]

abbrev pub is_byte : ℕ → Option ℕ → Bool
is_byte c none = false
is_byte c (some d) = d == c

-- The last test of parse_integer: without the closing `e` the value is 0.
unfoldable pub integer_close : Bool → ℕ → ℕ → Bytes → ℕ × ParseState
integer_close neg val pos [] = (0, at pos [])
integer_close neg val pos (c ∷ r) =
    if c == b'e'
    then (if neg then (2 ^ 64 - val) % 2 ^ 64 else val, at (pos + 1) r)
    else (0, at pos (c ∷ r))

unfoldable pub integer_digits : Bool → ℕ → Bytes → ℕ × ParseState
unfolding integer_close scan_digits
integer_digits neg pos r = let s = scan_digits 0 pos r in integer_close neg s.val s.pos s.rest

unfoldable pub integer_sign : ℕ → Bytes → ℕ × ParseState
unfolding integer_digits
integer_sign pos [] = (0, at pos [])
integer_sign pos (c ∷ r) =
    if c == b'-' then integer_digits true (pos + 1) r else integer_digits false pos (c ∷ r)

-- parse_integer: signed overflow, which C leaves undefined, wraps here in two's complement.
unfoldable pub parse_integer : ParseState → ℕ × ParseState
unfolding integer_sign parse_advance
parse_integer st =
    let (c, st') = parse_advance st in
    if is_byte b'i' c then integer_sign st'.pos st'.rest else (0, st')

module _ (malloc : ℕ → Bool) where
  -- The copy reads `slen` bytes from `pos` on; behind the input's end that is a fault.
  unfoldable pub string_copy : ℕ → ℕ → Bytes → Outcome (Bytes × ParseState)
  string_copy slen pos r =
      if ltb (pos + length r) ((pos + slen) % 2 ^ 64)
      then null
      else if malloc slen
      then if leb slen (length r) then ok (take slen r, at (pos + slen) (drop slen r)) else fault
      else null

  unfoldable pub string_colon : ℕ → ℕ → Bytes → Outcome (Bytes × ParseState)
  unfolding string_copy
  string_colon slen pos [] = null
  string_colon slen pos (c ∷ r) = if c == b':' then string_copy slen (pos + 1) r else null

  unfoldable pub parse_string : ParseState → Outcome (Bytes × ParseState)
  unfolding string_colon scan_digits
  parse_string st = let s = scan_digits 0 st.pos st.rest in string_colon s.val s.pos s.rest

-- sizeof(bcode_node_t) on a 64-bit target.
abbrev pub node_size : ℕ
node_size = 72

-- The test that ends the loops over children.
abbrev pub at_end : Bytes → Bool
at_end [] = true
at_end (c ∷ r) = c == b'e'

abbrev pub close {ℓ} : {A : Type ℓ} → A → ParseState → Outcome (A × ParseState)
close a st = elim st.rest [ [] ↦ null | c ∷ r ↦ ok (a, at (st.pos + 1) r) ]

module _ (malloc : ℕ → Bool) where
  -- Each call costs a unit of fuel.
  unfoldable mutual
    pub parse_value : ℕ → ParseState → Outcome (Node × ParseState)
    parse_value zero st = out_of_fuel
    parse_value (suc f) st = elim (parse_peek st) [
      | none ↦ null
      | some c ↦
          let integer = let (v, st') = parse_integer st in ok (int v, st') in
          let string = parse_string malloc st >>= λ (s, st'). ok (str s, st') in
          let items =
            let (c', st') = parse_advance st in
            if is_byte b'l' c' then parse_items f no_items 0 st' else null in
          let fields =
            let (c', st') = parse_advance st in
            if is_byte b'd' c' then parse_fields f no_fields 0 st' else null in
          if c == b'i'
          then if malloc node_size then integer else null
          else if is_digit c
          then if malloc node_size then string else null
          else if c == b'l'
          then if malloc node_size then items else null
          else if c == b'd'
          then if malloc node_size then fields else null
          else null
    ]

    -- The loop of parse_list, with the children so far and the capacity of their array.
    pub parse_items : ℕ → Items → ℕ → ParseState → Outcome (Node × ParseState)
    parse_items zero children cap st = out_of_fuel
    parse_items (suc f) children cap st =
        let more = parse_value f st >>= λ (child, st').
        let (children', cap') = add_item malloc children cap child in
        parse_items f children' cap' st' in
        if at_end st.rest then close (list children) st else more

    -- The loop of parse_dict.
    pub parse_fields : ℕ → Fields → ℕ → ParseState → Outcome (Node × ParseState)
    parse_fields zero children cap st = out_of_fuel
    parse_fields (suc f) children cap st =
        let more = parse_string malloc st >>= λ (key, st'). parse_value f st' >>= λ (val, st'').
        let (children', cap') = add_field malloc children cap key val in
        parse_fields f children' cap' st'' in
        if at_end st.rest then close (dict children) st else if malloc node_size then more else null

  -- bcode_parse: what follows the first value is ignored.
  unfoldable pub bcode_parse : Bytes → Outcome Node
  unfolding parse_value parse_peek parse_advance parse_integer parse_string add_item add_field
  bcode_parse [] = null
  bcode_parse (c ∷ r) =
      parse_value (2 * length (c ∷ r) + 1) (at 0 (c ∷ r)) >>= λ (node, st). ok node
