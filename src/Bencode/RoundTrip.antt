-- ===== src/Bencode/RoundTrip.antt =====
-- src/bencode.c: the parser reads back what the encoder writes.
use ps5torrent.Base.{
  ℕ, zero, suc, ◌+◌, ◌*◌, ◌^◌, ◌≤◌, ◌<◌, ◌≡◌, refl, ap, ap₂, ◌∙◌, Bool, true, false, [], ◌∷◌, ◌++◌,
  append_assoc, Bytes, length, length-append, leb, ◌==◌, arith, Bool-cases, inl, inr, Grants,
}
use ps5torrent.Base.Decimal.{is_digit, print_u64, print_i64, print_u64_head}
use ps5torrent.Base.Outcome.{ok, ◌>>=◌}
use ps5torrent.Bencode.Node.{
  Node, Items, Fields, str, int, list, dict, no_items, item, no_fields, field, add_item, add_field,
  count_items, count_fields, append_items, append_fields, grown_cap,
}
use ps5torrent.Bencode.Emit.{
  emit, emit_items, emit_fields, emit_string, IsWord, AreWords, AreWordFields, append_items_assoc,
  append_items_none, append_fields_assoc, append_fields_none,
}
use ps5torrent.Bencode.Parser.{
  ParseState, at, parse_peek, parse_advance, parse_string, node_size, at_end, parse_value,
  parse_items, parse_fields, bcode_parse,
}
use ps5torrent.Bencode.Scalars.{parse_string-emit, parse_integer-print}

count_items-append :
    (xs : Items) (v : Node) → count_items (append_items xs (item v no_items)) ≡ suc (count_items xs)
count_items-append no_items v = refl
count_items-append (item w xs) v = ap suc (count_items-append xs v)

count_fields-append :
    (fs : Fields) (k : Bytes) (v : Node)
    → count_fields (append_fields fs (field k v no_fields)) ≡ suc (count_fields fs)
count_fields-append no_fields k v = refl
count_fields-append (field j w fs) k v = ap suc (count_fields-append fs k v)

at_end-digits : (n : ℕ) (rest : Bytes) → at_end (print_u64 n ++ rest) ≡ false
at_end-digits n rest = let (c, r, e, d) = print_u64_head n in rw e (ground arith)

at_end-string : (s rest : Bytes) → at_end (emit_string s ++ rest) ≡ false
at_end-string s rest =
    rw (append_assoc (print_u64 (length s)) (b':' ∷ s) rest) (at_end-digits (length s) _)

at_end-emit : (v : Node) (rest : Bytes) → at_end (emit v ++ rest) ≡ false
unfolding emit
at_end-emit (str s) rest = at_end-string s rest
at_end-emit _ rest = refl

length-emit_pos : (v : Node) → 0 < length (emit v)
unfolding emit
length-emit_pos (str s) = omega (arith, length-append (print_u64 (length s)) (b':' ∷ s))
length-emit_pos _ = omega arith

module _ (malloc : ℕ → Bool) (grants : Grants malloc) where
  add_item_lem :
      (children : Items) (cap : ℕ) (child : Node)
      → cap ≤ 2 * count_items children + 8
      → count_items children < 2 ^ 56
      → ((add_item malloc children cap child).0 ≡ append_items children (item child no_items))
        × ((add_item malloc children cap child).1 ≤ 2 * count_items children + 10)
  unfolding add_item
  add_item_lem children cap child room small =
      let granted : malloc (grown_cap cap * 8) ≡ true = grants _ (ground arith) in
      elim (Bool-cases (leb cap (count_items children))) [
        | inl full ↦ rw (full, granted) (refl, ground arith)
        | inr free ↦ rw free (refl, omega arith)
      ]

  add_field_lem :
      (children : Fields) (cap : ℕ) (key : Bytes) (child : Node)
      → cap ≤ 2 * count_fields children + 8
      → count_fields children < 2 ^ 56
      → ((add_field malloc children cap key child).0
          ≡ append_fields children (field key child no_fields))
        × ((add_field malloc children cap key child).1 ≤ 2 * count_fields children + 10)
  unfolding add_field
  add_field_lem children cap key child room small =
      let granted : malloc (grown_cap cap * 8) ≡ true = grants _ (ground arith) in
      elim (Bool-cases (leb cap (count_fields children))) [
        | inl full ↦ rw (full, granted) (refl, ground arith)
        | inr free ↦ rw free (refl, omega arith)
      ]

  parse_value_digit :
      (f pos : ℕ) (xs rest : Bytes)
      → (c : ℕ) × (r : Bytes) × (xs ≡ c ∷ r) × (is_digit c ≡ true)
      → parse_value malloc (suc f) (at pos (xs ++ rest))
        ≡ (parse_string malloc (at pos (xs ++ rest)) >>= λ (s, st'). ok (str s, st'))
  unfolding parse_value parse_peek
  parse_value_digit f pos xs rest (c, r, e, d) =
      let granted : malloc node_size ≡ true = grants node_size (omega arith) in
      let not_i : (c == b'i') ≡ false = ground arith in rw (e, not_i, d, granted)

  mutual
    unfolding parse_value parse_peek parse_advance emit IsWord

    parse_value_lem :
        (v : Node) (f pos : ℕ) (rest : Bytes)
        → IsWord v
        → 2 * length (emit v) < f
        → pos + length (emit v ++ rest) < 2 ^ 56
        → parse_value malloc f (at pos (emit v ++ rest)) ≡ ok (v, at (pos + length (emit v)) rest)
    parse_value_lem v zero pos rest w h small = absurd (omega arith)
    parse_value_lem (str s) (suc f) pos rest w h small =
        rw (append_assoc (print_u64 (length s)) (b':' ∷ s) rest) (
          parse_value_digit f pos (print_u64 (length s)) (b':' ∷ s ++ rest)
            (print_u64_head (length s))
          ∙ rw (← append_assoc (print_u64 (length s)) (b':' ∷ s) rest)
              (rw (parse_string-emit malloc grants s rest pos (omega arith))))
    parse_value_lem (int v) (suc f) pos rest w h small =
        let k : pos + length (print_i64 v) + 2 ≡ pos + suc (length (print_i64 v ++ b'e' ∷ [])) =
          omega (arith, length-append (print_i64 v) (b'e' ∷ [])) in
        rw (
          grants node_size (omega arith),
          append_assoc (print_i64 v) (b'e' ∷ []) rest,
          parse_integer-print v pos rest w,
          k,
        )
    parse_value_lem (list xs) (suc f) pos rest w h small =
        let l = length-append (emit_items xs) (b'e' ∷ []) in
        let l' = length-append (emit_items xs ++ b'e' ∷ []) rest in
        let l'' = length-append (emit_items xs) (b'e' ∷ rest) in
        let k : pos + 1 + length (emit_items xs) + 1
            ≡ pos + suc (length (emit_items xs ++ b'e' ∷ [])) =
          omega (arith, l) in
        rw (grants node_size (omega arith), append_assoc (emit_items xs) (b'e' ∷ []) rest)
          (parse_items_lem xs f no_items 0 (pos + 1) rest w (omega (arith, l))
              (omega (arith, l, l', l'')) (omega arith) (omega arith)
            ∙ ap (λ p. ok (list xs, at p rest)) k)
    parse_value_lem (dict fs) (suc f) pos rest w h small =
        let l = length-append (emit_fields fs) (b'e' ∷ []) in
        let l' = length-append (emit_fields fs ++ b'e' ∷ []) rest in
        let l'' = length-append (emit_fields fs) (b'e' ∷ rest) in
        let k : pos + 1 + length (emit_fields fs) + 1
            ≡ pos + suc (length (emit_fields fs ++ b'e' ∷ [])) =
          omega (arith, l) in
        rw (grants node_size (omega arith), append_assoc (emit_fields fs) (b'e' ∷ []) rest)
          (parse_fields_lem fs f no_fields 0 (pos + 1) rest w (omega (arith, l))
              (omega (arith, l, l', l'')) (omega arith) (omega arith)
            ∙ ap (λ p. ok (dict fs, at p rest)) k)

    parse_items_lem :
        (xs : Items) (f : ℕ) (children : Items) (cap pos : ℕ) (rest : Bytes)
        → AreWords xs
        → 2 * length (emit_items xs) + 1 < f
        → pos + length (emit_items xs ++ b'e' ∷ rest) < 2 ^ 56
        → cap ≤ 2 * count_items children + 8
        → count_items children ≤ pos
        → parse_items malloc f children cap (at pos (emit_items xs ++ b'e' ∷ rest))
          ≡ ok (list (append_items children xs), at (pos + length (emit_items xs) + 1) rest)
    parse_items_lem xs zero children cap pos rest w h small room few = absurd (omega arith)
    parse_items_lem no_items (suc f) children cap pos rest w h small room few =
        let k : pos + 1 ≡ pos + 0 + 1 = omega arith in rw (append_items_none children, k)
    parse_items_lem (item v xs) (suc f) children cap pos rest w h small room few =
        let tail = emit_items xs ++ b'e' ∷ rest in
        let a = append_assoc (emit v) (emit_items xs) (b'e' ∷ rest) in
        let l = length-append (emit v) (emit_items xs) in
        let l' = length-append (emit v ++ emit_items xs) (b'e' ∷ rest) in
        let lt = length-append (emit_items xs) (b'e' ∷ rest) in
        let lv = length-append (emit v) tail in
        let p = length-emit_pos v in
        let k : pos + length (emit v) + length (emit_items xs) + 1
            ≡ pos + length (emit v ++ emit_items xs) + 1 =
          omega (arith, l) in
        let (added, room') = add_item_lem children cap v room (omega (arith, l')) in
        let n = count_items-append children v in
        rw
          (
            a,
            at_end-emit v tail,
            parse_value_lem v f pos tail w.0 (omega (arith, l, p)) (omega (arith, l, l', lt, lv)),
            added,
          )
          (parse_items_lem xs f (append_items children (item v no_items))
              (add_item malloc children cap v).1 (pos + length (emit v)) rest w.1
              (omega (arith, l, p)) (omega (arith, l, l', lt)) (omega (arith, n, room'))
              (omega (arith, n, p))
            ∙ ap₂ (λ t q. ok (list t, at q rest)) (append_items_assoc children (item v no_items) xs)
                k)

    parse_fields_lem :
        (fs : Fields) (f : ℕ) (children : Fields) (cap pos : ℕ) (rest : Bytes)
        → AreWordFields fs
        → 2 * length (emit_fields fs) + 1 < f
        → pos + length (emit_fields fs ++ b'e' ∷ rest) < 2 ^ 56
        → cap ≤ 2 * count_fields children + 8
        → count_fields children ≤ pos
        → parse_fields malloc f children cap (at pos (emit_fields fs ++ b'e' ∷ rest))
          ≡ ok (dict (append_fields children fs), at (pos + length (emit_fields fs) + 1) rest)
    parse_fields_lem fs zero children cap pos rest w h small room few = absurd (omega arith)
    parse_fields_lem no_fields (suc f) children cap pos rest w h small room few =
        let k : pos + 1 ≡ pos + 0 + 1 = omega arith in rw (append_fields_none children, k)
    parse_fields_lem (field k v fs) (suc f) children cap pos rest w h small room few =
        let body = emit v ++ emit_fields fs in
        let tail = emit_fields fs ++ b'e' ∷ rest in
        let a = append_assoc (emit_string k) body (b'e' ∷ rest) in
        let a' = append_assoc (emit v) (emit_fields fs) (b'e' ∷ rest) in
        let l = length-append (emit_string k) body in
        let lb = length-append (emit v) (emit_fields fs) in
        let l' = length-append (emit_string k ++ body) (b'e' ∷ rest) in
        let lt = length-append (emit_fields fs) (b'e' ∷ rest) in
        let lv = length-append (emit v) tail in
        let lk = length-append (emit_string k) (emit v ++ tail) in
        let p = length-emit_pos v in
        let pos₁ = pos + length (emit_string k) in
        let z : pos₁ + length (emit v) + length (emit_fields fs) + 1
            ≡ pos + length (emit_string k ++ body) + 1 =
          omega (arith, l, lb) in
        let (added, room') = add_field_lem children cap k v room (omega (arith, l')) in
        let n = count_fields-append children k v in
        rw
          (
            a,
            a',
            at_end-string k (emit v ++ tail),
            grants node_size (omega arith),
            parse_string-emit malloc grants k (emit v ++ tail) pos
                (omega (arith, l, lb, l', lt, lv, lk)),
            parse_value_lem v f pos₁ tail w.0 (omega (arith, l, lb, p))
                (omega (arith, l, lb, l', lt, lv)),
            added,
          )
          (parse_fields_lem fs f (append_fields children (field k v no_fields))
              (add_field malloc children cap k v).1 (pos₁ + length (emit v)) rest w.1
              (omega (arith, l, lb, p)) (omega (arith, l, lb, l', lt)) (omega (arith, n, room'))
              (omega (arith, n, p))
            ∙ ap₂ (λ t q. ok (dict t, at q rest))
                (append_fields_assoc children (field k v no_fields) fs) z)

bcode_parse-value :
    (malloc : ℕ → Bool) (xs : Bytes) {v : Node} {st : ParseState}
    → parse_value malloc (2 * length xs + 1) (at 0 xs) ≡ ok (v, st)
    → 0 < length xs
    → bcode_parse malloc xs ≡ ok v
unfolding bcode_parse
bcode_parse-value malloc [] e h = absurd (omega arith)
bcode_parse-value malloc (c ∷ r) e h = rw e

-- For an input of less than 2 ^ 56 bytes, where allocations up to 2 ^ 62 bytes succeed, parsing the
-- bencoded text of a node whose integers are int64_t patterns gives the node; what follows the text
-- is ignored.
pub bcode_parse-emit :
    (malloc : ℕ → Bool)
    → Grants malloc
    → (v : Node) (rest : Bytes) → IsWord v
    → length (emit v ++ rest) < 2 ^ 56
    → bcode_parse malloc (emit v ++ rest) ≡ ok v
bcode_parse-emit malloc grants v rest w small =
    bcode_parse-value malloc (emit v ++ rest)
      (parse_value_lem malloc grants v (2 * length (emit v ++ rest) + 1) 0 rest w
        (omega (arith, length-append (emit v) rest)) (omega arith))
      (omega (arith, length-append (emit v) rest, length-emit_pos v))
