-- ===== src/Json/Bounded.antt =====
-- src/main.c, json_escape_text: what fits the buffer.
use ps5torrent.Base.{
  ℕ, ◌+◌, ◌<◌, ◌≤◌, ◌≡◌, refl, ap, sym, ◌∙◌, ◌⊎◌, inl, inr, true, false, [], ◌∷◌, ◌++◌, Bytes,
  length, length-append, append_assoc, append-nil, ltb, leb, arith, if_cases,
}
use ps5torrent.Json.Escape.{is_special, escaped, escape, escape_from, json_escape_text}

-- The output is the escaped form of a part of the input from its start, it fits, and it is the
-- whole of the input unless at most six bytes are left.
pub record Fits (size : ℕ) (start input out : Bytes) : Type 0 where
  pub front : Bytes
  pub back : Bytes
  pub parts : input ≡ front ++ back
  pub escapes : out ≡ start ++ escape front
  pub inside : length out < size
  pub reaches : (back ≡ []) ⊎ (size ≤ length out + 6)

stopped :
    (size : ℕ) (start input : Bytes)
    → length start < size
    → size ≤ length start + 6
    → Fits size start input start
unfolding escape
stopped size start input h full = record {
  front = [];
  back = input;
  parts = refl;
  escapes = sym (append-nil start);
  inside = h;
  reaches = inr full;
}

one_byte :
    (size c : ℕ) (start r out : Bytes)
    → Fits size (start ++ escaped c) r out
    → Fits size start (c ∷ r) out
unfolding escape
one_byte size c start r out f = record {
  front = c ∷ f.front;
  back = f.back;
  parts = ap (λ t. c ∷ t) f.parts;
  escapes = f.escapes ∙ append_assoc start (escaped c) (escape f.front);
  inside = f.inside;
  reaches = f.reaches;
}

length-escaped_special : (c : ℕ) → is_special c ≡ true → length (escaped c) ≡ 2
unfolding escaped
length-escaped_special c h = rw h refl

length-escaped_control : (c : ℕ) → is_special c ≡ false → ltb c 32 ≡ true → length (escaped c) ≡ 6
unfolding escaped
length-escaped_control c h k = rw (h, k) refl

length-escaped_plain : (c : ℕ) → is_special c ≡ false → ltb c 32 ≡ false → length (escaped c) ≡ 1
unfolding escaped
length-escaped_plain c h k = rw (h, k) refl

escape_from-Fits :
    (size : ℕ) (start input : Bytes)
    → length start < size
    → Fits size start input (escape_from size start input)
unfolding escape_from escape
escape_from-Fits size start [] h = record {
  front = [];
  back = [];
  parts = refl;
  escapes = sym (append-nil start);
  inside = h;
  reaches = inl refl;
}
escape_from-Fits size start (c ∷ r) h =
    let Good = Fits size start (c ∷ r) in
    let l = length-append start (escaped c) in
    let go_on : length start + length (escaped c) < size
        → Good (escape_from size (start ++ escaped c) r) =
      λ room.
        one_byte size c start r _
          (escape_from-Fits size (start ++ escaped c) r (omega (arith, l, room))) in
    if_cases Good (leb size (length start + 1)) (λ e. stopped size start (c ∷ r) h (ground arith))
      (λ a.
        if_cases Good (is_special c)
          (λ s.
            if_cases Good (leb size (length start + 2))
              (λ e. stopped size start (c ∷ r) h (ground arith))
              (λ b. go_on (ground (arith, length-escaped_special c s))))
          (λ s.
            if_cases Good (ltb c 32)
              (λ low.
                if_cases Good (leb size (length start + 6))
                  (λ e. stopped size start (c ∷ r) h (ground arith))
                  (λ b. go_on (ground (arith, length-escaped_control c s low))))
              (λ high. go_on (ground (arith, length-escaped_plain c s high)))))

-- json_escape_text stays inside its buffer, the closing zero included, and writes the escaped form of
-- a start of the input: of the whole input, unless at most six bytes of the buffer are left.
pub json_escape_text-Fits :
    (size : ℕ) (input : Bytes) → 0 < size → Fits size [] input (json_escape_text size input)
unfolding json_escape_text
json_escape_text-Fits size input h = escape_from-Fits size [] input h
