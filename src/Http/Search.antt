-- ===== src/Http/Search.antt =====
-- src/http_server.c, find_bytes and multipart_data_start. A pointer into a text is its offset.
use ps5torrent.Base.{
  ℕ, suc, ◌+◌, ◌≤◌, ◌<◌, ◌≡◌, ap, sym, ◌∙◌, ◌++◌, true, false, ◌||◌, Option, none, some, [], ◌∷◌,
  Bytes, length, take, drop, ltb, ◌==◌, if◌then◌else◌, if_cases, ltb→lt, bytes_eq, bytes_eq→eq,
  bytes_eq_refl, take-append-drop, take-append_length, length-append, arith,
}
use mathlib.Core.Option

-- The loop at offset `i`, with the text from there on.
unfoldable pub find_from : Bytes → ℕ → Bytes → Option ℕ
find_from needle i [] = none
find_from needle i (c ∷ r) =
    let rest = find_from needle (i + 1) r in
    if ltb (length (c ∷ r)) (length needle)
    then none
    else if bytes_eq (take (length needle) (c ∷ r)) needle
    then some i
    else rest

unfoldable pub find_bytes : Bytes → Bytes → Option ℕ
unfolding find_from
find_bytes haystack needle =
    if length needle == 0 || ltb (length haystack) (length needle)
    then none
    else find_from needle 0 haystack

unfoldable pub multipart_data_start : Bytes → Option ℕ
unfolding find_bytes
multipart_data_start field = elim (find_bytes field (13 ∷ 10 ∷ 13 ∷ 10 ∷ [])) [
  | some i ↦ some (i + 4)
  | none ↦ Option.map (λ i. i + 2) (find_bytes field (10 ∷ 10 ∷ []))
]

-- The needle stands behind `before`.
abbrev pub Occurs : Bytes → Bytes → Bytes → Type 0
Occurs haystack needle before = (after : Bytes) × (haystack ≡ before ++ (needle ++ after))

-- The offset, counted from `i`, of the first place where the needle stands.
abbrev pub FirstAt : ℕ → Bytes → Bytes → Option ℕ → Type 0
FirstAt i haystack needle none = (before : Bytes) → ¬ Occurs haystack needle before
FirstAt i haystack needle (some j) =
    (before : Bytes) × (j ≡ i + length before)
    × Occurs haystack needle before
    × ((earlier : Bytes) → Occurs haystack needle earlier → length before ≤ length earlier)

too_short :
    (haystack needle before : Bytes)
    → length haystack < length needle
    → ¬ Occurs haystack needle before
too_short haystack needle before h (after, e) = absurd (
    omega
      (arith, h, ap length e, length-append before (needle ++ after), length-append needle after))

later_place :
    (c b : ℕ) (r needle before : Bytes)
    → Occurs (c ∷ r) needle (b ∷ before)
    → Occurs r needle before
later_place c b r needle before (after, e) = (after, ap (drop 1) e)

-- One place further on.
none_next :
    (i c : ℕ) (r needle : Bytes)
    → ¬ Occurs (c ∷ r) needle []
    → FirstAt (i + 1) r needle none
    → FirstAt i (c ∷ r) needle none
none_next i c r needle never f [] o = never o
none_next i c r needle never f (b ∷ before) o = f before (later_place c b r needle before o)

first_next :
    (c : ℕ) (r needle before : Bytes)
    → ¬ Occurs (c ∷ r) needle []
    → ((earlier : Bytes) → Occurs r needle earlier → length before ≤ length earlier)
    → (earlier : Bytes) → Occurs (c ∷ r) needle earlier
    → suc (length before) ≤ length earlier
first_next c r needle before never first [] o = absurd (never o)
first_next c r needle before never first (b ∷ earlier) o =
    omega (arith, first earlier (later_place c b r needle earlier o))

FirstAt-next :
    (i c : ℕ) (r needle : Bytes) (o : Option ℕ)
    → ¬ Occurs (c ∷ r) needle []
    → FirstAt (i + 1) r needle o
    → FirstAt i (c ∷ r) needle o
FirstAt-next i c r needle none never f = none_next i c r needle never f
FirstAt-next i c r needle (some j) never (before, l, (after, e), first) = (
  c ∷ before,
  omega (arith, l),
  (after, ap (λ t. c ∷ t) e),
  first_next c r needle before never first,
)

not_here :
    (haystack needle : Bytes)
    → bytes_eq (take (length needle) haystack) needle ≡ false
    → ¬ Occurs haystack needle []
not_here haystack needle t (after, e) =
    let same : take (length needle) haystack ≡ needle =
      ap (take (length needle)) e ∙ take-append_length needle after in
    let equal : bytes_eq (take (length needle) haystack) needle ≡ true =
      ap (λ x. bytes_eq x needle) same ∙ bytes_eq_refl needle in
    cc

pub find_from_lem :
    (needle : Bytes) (i : ℕ) (haystack : Bytes)
    → 0 < length needle
    → FirstAt i haystack needle (find_from needle i haystack)
unfolding find_from
find_from_lem needle i [] n = λ before. too_short [] needle before n
find_from_lem needle i (c ∷ r) n =
    if_cases (FirstAt i (c ∷ r) needle) (ltb (length (c ∷ r)) (length needle))
      (λ e before. too_short (c ∷ r) needle before (ltb→lt (length (c ∷ r)) (length needle) e))
      (λ _.
        if_cases (FirstAt i (c ∷ r) needle) (bytes_eq (take (length needle) (c ∷ r)) needle)
          (λ t.
            let same = bytes_eq→eq (take (length needle) (c ∷ r)) needle t in
            (
              [],
              omega arith,
              (
                drop (length needle) (c ∷ r),
                sym (take-append-drop (length needle) (c ∷ r))
                    ∙ ap (λ x. x ++ drop (length needle) (c ∷ r)) same,
              ),
              λ earlier _. omega arith,
            ))
          (λ t.
            FirstAt-next i c r needle (find_from needle (i + 1) r) (not_here (c ∷ r) needle t)
              (find_from_lem needle (i + 1) r n)))

-- find_bytes finds the first place where the needle stands, if the needle is not empty, and nothing
-- only where it stands nowhere.
pub find_bytes-FirstAt :
    (haystack needle : Bytes)
    → 0 < length needle
    → FirstAt 0 haystack needle (find_bytes haystack needle)
unfolding find_bytes
find_bytes-FirstAt haystack needle n =
    if_cases (FirstAt 0 haystack needle)
      (length needle == 0 || ltb (length haystack) (length needle))
      (λ e before. too_short haystack needle before (ground arith))
      (λ _. find_from_lem needle 0 haystack n)
