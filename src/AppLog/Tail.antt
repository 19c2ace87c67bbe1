-- ===== src/AppLog/Tail.antt =====
-- src/app_log.c, remember: the buffer has the last bytes of everything that was logged.
use ps5torrent.Base.{
  ℕ, ◌+◌, ◌-◌, ◌≤◌, ◌≡◌, ap, sym, ◌∙◌, ◌++◌, List, [], ◌∷◌, Bytes, length, drop, ltb, arith,
  if◌then◌else◌, if_cases, leb, leb→le, ltb→lt, append-nil, length-append, length-drop, drop_within,
  drop_beyond, drop-drop, append_assoc, Bool-cases, inl, inr,
}
use ps5torrent.AppLog.Defs.{log_tail, remember}

-- The last `n` elements.
abbrev pub last : ℕ → Bytes → Bytes
last n xs = drop (length xs - n) xs

last_short : (n : ℕ) (xs : Bytes) → length xs ≤ n → last n xs ≡ xs
last_short n xs h = let e : length xs - n ≡ 0 = omega arith in ap (λ k. drop k xs) e

-- A line is put behind the bytes that are kept.
last-append :
    (n : ℕ) (xs ys : Bytes)
    → length ys ≤ n
    → last n (xs ++ ys) ≡ drop (length xs + length ys - n) xs ++ ys
last-append n xs ys h =
    let e : length (xs ++ ys) - n ≡ length xs + length ys - n =
      omega (arith, length-append xs ys) in
    ap (λ k. drop k (xs ++ ys)) e ∙ drop_within (length xs + length ys - n) xs ys (omega arith)

last-append_long : (n : ℕ) (xs ys : Bytes) → n ≤ length ys → last n (xs ++ ys) ≡ last n ys
last-append_long n xs ys h =
    let e : length (xs ++ ys) - n ≡ length xs + (length ys - n) =
      omega (arith, h, length-append xs ys) in
    let d : length xs + (length ys - n) - length xs ≡ length ys - n = omega arith in
    ap (λ k. drop k (xs ++ ys)) e
    ∙ (drop_beyond (length xs + (length ys - n)) xs ys (omega arith) ∙ ap (λ k. drop k ys) d)

length-last : (n : ℕ) (xs : Bytes) → n ≤ length xs → length (last n xs) ≡ n
length-last n xs h = omega (arith, h, length-drop (length xs - n) xs)

length-last_le : (n : ℕ) (xs : Bytes) → length (last n xs) ≤ n
length-last_le n xs = omega (arith, length-drop (length xs - n) xs)

-- What was dropped once is not missed later.
last-last : (n : ℕ) (xs ys : Bytes) → last n (last n xs ++ ys) ≡ last n (xs ++ ys)
last-last n xs ys = elim (Bool-cases (leb n (length ys))) [
  | inl e ↦
      last-append_long n (last n xs) ys (leb→le n (length ys) e)
      ∙ sym (last-append_long n xs ys (leb→le n (length ys) e))
  | inr e ↦
      let h : length ys ≤ n = ground arith in
      let a = length xs - n in
      let b = length (last n xs) + length ys - n in
      let c : a + b ≡ length xs + length ys - n =
        omega (arith, h, length-drop (length xs - n) xs) in
      last-append n (last n xs) ys h
      ∙ (ap (λ t. t ++ ys) (sym (drop-drop a b xs) ∙ ap (λ k. drop k xs) c)
          ∙ sym (last-append n xs ys h))
]

kept_lem :
    (n : ℕ) (recent line : Bytes)
    → length line ≤ n
    → ((if ltb n (length recent + length line)
          then drop (length recent + length line - n) recent
          else recent)
        ++ line)
      ≡ last n (recent ++ line)
kept_lem n recent line h =
    if_cases (λ k. k ++ line ≡ last n (recent ++ line)) (ltb n (length recent + length line))
      (λ _. sym (last-append n recent line h))
      (λ e.
        let z : length recent + length line - n ≡ 0 = ground arith in
        sym (last-append n recent line h ∙ ap (λ k. drop k recent ++ line) z))

remember-last : (recent line : Bytes) → remember recent line ≡ last log_tail (recent ++ line)
unfolding remember
remember-last recent line = elim (Bool-cases (ltb log_tail (length line))) [
  | inl e ↦
      let h : log_tail ≤ length line = omega (arith, ltb→lt log_tail (length line) e) in
      let l = length-last log_tail line h in
      rw e (
        kept_lem log_tail recent (last log_tail line) (omega (arith, l))
        ∙ (last-append_long log_tail recent (last log_tail line) (omega (arith, l))
            ∙ (last_short log_tail (last log_tail line) (omega (arith, l))
                ∙ sym (last-append_long log_tail recent line h))))
  | inr e ↦ rw e (kept_lem log_tail recent line (ground arith))
]

-- The buffer after more lines.
abbrev pub remember_all : Bytes → List Bytes → Bytes
remember_all recent [] = recent
remember_all recent (line ∷ lines) = remember_all (remember recent line) lines

abbrev pub joined_lines : List Bytes → Bytes
joined_lines [] = []
joined_lines (line ∷ lines) = line ++ joined_lines lines

-- After any lines the buffer has the last 65536 bytes of what it had and of all of them, and so
-- never more than its size.
pub remember_all_lem :
    (recent : Bytes) (lines : List Bytes)
    → length recent ≤ log_tail
    → (remember_all recent lines ≡ last log_tail (recent ++ joined_lines lines))
      × (length (remember_all recent lines) ≤ log_tail)
remember_all_lem recent [] h =
    let e = append-nil recent in (sym (ap (last log_tail) e ∙ last_short log_tail recent h), h)
remember_all_lem recent (line ∷ lines) h =
    let e = remember-last recent line in
    let (eq, bound) =
      remember_all_lem (remember recent line) lines
        (omega (arith, ap length e, length-last_le log_tail (recent ++ line))) in
    (
      eq
          ∙ (ap (λ k. last log_tail (k ++ joined_lines lines)) e
              ∙ (last-last log_tail (recent ++ line) (joined_lines lines)
                  ∙ ap (last log_tail) (append_assoc recent line (joined_lines lines)))),
      bound,
    )
