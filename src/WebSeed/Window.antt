-- ===== src/WebSeed/Window.antt =====
-- src/web_seed.c, fetch_multi_file_piece: the bytes of a piece in a row of files.
use ps5torrent.Base.{
  take_over, ℕ, zero, suc, ◌+◌, ◌-◌, ◌<◌, ◌≤◌, ◌≡◌, refl, ap, sym, ◌∙◌, ◌++◌, [], ◌∷◌, Bytes,
  length, take, drop, length-take, length-drop, append-nil, take_within, take_beyond, drop_within,
  drop_beyond, leb, arith, Bool-cases, inl, inr, min,
}
use ps5torrent.WebSeed.Fetch.{part_from, part_to}

pub drop_over : (n : ℕ) (xs : Bytes) → length xs ≤ n → drop n xs ≡ []
drop_over zero [] h = refl
drop_over (suc n) [] h = refl
drop_over zero (x ∷ xs) h = absurd (omega arith)
drop_over (suc n) (x ∷ xs) h = drop_over n xs (omega arith)

abbrev pub window : ℕ → ℕ → Bytes → Bytes
window ps len xs = take len (drop ps xs)

-- What a window has of a text that is put behind another.
abbrev pub behind : ℕ → ℕ → ℕ → Bytes → Bytes
behind ps len n c = take (len - (n - ps)) (drop (ps - n) c)

pub window-append :
    (ps len : ℕ) (a c : Bytes)
    → window ps len (a ++ c) ≡ window ps len a ++ behind ps len (length a) c
window-append ps len a c = elim (Bool-cases (leb ps (length a))) [
  | inl e ↦
      let d = drop ps a in
      let ld = length-drop ps a in
      let z : ps - length a ≡ 0 = ground arith in
      ap (take len) (drop_within ps a c (ground arith))
      ∙ (cut d ld ∙ ap (λ k. take len d ++ take (len - (length a - ps)) (drop k c)) (sym z))
  | inr e ↦
      let z : length a - ps ≡ 0 = ground arith in
      let all : take (len - (length a - ps)) (drop (ps - length a) c)
          ≡ take len (drop (ps - length a) c) =
        ap (λ k. take (len - k) (drop (ps - length a) c)) z
        ∙ ap (λ k. take k (drop (ps - length a) c)) (let m : len - 0 ≡ len = omega arith in m) in
      ap (take len) (drop_beyond ps a c (ground arith))
      ∙ (sym all
          ∙ ap (λ t. t ++ take (len - (length a - ps)) (drop (ps - length a) c))
              (sym
                (ap (take len) (drop_over ps a (ground arith)) ∙ take_over len [] (omega arith))))
]
  where
    cut :
        (d : Bytes)
        → length d ≡ length a - ps
        → take len (d ++ c) ≡ take len d ++ take (len - (length a - ps)) c
    cut d l = elim (Bool-cases (leb len (length d))) [
      | inl e ↦
          let z : len - (length a - ps) ≡ 0 = ground arith in
          take_within len d c (ground arith)
          ∙ (sym (append-nil (take len d)) ∙ ap (λ k. take len d ++ take k c) (sym z))
      | inr e ↦
          let z : len - length d ≡ len - (length a - ps) = ap (λ k. len - k) l in
          take_beyond len d c (ground arith)
          ∙ (ap (λ k. d ++ take k c) z
              ∙ ap (λ t. t ++ take (len - (length a - ps)) c)
                  (sym (take_over len d (ground arith))))
    ]

module _ (ps len : ℕ) where
  -- The part of a file that overlaps the piece, as the window has it.
  pub part_lem :
      (a c : Bytes) (fl : ℕ)
      → length c ≡ fl
      → 0 < fl
      → 0 < len
      → ps < length a + fl
      → length a < ps + len
      → let from = part_from ps (length a) in
        let n = part_to (ps + len) (length a) (length a + fl) - from in
        (take n (drop from c) ≡ behind ps len (length a) c)
        × (0 < n)
        × (from + n ≤ fl)
        × (from ≤ part_to (ps + len) (length a) (length a + fl))
        × (n ≤ len - (length a - ps))
  part_lem a c fl l pos some_ below above =
      let from = part_from ps (length a) in
      let n = part_to (ps + len) (length a) (length a + fl) - from in
      let ef : from ≡ ps - length a = ground arith in
      let en : n ≡ min (len - (length a - ps)) (fl - (ps - length a)) = ground arith in
      let ld = length-drop (ps - length a) c in
      (
        ap (λ k. take n (drop k c)) ef
            ∙ (ap (λ k. take k (drop (ps - length a) c)) en
                ∙ least (len - (length a - ps)) (drop (ps - length a) c) (fl - (ps - length a))
                    (omega (arith, ld, l))),
        omega (arith, en, pos, some_, below, above),
        omega (arith, en, ef, below),
        ground arith,
        omega (arith, en),
      )
    where
      least : (k : ℕ) (xs : Bytes) (m : ℕ) → length xs ≡ m → take (min k m) xs ≡ take k xs
      least k xs m e = elim (Bool-cases (leb k m)) [
        | inl h ↦ let z : min k m ≡ k = ground arith in ap (λ j. take j xs) z
        | inr h ↦
            let z : min k m ≡ m = ground arith in
            ap (λ j. take j xs) z
            ∙ (take_over m xs (omega (arith, e)) ∙ sym (take_over k xs (ground arith)))
      ]

  pub ended :
      (a rest : Bytes)
      → len ≤ length (window ps len a)
      → window ps len (a ++ rest) ≡ window ps len a
  ended a rest h =
      let z : len - (length a - ps) ≡ 0 =
        omega (arith, h, length-take len (drop ps a), length-drop ps a) in
      window-append ps len a rest
      ∙ (ap (λ k. window ps len a ++ take k (drop (ps - length a) rest)) z
          ∙ append-nil (window ps len a))

  pub skipped : (a c : Bytes) → length a + length c ≤ ps → window ps len (a ++ c) ≡ window ps len a
  skipped a c h =
      window-append ps len a c
      ∙ (ap (λ t. window ps len a ++ take (len - (length a - ps)) t)
            (drop_over (ps - length a) c (omega arith))
          ∙ (ap (λ t. window ps len a ++ t) (take_over (len - (length a - ps)) [] (omega arith))
              ∙ append-nil (window ps len a)))

  pub size_of_window : (a : Bytes) → length (window ps len a) ≡ min len (length a - ps)
  size_of_window a = omega (arith, length-take len (drop ps a), length-drop ps a)
