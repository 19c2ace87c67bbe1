-- ===== src/TileState/Search.antt =====
-- src/tile_state.c, contains_version. The file is the chunks that fread returns, which are not empty;
-- the buffer's size of 8192 bytes only bounds a chunk.
use ps5torrent.Base.{
  ℕ, ◌+◌, ◌-◌, ◌≤◌, ◌<◌, ◌≡◌, ◌↔◌, refl, ap, sym, ◌∙◌, ◌++◌, Bool, true, false, ◌||◌, Option, none,
  some, List, [], ◌∷◌, Bytes, length, take, drop, min, ltb, leb, ◌==◌, if◌then◌else◌, if_cases,
  bytes_eq, All, Bool-cases, inl, inr, append_assoc, take-append_length, subst, take-append-drop,
  length-append, length-drop, take_beyond, drop_within, arith,
}
use ps5torrent.Http.Search.{find_from, Occurs, FirstAt, find_from_lem}

-- The loop over the buffer: it is over where the version is longer than what is left.
unfoldable pub matches : Bytes → Bytes → Bool
matches version [] = false
matches version (c ∷ r) =
    let rest = matches version r in
    if ltb (length (c ∷ r)) (length version)
    then false
    else if bytes_eq (take (length version) (c ∷ r)) version
    then true
    else rest

-- The last bytes of the buffer, one less than the version has.
abbrev pub carried : Bytes → Bytes → Bytes
carried version buffer = drop (length buffer - min (length buffer) (length version - 1)) buffer

-- The loop over the chunks, with the bytes that are carried over.
unfoldable pub search_chunks : Bytes → Bytes → List Bytes → Bool
unfolding matches
search_chunks version carry [] = false
search_chunks version carry (chunk ∷ chunks) =
    let buffer = carry ++ chunk in
    let more = search_chunks version (carried version buffer) chunks in
    if length chunk == 0 then false else if matches version buffer then true else more

-- contains_version of a file that could be opened.
unfoldable pub contains_version : Bytes → List Bytes → Bool
unfolding search_chunks
contains_version version chunks =
    if length version == 0 || leb 8192 (length version)
    then false
    else search_chunks version [] chunks

abbrev pub contents_of : List Bytes → Bytes
contents_of [] = []
contents_of (chunk ∷ chunks) = chunk ++ contents_of chunks

-- The version stands somewhere in the text.
abbrev pub Within : Bytes → Bytes → Type 0
Within version text = (before : Bytes) × Occurs text version before

abbrev is_found : Option ℕ → Bool
is_found none = false
is_found (some i) = true

matches-find_from :
    (version : Bytes) (i : ℕ) (buffer : Bytes)
    → matches version buffer ≡ is_found (find_from version i buffer)
unfolding matches find_from
matches-find_from version i [] = refl
matches-find_from version i (c ∷ r) =
    let same = matches-find_from version (i + 1) r in
    elim (Bool-cases (ltb (length (c ∷ r)) (length version))) [
      | inl e ↦ rw e refl
      | inr e ↦ elim (Bool-cases (bytes_eq (take (length version) (c ∷ r)) version)) [
        | inl f ↦ rw (e, f) refl
        | inr f ↦ rw (e, f) same
      ]
    ]

found-Within :
    (version buffer : Bytes) (o : Option ℕ)
    → FirstAt 0 buffer version o
    → (is_found o ≡ true) ↔ Within version buffer
found-Within version buffer none f = (λ e. cc, λ w. absurd (f w.0 w.1))
found-Within version buffer (some j) (before, l, here, first) = (λ _. (before, here), λ _. refl)

matches_iff :
    (version buffer : Bytes)
    → 0 < length version
    → (matches version buffer ≡ true) ↔ Within version buffer
matches_iff version buffer n =
    let same = matches-find_from version 0 buffer in
    let w =
      found-Within version buffer (find_from version 0 buffer) (find_from_lem version 0 buffer n) in
    (λ e. w.0 (sym same ∙ e), λ h. same ∙ w.1 h)

-- What stands in a part of a text that is long enough stands in the part.
Within-front :
    (version buffer rest before after : Bytes)
    → buffer ++ rest ≡ before ++ (version ++ after)
    → length before + length version ≤ length buffer
    → Occurs buffer version before
Within-front version buffer rest before after e h =
    let n = length buffer in
    (
      take (n - length before - length version) after,
      sym (take-append_length buffer rest)
          ∙ (ap (take n) e
              ∙ (take_beyond n before (version ++ after) (omega (arith, h))
                  ∙ ap (λ t. before ++ t)
                      (take_beyond (n - length before) version after (omega (arith, h))))),
    )

-- Where the version is not in the buffer, nothing is lost with what is not carried over.
module _ (version buffer rest : Bytes) (n : 0 < length version)
    (absent : ¬ Within version buffer) where
  abbrev gone : ℕ
  gone = length buffer - min (length buffer) (length version - 1)

  to_carried : Within version (buffer ++ rest) → Within version (carried version buffer ++ rest)
  to_carried (before, (after, e)) =
      let far : ¬ (length before + length version ≤ length buffer) =
        λ h. absent (before, Within-front version buffer rest before after e h) in
      (
        drop gone before,
        (
          after,
          sym (drop_within gone buffer rest (omega arith))
              ∙ (ap (drop gone) e
                  ∙ drop_within gone before (version ++ after) (omega (arith, far, n))),
        ),
      )

  from_carried : Within version (carried version buffer ++ rest) → Within version (buffer ++ rest)
  from_carried (before, (after, e)) = (
    take gone buffer ++ before,
    (
      after,
      ap (λ t. t ++ rest) (sym (take-append-drop gone buffer))
          ∙ (append_assoc (take gone buffer) (carried version buffer) rest
              ∙ (ap (λ t. take gone buffer ++ t) e
                  ∙ sym (append_assoc (take gone buffer) before (version ++ after)))),
    ),
  )

too_long : (version text : Bytes) → length text < length version → ¬ Within version text
too_long version text h (before, (after, e)) = absurd (
    omega
      (arith, h, ap length e, length-append before (version ++ after), length-append version after))

longer : (version buffer rest : Bytes) → Within version buffer → Within version (buffer ++ rest)
longer version buffer rest (before, (after, e)) = (
  before,
  (
    after ++ rest,
    ap (λ t. t ++ rest) e
        ∙ (append_assoc before (version ++ after) rest
            ∙ ap (λ t. before ++ t) (append_assoc version after rest)),
  ),
)

module _ (version : Bytes) (n : 0 < length version) where
  abbrev Finds : Bytes → Bool → Type 0
  Finds text found = (found ≡ true) ↔ Within version text

  search_chunks_iff :
      (carry : Bytes) (chunks : List Bytes)
      → length carry < length version
      → All (λ chunk. 0 < length chunk) chunks
      → Finds (carry ++ contents_of chunks) (search_chunks version carry chunks)
  unfolding search_chunks
  search_chunks_iff carry [] small full = (
    λ e. cc,
    λ w.
        absurd
          (too_long version (carry ++ []) (omega (arith, small, length-append {A = ℕ} carry [])) w),
  )
  search_chunks_iff carry (chunk ∷ chunks) small (some_bytes, full) =
      let buffer = carry ++ chunk in
      let rest = contents_of chunks in
      let left = carried version buffer in
      let whole = append_assoc carry chunk rest in
      let found = matches_iff version buffer n in
      let short : length left < length version =
        omega (
          arith,
          n,
          length-drop (length buffer - min (length buffer) (length version - 1)) buffer,
        ) in
      let next = search_chunks_iff left chunks short full in
      if_cases (Finds (carry ++ (chunk ++ rest))) (length chunk == 0) (λ e. absurd (ground arith))
        (λ _.
          if_cases (Finds (carry ++ (chunk ++ rest))) (matches version buffer)
            (λ e. (
              λ _. subst (Within version) whole (longer version buffer rest (found.0 e)),
              λ _. refl,
            ))
            (λ e.
              let absent : ¬ Within version buffer = λ w. (let yes = found.1 w in cc) in
              (
                λ t.
                    subst (Within version) whole
                      (from_carried version buffer rest n absent (next.0 t)),
                λ w. next.1 (
                    to_carried version buffer rest n absent (subst (Within version) (sym whole) w)),
              )))

-- For a version of 1 to 8191 bytes, contains_version finds it exactly where it stands in the file,
-- also where it stands across the border of two chunks.
pub contains_version_iff :
    (version : Bytes) (chunks : List Bytes)
    → 0 < length version
    → length version < 8192
    → All (λ chunk. 0 < length chunk) chunks
    → (contains_version version chunks ≡ true) ↔ Within version (contents_of chunks)
unfolding contains_version
contains_version_iff version chunks n small full =
    if_cases (Finds version n (contents_of chunks))
      (length version == 0 || leb 8192 (length version)) (λ e. absurd (ground arith))
      (λ _. search_chunks_iff version n [] chunks n full)
