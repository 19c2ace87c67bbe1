-- ===== src/Http/Upload.antt =====
-- src/http_server.c, http_get_upload and http_get_multipart_field: what they get from a body with a
-- part of the name.
use ps5torrent.Base.{
  ℕ, ◌+◌, ◌-◌, ◌≤◌, ◌<◌, ◌≡◌, refl, ap, sym, ◌∙◌, ◌++◌, false, Option, none, some, [], ◌∷◌, Bytes,
  codes, length, take, drop, leb, ◌==◌, if◌then◌else◌, if_cases, append_assoc, lt→ltb, suc,
  take_within, take_over, take-append_length, drop-append_length, length-append, arith,
}
use ps5torrent.Http.Search.{find_bytes, multipart_data_start, Occurs, FirstAt, find_bytes-FirstAt}
use ps5torrent.Http.Multipart.{
  name_text, field_start, filename_of, closing, http_get_upload, http_get_multipart_field,
}

-- The needle stands nowhere with less than `before` in front of it.
abbrev pub First : Bytes → Bytes → Bytes → Type 0
First haystack needle before =
    (earlier : Bytes) → Occurs haystack needle earlier → length before ≤ length earlier

place_lem :
    (haystack needle before : Bytes) (o : Option ℕ)
    → FirstAt 0 haystack needle o
    → Occurs haystack needle before
    → First haystack needle before
    → o ≡ some (length before)
place_lem haystack needle before none f here first = absurd (f before here)
place_lem haystack needle before (some j) (there, l, at, least) here first =
    let up = first there at in let down = least before here in ap some (omega (arith, l, up, down))

find_bytes-First :
    (needle before after : Bytes)
    → 0 < length needle
    → First (before ++ (needle ++ after)) needle before
    → find_bytes (before ++ (needle ++ after)) needle ≡ some (length before)
find_bytes-First needle before after n first =
    place_lem (before ++ (needle ++ after)) needle before
      (find_bytes (before ++ (needle ++ after)) needle)
      (find_bytes-FirstAt (before ++ (needle ++ after)) needle n) (after, refl) first

abbrev pub empty_line : Bytes
empty_line = 13 ∷ 10 ∷ 13 ∷ 10 ∷ []

-- A part of a body: the name, the rest of its headers, and its content.
abbrev pub part_of : Bytes → Bytes → Bytes → Bytes → Bytes
part_of name headers content after =
    name_text name ++ (headers ++ (empty_line ++ (content ++ (closing ++ after))))

name_text_pos : (name : Bytes) → 0 < length (name_text name)
name_text_pos name = omega (arith, length-append (codes "name=\"") (name ++ b'"' ∷ []))

field_start_lem :
    (before name t : Bytes)
    → length (name_text name) < 256
    → First (before ++ (name_text name ++ t)) (name_text name) before
    → field_start (before ++ (name_text name ++ t)) name ≡ some (name_text name ++ t)
unfolding field_start
field_start_lem before name t small first =
    let found = find_bytes-First (name_text name) before t (name_text_pos name) first in
    let begin = drop-append_length before (name_text name ++ t) in
    if_cases (λ (o : Option Bytes). o ≡ some (name_text name ++ t))
      (leb 256 (length (name_text name))) (λ e. absurd (ground arith)) (λ _. rw (found, begin) refl)

data_start_lem :
    (front t : Bytes)
    → First (front ++ (empty_line ++ t)) empty_line front
    → multipart_data_start (front ++ (empty_line ++ t)) ≡ some (length front + 4)
unfolding multipart_data_start
data_start_lem front t first =
    let found = find_bytes-First empty_line front t (omega arith) first in
    rw (found, multipart_data_start) refl

drop-front : (front t : Bytes) → drop (length front + 4) (front ++ (empty_line ++ t)) ≡ t
drop-front [] t = refl
drop-front (c ∷ front) t =
    let e : suc (length front) + 4 ≡ suc (length front + 4) = omega arith in
    ap (λ n. drop n (c ∷ front ++ (empty_line ++ t))) e ∙ drop-front front t

-- Where the search finds the needle, nothing stands before it.
First-FirstAt :
    (haystack needle before : Bytes) (o : Option ℕ)
    → FirstAt 0 haystack needle o
    → o ≡ some (length before)
    → First haystack needle before
First-FirstAt haystack needle before none f e = λ earlier here. cc
First-FirstAt haystack needle before (some j) (there, l, at, least) e = λ earlier here.
    let same : j ≡ length before =
      ap {B = ℕ} (λ (o : Option ℕ). elim o [ none ↦ 0 | some n ↦ n ]) e in
    let down = least earlier here in omega (arith, l, same, down)

pub First-find_bytes :
    (haystack needle before : Bytes)
    → 0 < length needle
    → find_bytes haystack needle ≡ some (length before)
    → First haystack needle before
First-find_bytes haystack needle before n e =
    First-FirstAt haystack needle before (find_bytes haystack needle)
      (find_bytes-FirstAt haystack needle n) e

cut_value :
    (value_len : ℕ) (content t : Bytes)
    → 0 < value_len
    → take (if leb value_len (length content) then value_len - 1 else length content) (content ++ t)
      ≡ take (value_len - 1) content
cut_value value_len content t h =
    if_cases (λ n. take n (content ++ t) ≡ take (value_len - 1) content)
      (leb value_len (length content)) (λ e. take_within (value_len - 1) content t (ground arith))
      (λ e. take-append_length content t ∙ sym (take_over (value_len - 1) content (ground arith)))

module _ (before name headers content after : Bytes) where
  abbrev front : Bytes
  front = name_text name ++ headers

  abbrev rest : Bytes
  rest = content ++ (closing ++ after)

  abbrev pub body_of : Bytes
  body_of = before ++ part_of name headers content after

  -- The name stands first where the part begins, the headers have no blank line before their end,
  -- and the content does not hold what closes it.
  pub record IsPart : Type 0 where
    pub short_name : length (name_text name) < 256
    pub first_name : First body_of (name_text name) before
    pub first_blank : First (front ++ (empty_line ++ rest)) empty_line front
    pub first_close : First rest closing content

  field_start-body_of : IsPart → field_start body_of name ≡ some (front ++ (empty_line ++ rest))
  field_start-body_of h =
      field_start_lem before name (headers ++ (empty_line ++ rest)) h.short_name h.first_name
      ∙ ap some (sym (append_assoc (name_text name) headers (empty_line ++ rest)))

  http_get_upload-body_of :
      (filename_len : ℕ)
      → IsPart
      → 0 < length content
      → http_get_upload body_of name filename_len
        ≡ some
            (content, filename_of filename_len (front ++ (empty_line ++ rest)) (length front + 4))
  unfolding http_get_upload
  http_get_upload-body_of filename_len h some_data =
      let f = field_start-body_of h in
      let d = data_start_lem front rest h.first_blank in
      let r = drop-front front rest in
      let c = find_bytes-First closing content after (omega arith) h.first_close in
      let t = take-append_length content (closing ++ after) in
      let p = lt→ltb 0 (length content) some_data in rw (f, d, r, c, t, p, http_get_upload) refl

  http_get_multipart_field-body_of :
      (value_len : ℕ)
      → IsPart
      → 0 < value_len
      → http_get_multipart_field body_of name value_len ≡ some (take (value_len - 1) content)
  unfolding http_get_multipart_field
  http_get_multipart_field-body_of value_len h room =
      let f = field_start-body_of h in
      let d = data_start_lem front rest h.first_blank in
      let r = drop-front front rest in
      let c = find_bytes-First closing content after (omega arith) h.first_close in
      let t = cut_value value_len content (closing ++ after) room in
      let p : (value_len == 0) ≡ false = ground arith in
      rw (f, d, r, c, r, p, http_get_multipart_field) (ap some t)

  -- From a body with a part of a name, http_get_upload gets exactly the content of the part, whatever
  -- its bytes are, and http_get_multipart_field as much of it as the buffer holds; the name stands
  -- nowhere before the part, the headers hold no blank line, the content is not empty and does not hold
  -- the line that closes it.
  pub http_get_upload-http_get_multipart_field :
      (filename_len value_len : ℕ)
      → IsPart
      → 0 < length content
      → 0 < value_len
      → ((filename : Option Bytes) × (http_get_upload body_of name filename_len
            ≡ some (content, filename)))
        × (http_get_multipart_field body_of name value_len ≡ some (take (value_len - 1) content))
  http_get_upload-http_get_multipart_field filename_len value_len h some_data room = (
    (
      filename_of filename_len (front ++ (empty_line ++ rest)) (length front + 4),
      http_get_upload-body_of filename_len h some_data,
    ),
    http_get_multipart_field-body_of value_len h room,
  )
