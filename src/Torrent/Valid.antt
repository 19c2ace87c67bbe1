-- ===== src/Torrent/Valid.antt =====
-- src/torrent.c, torrent_parse: what its last tests and its loop over the files guarantee.
use ps5torrent.Base.{
  ℕ, zero, suc, ◌+◌, ◌-◌, ◌*◌, ◌/◌, ◌%◌, ◌^◌, ◌<◌, ◌≤◌, ◌≡◌, ◌≢◌, refl, sym, subst, Bool, true,
  false, ◌&&◌, Option, none, some, Bytes, ◌==◌, ==_iff, if◌then◌else◌, arith, Bool-cases, inl, inr,
  codes,
}
use native.Mathlib.Nat.{mod-lt}
use native.Mathlib.Omega.{div_any}
use ps5torrent.Base.Outcome.{ok, null}
use ps5torrent.Base.Signed.{slt64}
use ps5torrent.Bencode.Node.{Node, dict_get}
use ps5torrent.Bencode.Parser.{bcode_parse}
use ps5torrent.Bencode.Encoder.{bcode_encode}
use ps5torrent.Sha1.Context.{sha1_hash}
use ps5torrent.Torrent.Types.{Torrent}
use ps5torrent.Torrent.Parse.{
  Layout, parse_layout, parse_fields_of, consistent, parse_info, torrent_parse, torrent_size,
  parse_announce_list, parse_web_seeds, is_dict, is_some, size_of,
}
use ps5torrent.Torrent.Sizes.{
  IsLayout, parse_layout-IsLayout, AddsUp, IsTorrent, Yields, Yields-bind, Yields-check, Yields-any,
  int64_of_lt,
}

whole_parts :
    (q size : ℕ)
    → 0 < size
    → 0 < size * q
    → (0 < q + 0) × ((q + 0 - 1) * size < size * q + 0) × (size * q + 0 ≤ (q + 0) * size)
whole_parts zero size hs ht = absurd (grind arith)
whole_parts (suc k) size hs ht =
    let less : k * size < size * suc k + 0 = grind arith in
    let n : suc k + 0 - 1 ≡ k = omega arith in (omega arith, rw n less, grind arith)

-- `n` parts of `size` bytes hold `size * q + r` bytes.
cover_parts :
    (q r size : ℕ)
    → 0 < size
    → r < size
    → 0 < size * q + r
    → let n = q + (if r == 0 then 0 else 1) in
      (0 < n) × ((n - 1) * size < size * q + r) × (size * q + r ≤ n * size)
cover_parts q r size hs hr ht = elim (Bool-cases (r == 0)) [
  | inl e ↦
      let z : r ≡ 0 = (==_iff r 0).0 e in rw (e, z) (whole_parts q size hs (omega (arith, ht, z)))
  | inr e ↦ rw e (grind arith, grind arith, grind arith)
]

cover :
    (n total size : ℕ)
    → 0 < size
    → 0 < total
    → n ≡ total / size + (if total % size == 0 then 0 else 1)
    → (0 < n) × ((n - 1) * size < total) × (total ≤ n * size)
cover n total size hs ht e =
    let d = div_any total size in
    let m = mod-lt total hs in
    let c = cover_parts (total / size) (total % size) size hs m (omega (arith, d)) in
    let parts = total / size + (if total % size == 0 then 0 else 1) in
    subst (λ x. (0 < x) × ((x - 1) * size < total) × (total ≤ x * size)) (sym e)
      (subst (λ x. (0 < parts) × ((parts - 1) * size < x) × (x ≤ parts * size)) d c)

all_six :
    (a b c d e f : Bool)
    → (a && b && c && d && e && f) ≡ true
    → (a ≡ true) × (b ≡ true) × (c ≡ true) × (d ≡ true) × (e ≡ true) × (f ≡ true)
all_six true true true true true f h = (refl, refl, refl, refl, refl, h)
all_six true true true true false f h = cc
all_six true true true false e f h = cc
all_six true true false d e f h = cc
all_six true false c d e f h = cc
all_six false b c d e f h = cc

positive : (x : ℕ) → x < 2 ^ 64 → slt64 0 x ≡ true → (0 < x) × (x < 2 ^ 63)
positive x h e = ground arith

present : (o : Option Bytes) → is_some o ≡ true → o ≢ none
present none h e = cc
present (some s) h e = cc

twenties : (n k : ℕ) → n ≡ k / 20 → (k % 20 == 0) ≡ true → k ≡ 20 * n
twenties n k e h = ground arith

-- The last test of torrent_parse.
consistent-IsTorrent :
    (t : Torrent)
    → t.num_pieces ≡ size_of t.pieces / 20
    → t.piece_length < 2 ^ 64
    → t.total_size < 2 ^ 64
    → AddsUp t
    → consistent t ≡ true
    → IsTorrent t
unfolding consistent
consistent-IsTorrent t n hp ht a e =
    let (name, pieces, pl, ts, twenty, count) = all_six _ _ _ _ _ _ e in
    let p = positive t.piece_length hp pl in
    let s = positive t.total_size ht ts in
    (
      present t.name name,
      twenties t.num_pieces (size_of t.pieces) n twenty,
      p,
      s,
      cover t.num_pieces t.total_size t.piece_length p.0 s.0 ((==_iff _ _).0 count),
      a,
    )

abbrev Present : Torrent → Type 0
Present t =
    (t.num_pieces ≡ size_of t.pieces / 20)
    × (t.piece_length < 2 ^ 64)
    × (t.total_size < 2 ^ 64)
    × AddsUp t

module _ (malloc : ℕ → Bool) where
  parse_fields_of-Present :
      (root info : Node) (raw hash : Bytes) (layout : Layout)
      → IsLayout malloc layout
      → Yields Present (parse_fields_of malloc root info raw hash layout)
  unfolding parse_fields_of
  parse_fields_of-Present root info raw hash layout (l, a) =
      Yields-bind (λ _. Unit {0}) Present
        (parse_announce_list malloc (dict_get root (codes "announce-list"))) _ (Yields-any _)
        (λ trackers _.
          Yields-bind (λ _. Unit {0}) Present
            (parse_web_seeds malloc (dict_get root (codes "url-list"))) _ (Yields-any _)
            (λ seeds _. (refl, int64_of_lt (dict_get info (codes "piece length")), l, a)))

  parse_info-IsTorrent :
      (stack : Bytes) (root info : Node) → Yields IsTorrent (parse_info malloc stack root info)
  unfolding parse_info
  parse_info-IsTorrent stack root info = Yields-check IsTorrent (is_dict info) _ (λ _.
      Yields-bind (λ _. Unit {0}) IsTorrent (bcode_encode malloc info) _ (Yields-any _)
        (λ raw _.
          Yields-bind (IsLayout malloc) IsTorrent (parse_layout malloc info) _
            (parse_layout-IsLayout malloc info)
            (λ layout l.
              Yields-bind Present IsTorrent
                (parse_fields_of malloc root info raw (sha1_hash stack raw) layout) _
                (parse_fields_of-Present root info raw (sha1_hash stack raw) layout l)
                (λ t (n, p, s, a).
                  Yields-check IsTorrent (consistent t) (ok t)
                    (λ c. consistent-IsTorrent t n p s a c)))))

  info_of-IsTorrent :
      (stack : Bytes) (root : Node) (info : Option Node)
      → Yields IsTorrent (elim info [ none ↦ null | some node ↦ parse_info malloc stack root node ])
  info_of-IsTorrent stack root none = tt
  info_of-IsTorrent stack root (some info) = parse_info-IsTorrent stack root info

  torrent_parse-Yields : (stack input : Bytes) → Yields IsTorrent (torrent_parse malloc stack input)
  unfolding torrent_parse
  torrent_parse-Yields stack input =
      Yields-bind (λ _. Unit {0}) IsTorrent (bcode_parse malloc input) _ (Yields-any _)
        (λ root _.
          Yields-check IsTorrent (is_dict root && malloc torrent_size) _
            (λ _. info_of-IsTorrent stack root (dict_get root (codes "info"))))

-- A torrent that torrent_parse returns has a name, the digests of its pieces, positive sizes below
-- 2 ^ 63, as many pieces as cover the total size, and, if it has several files, at most 1024 of
-- them with lengths that add up to the total size.
pub torrent_parse-IsTorrent :
    (malloc : ℕ → Bool) (stack input : Bytes) (t : Torrent)
    → torrent_parse malloc stack input ≡ ok t
    → IsTorrent t
torrent_parse-IsTorrent malloc stack input t e =
    subst (Yields IsTorrent) e (torrent_parse-Yields malloc stack input)
