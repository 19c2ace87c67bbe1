-- ===== src/Torrent/Sizes.antt =====
-- src/torrent.c: what torrent_parse promises of a torrent, and the sizes of the files it reads.
use ps5torrent.Base.{
  ℕ, suc, ◌+◌, ◌-◌, ◌*◌, ◌^◌, ◌<◌, ◌≤◌, ◌≡◌, ◌≢◌, refl, ap, Bool, true, false, not, ◌&&◌, Option,
  none, some, List, length, leb, arith, if_cases, codes,
}
use native.Mathlib.Nat.{}
use native.Mathlib.Omega.{}
use ps5torrent.Base.Outcome.{Outcome, ok, null, fault, out_of_fuel, bind}
use ps5torrent.Base.Signed.{slt64}
use ps5torrent.Bencode.Node.{Node, Items, no_items, item, count_items, dict_get}
use ps5torrent.Torrent.Types.{Torrent, TorrentFile}
use ps5torrent.Torrent.Parse.{
  check, Layout, parse_file, parse_files, parse_layout, layout_from, several, list_of, is_dict,
  size_of, int64_of,
}
use ps5torrent.FileIo.Placed.{total_length}

-- The pieces cover the torrent: the last one is not empty and not longer than the others.
abbrev pub Covers : Torrent → Type 0
Covers t =
    (0 < t.num_pieces)
    × ((t.num_pieces - 1) * t.piece_length < t.total_size)
    × (t.total_size ≤ t.num_pieces * t.piece_length)

-- A torrent of several files has at most 1024, and their lengths add up to the total.
abbrev pub AddsUp : Torrent → Type 0
AddsUp t = t.is_multi_file ≡ true → (total_length t.files ≡ t.total_size) × (length t.files ≤ 1024)

abbrev pub IsTorrent : Torrent → Type 0
IsTorrent t =
    (t.name ≢ none)
    × (size_of t.pieces ≡ 20 * t.num_pieces)
    × ((0 < t.piece_length) × (t.piece_length < 2 ^ 63))
    × ((0 < t.total_size) × (t.total_size < 2 ^ 63))
    × Covers t
    × AddsUp t

-- `P` holds of the result, if there is one.
abbrev pub Yields : {A : Type 0} → (A → Type 0) → Outcome A → Type 0
Yields P (ok a) = P a
Yields P _ = Unit

pub Yields-bind :
    {A B : Type 0} (P : A → Type 0) (Q : B → Type 0) (r : Outcome A) (f : A → Outcome B)
    → Yields P r
    → ((a : A) → P a → Yields Q (f a))
    → Yields Q (bind r f)
Yields-bind P Q (ok a) f h k = k a h
Yields-bind P Q null f h k = tt
Yields-bind P Q fault f h k = tt
Yields-bind P Q out_of_fuel f h k = tt

pub Yields-check :
    {A : Type 0} (P : A → Type 0) (b : Bool) (r : Outcome A)
    → (b ≡ true → Yields P r)
    → Yields P (check b r)
Yields-check P true r k = k refl
Yields-check P false r k = tt

pub Yields-any : {A : Type 0} (r : Outcome A) → Yields (λ a. Unit {0}) r
Yields-any (ok a) = tt
Yields-any null = tt
Yields-any fault = tt
Yields-any out_of_fuel = tt

pub int64_of_lt : (node : Option Node) → int64_of node < 2 ^ 64
int64_of_lt none = omega arith
int64_of_lt (some node) = omega arith

few : (n k : ℕ) (b : Bool) → k ≡ n → (leb n 1024 && b) ≡ true → k ≤ 1024
few n k b e h = ground arith

module _ (malloc : ℕ → Bool) where
  parse_file_lt : (node : Node) → (parse_file malloc node).length < 2 ^ 64
  unfolding parse_file
  parse_file_lt node =
      if_cases (λ (f : TorrentFile). f.length < 2 ^ 64) (is_dict node)
        (λ _. int64_of_lt (dict_get node (codes "length"))) (λ _. omega arith)

  abbrev Sums : ℕ → Items → List TorrentFile × ℕ → Type 0
  Sums total xs (fs, total') =
      (total + total_length fs ≡ total') × (total' < 2 ^ 63) × (length fs ≡ count_items xs)

  small_sum :
      (total n : ℕ)
      → total < 2 ^ 63
      → n < 2 ^ 64
      → (not (slt64 n 0) && not (slt64 (2 ^ 63 - 1 - total) n)) ≡ true
      → total + n < 2 ^ 63
  small_sum total n h l e = ground arith

  -- The lengths are added up without overflow.
  parse_files-total :
      (total : ℕ) (xs : Items)
      → total < 2 ^ 63
      → Yields (Sums total xs) (parse_files malloc total xs)
  unfolding parse_files
  parse_files-total total no_items h = (omega arith, h, refl)
  parse_files-total total (item node xs) h =
      let n = (parse_file malloc node).length in
      Yields-check (Sums total (item node xs)) _ _ (λ e.
        Yields-bind (Sums (total + n) xs) (Sums total (item node xs))
          (parse_files malloc (total + n) xs) _
          (parse_files-total (total + n) xs (small_sum total n h (parse_file_lt node) e))
          (λ (fs, total') (a, b, c). (omega (arith, a), b, ap suc c)))

  abbrev pub IsLayout : Layout → Type 0
  IsLayout l =
      (l.total_size < 2 ^ 64)
      × (l.is_multi_file ≡ true → (total_length l.files ≡ l.total_size) × (length l.files ≤ 1024))

  layout_from-IsLayout :
      (info : Node) (files : Option Items) → Yields IsLayout (layout_from malloc info files)
  unfolding layout_from
  layout_from-IsLayout info none = (int64_of_lt (dict_get info (codes "length")), λ e. cc)
  layout_from-IsLayout info (some xs) = Yields-check IsLayout _ _ (λ e.
      Yields-bind (Sums 0 xs) IsLayout (parse_files malloc 0 xs) (several malloc)
        (parse_files-total 0 xs (omega arith))
        (λ r (a, b, c).
          (omega (arith, b), λ _. (omega (arith, a), few (count_items xs) (length r.0) _ c e))))

  pub parse_layout-IsLayout : (info : Node) → Yields IsLayout (parse_layout malloc info)
  unfolding parse_layout
  parse_layout-IsLayout info = layout_from-IsLayout info (list_of (dict_get info (codes "files")))
