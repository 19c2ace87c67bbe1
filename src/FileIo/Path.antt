-- ===== src/FileIo/Path.antt =====
-- src/file_io.c, safe_relative_path: no absolute path, no control character, no component `.` or
-- `..`. A C string is its bytes without the closing zero.
use ps5torrent.Base.{
  ℕ, ◌≤◌, ◌≡◌, ◌≢◌, ◌↔◌, refl, ap, Bool, true, false, not, ◌&&◌, ◌||◌, Option, none, some, List, [],
  ◌∷◌, Bytes, codes, bytes_eq, bytes_eq→eq, bytes_eq_refl, All, get_elem?, ltb, ◌==◌, if◌then◌else◌,
  arith, Bool-cases, inl, inr, ==_iff,
}

-- `p[1] == '/' || p[1] == 0 || (p[1] == '.' && (p[2] == '/' || p[2] == 0))`, for the text behind p.
abbrev pub slash_or_end : Bytes → Bool
slash_or_end [] = true
slash_or_end (c ∷ r) = c == b'/'

abbrev pub dots_end : Bytes → Bool
dots_end [] = true
dots_end (c ∷ r) = c == b'/' || (c == b'.' && slash_or_end r)

-- The loop; `start` says that `p` is at the path's start or behind a slash.
unfoldable pub safe_from : Bool → Bytes → Bool
safe_from start [] = true
safe_from start (c ∷ r) =
    let rest = safe_from (c == b'/') r in
    if ltb c 0x20 || (c == b'.' && (start && dots_end r)) then false else rest

unfoldable pub safe_relative_path : Option Bytes → Bool
unfolding safe_from
safe_relative_path none = false
safe_relative_path (some []) = false
safe_relative_path (some (c ∷ r)) = if c == b'/' then false else safe_from true (c ∷ r)

-- The components of a path between its slashes: the first one and the others.
unfoldable pub components : Bytes → Bytes × List Bytes
components [] = ([], [])
components (c ∷ r) =
    let (first, others) = components r in
    if c == b'/' then ([], first ∷ others) else (c ∷ first, others)

abbrev pub IsProper : Bytes → Type 0
IsProper s = (s ≢ codes ".") × (s ≢ codes "..")

is_dots : Bytes → Bool
is_dots s = bytes_eq s (codes ".") || bytes_eq s (codes "..")

printable : Bytes → Bool
printable [] = true
printable (c ∷ r) = not (ltb c 0x20) && printable r

no_dots : List Bytes → Bool
no_dots [] = true
no_dots (s ∷ ss) = not (is_dots s) && no_dots ss

slash_or_end_lem : (r : Bytes) → slash_or_end r ≡ bytes_eq (components r).0 []
unfolding components
slash_or_end_lem [] = refl
slash_or_end_lem (c ∷ r) = elim (Bool-cases (c == b'/')) [
  | inl e ↦ rw (e, components)
  | inr e ↦ rw (e, components)
]

dots_end_lem : (r : Bytes) → dots_end r ≡ is_dots (b'.' ∷ (components r).0)
unfolding components is_dots
dots_end_lem [] = refl
dots_end_lem (c ∷ r) = elim (Bool-cases (c == b'/')) [
  | inl e ↦ rw (e, components)
  | inr e ↦ elim (Bool-cases (c == b'.')) [
    | inl d ↦ rw (e, d, components, slash_or_end_lem r)
    | inr d ↦ rw (e, d, components)
  ]
]

first_ok : Bool → Bytes → Bool
unfolding is_dots
first_ok start first = not start || not (is_dots first)

slash_step : (start p q : Bool) → (p && q) ≡ (p && ((not start || true) && q))
slash_step true p q = refl
slash_step false p q = refl

dot_step :
    (start i p q : Bool)
    → (if start && i then false else p && q) ≡ (p && ((not start || not i) && q))
dot_step true true true q = refl
dot_step true true false q = refl
dot_step true false p q = refl
dot_step false i p q = refl

other_step :
    (start b p q : Bool)
    → (if b || false then false else p && q) ≡ ((not b && p) && ((not start || true) && q))
other_step start true p q = refl
other_step true false p q = refl
other_step false false p q = refl

safe_from_lem :
    (start : Bool) (s : Bytes)
    → safe_from start s
      ≡ (printable s && (first_ok start (components s).0 && no_dots (components s).1))
unfolding safe_from components printable no_dots first_ok is_dots
safe_from_lem true [] = refl
safe_from_lem false [] = refl
safe_from_lem start (c ∷ r) = elim (Bool-cases (c == b'/')) [
  | inl e ↦
      rw ((==_iff c b'/').0 e, safe_from_lem true r, components) (slash_step start (printable r) _)
  | inr e ↦ elim (Bool-cases (c == b'.')) [
    | inl d ↦
        rw ((==_iff c b'.').0 d, safe_from_lem false r, components, dots_end_lem r)
          (dot_step start (is_dots (b'.' ∷ (components r).0)) (printable r) _)
    | inr d ↦
        rw (e, d, safe_from_lem false r, components) (other_step start (ltb c 0x20) (printable r) _)
  ]
]

printable_iff : (s : Bytes) → (printable s ≡ true) ↔ All (λ c. 0x20 ≤ c) s
unfolding printable
printable_iff [] = (λ _. tt, λ _. refl)
printable_iff (c ∷ r) = ground (arith, printable_iff r)

and_iff :
    {A B : Type 0} (p q : Bool) → (p ≡ true) ↔ A → (q ≡ true) ↔ B → ((p && q) ≡ true) ↔ (A × B)
and_iff true q hp hq = (λ e. (hp.0 refl, hq.0 e), λ h. hq.1 h.1)
and_iff false q hp hq = (λ e. (cc), λ h. hp.1 h.0)

bytes_ne_self : (s t : Bytes) → bytes_eq s t ≡ false → s ≢ t
bytes_ne_self s t = λ e p. let r = bytes_eq_refl t in cc

bytes_ne : (s t : Bytes) → (not (bytes_eq s t) ≡ true) ↔ (s ≢ t)
bytes_ne s t = elim (Bool-cases (bytes_eq s t)) [
  | inl e ↦ rw e (λ h. cc, λ n. absurd (n (bytes_eq→eq s t e)))
  | inr e ↦ rw e (λ _. bytes_ne_self s t e, λ _. refl)
]

not_or : (p q : Bool) → not (p || q) ≡ (not p && not q)
not_or true q = refl
not_or false q = refl

is_dots_iff : (s : Bytes) → (not (is_dots s) ≡ true) ↔ IsProper s
unfolding is_dots
is_dots_iff s =
    rw (not_or (bytes_eq s (codes ".")) (bytes_eq s (codes "..")))
      (and_iff _ _ (bytes_ne s (codes ".")) (bytes_ne s (codes "..")))

no_dots_iff : (ss : List Bytes) → (no_dots ss ≡ true) ↔ All IsProper ss
unfolding no_dots
no_dots_iff [] = (λ _. tt, λ _. refl)
no_dots_iff (s ∷ ss) = and_iff (not (is_dots s)) (no_dots ss) (is_dots_iff s) (no_dots_iff ss)

-- A path as the writer wants it: not empty and not absolute, of printable characters, and with no
-- component that stays in a directory or leaves it.
abbrev pub IsContained : Bytes → Type 0
IsContained s =
    (s ≢ [])
    × (get_elem? s 0 ≢ some b'/')
    × All (λ c. 0x20 ≤ c) s
    × All IsProper ((components s).0 ∷ (components s).1)

safe_from_iff :
    (s : Bytes)
    → (safe_from true s ≡ true)
      ↔ (All (λ c. 0x20 ≤ c) s × All IsProper ((components s).0 ∷ (components s).1))
unfolding first_ok
safe_from_iff s = rw (safe_from_lem true s) (
    and_iff _ _ (printable_iff s)
      (and_iff _ _ (is_dots_iff (components s).0) (no_dots_iff (components s).1)))

unless : (b x : Bool) → (if b then false else x) ≡ (not b && x)
unless true x = refl
unless false x = refl

not_slash : (c : ℕ) (r : Bytes) → (not (c == b'/') ≡ true) ↔ (get_elem? (c ∷ r) 0 ≢ some b'/')
not_slash c r = elim (Bool-cases (c == b'/')) [
  | inl e ↦ rw e (λ h. cc, λ n. absurd (n (ap some ((==_iff c b'/').0 e))))
  | inr e ↦ rw e (λ _ p. grind arith, λ _. refl)
]

-- safe_relative_path accepts exactly the paths that are not empty and not absolute, have no byte
-- below 0x20, and have no component `.` or `..` between their slashes.
pub safe_relative_path_iff : (s : Bytes) → (safe_relative_path (some s) ≡ true) ↔ IsContained s
unfolding safe_relative_path
safe_relative_path_iff [] = (λ h. (cc), λ h. absurd (h.0 refl))
safe_relative_path_iff (c ∷ r) =
    let both = and_iff _ _ (not_slash c r) (safe_from_iff (c ∷ r)) in
    rw (unless (c == b'/') (safe_from true (c ∷ r))) (
      λ h. let (ns, (pr, co)) = both.0 h in ((λ e. cc), ns, pr, co),
      λ h. both.1 (let (ne, ns, pr, co) = h in (ns, (pr, co))),
    )
